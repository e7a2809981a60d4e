-- ===== src/Driver.antt =====
-- src/nyxstone.cpp, the state of one assemble call while the source is read.
-- The glue functions that the driver calls while it reads the source return nothing that it looks
-- at, so the driver is modelled by the calls that it makes, in their order; `Assemble` runs them.
-- The two globals are fields: the section-violation flag and the first directive error.
pub mod Local
use nyxstone_tricore_gcc.Base.{
  ℕ, Bool, true, false, List, [], ◌∷◌, ◌++◌, if◌then◌else◌, is_empty, Bytes, ℤ,
}

-- Arguments are what the C side reads: a `const char *` ends at its first NUL.
pub data GlueCall : Type 0 where
  -- nyxstone_glue_colon(name), nyxstone_glue_fb_label(n)
  colon : Bytes → GlueCall
  fb_label : ℕ → GlueCall
  -- nyxstone_glue_set_sym(name, expr), nyxstone_glue_md_assemble(line)
  set_sym : Bytes → Bytes → GlueCall
  md_assemble : Bytes → GlueCall
  -- nyxstone_glue_emit_bytes(p, n), nyxstone_glue_emit_cons(args, width)
  emit_bytes : Bytes → GlueCall
  emit_cons : Bytes → ℕ → GlueCall
  -- nyxstone_glue_align(p2, fill, max), nyxstone_glue_org(target, fill)
  align : ℕ → ℤ → ℕ → GlueCall
  org : ℕ → ℤ → GlueCall

pub record Driver : Type 0 where
  pub calls : List GlueCall
  pub section_violation : Bool
  pub directive_error : Bytes

-- What `do_assemble` sets at its start.
abbrev pub cleared : Driver
cleared = record { calls = []; section_violation = false; directive_error = [] }

-- A call of the glue.
abbrev pub glue : GlueCall → Driver → Driver
glue call d = record d { calls = d.calls ++ call ∷ [] }

-- The first error wins.
unfoldable pub directive_error : Bytes → Driver → Driver
directive_error msg d = if is_empty d.directive_error then record d { directive_error = msg } else d

-- `g_section_violation = true`
abbrev pub violate : Driver → Driver
violate d = record d { section_violation = true }
