-- ===== src/Glue.antt =====
-- src/nyxstone.cpp, the declarations of the C glue layer, as the driver uses them: an interface over
-- an abstract state of gas and of the glue's globals. The two-step queries for a length and then for
-- the contents are one function that returns the contents.
use nyxstone_tricore_gcc.Base.{ℕ, Bool, Option, List, Bytes, ℤ}
use nyxstone_tricore_gcc.Driver.{GlueCall}

-- `nyxstone_glue_reloc_t`; a NULL symbol name is `none`.
pub record RawReloc : Type 0 where
  pub offset : ℕ
  pub addend : ℤ
  pub has_addend : Bool
  pub symbol_name : Option Bytes
  pub reloc_type : ℕ

pub record Glue : Type 1 where
  pub State : Type 0
  pub reset : State → State
  pub begin_capture : State → State
  pub end_capture : State → Bytes × State
  -- one call from the source, see `GlueCall`
  pub perform : GlueCall → State → State
  pub define_abs : Bytes → ℕ → State → State
  pub had_errors : State → ℕ
  -- the count of unresolved references, and the state
  pub resolve_text_fixups : ℕ → State → ℕ × State
  pub unsupported_reloc : State → Option Bytes
  pub collect_relocs : State → List RawReloc
  pub extract_text_bytes : State → Bytes
