-- ===== src/GlueLayer/Startup.antt =====
-- src/nyxstone_glue.c, `nyxstone_glue_init_once`.
use nyxstone_tricore_gcc.Base.{ℕ, Bool, true, not, List, [], ◌∷◌, if◌then◌else◌, Bytes, codes}

-- The functions of gas and BFD that it calls, by their names. `World` is the state of both, with the
-- variables that the sections are kept in. A flag says that the magic number, a target or a bfd is
-- given.
pub record Startup : Type 1 where
  pub World : Type 0
  pub abs_section_name : Bytes
  pub und_section_name : Bytes
  pub bfd_init : World → Bool × World
  pub obstack_begin : World → World
  pub symbol_begin : World → World
  pub frag_init : World → World
  pub subsegs_begin : World → World
  pub read_begin : World → World
  pub expr_begin : World → World
  pub bfd_find_target : Bytes → World → Bool × World
  pub bfd_create : Bytes → World → Bool × World
  pub bfd_make_writable : World → World
  -- to `bfd_object` and `bfd_arch_tricore`
  pub bfd_set_format : World → World
  pub bfd_set_arch_mach : World → World
  pub subseg_new : Bytes → World → World
  -- to the text section
  pub subseg_set : World → World
  pub md_parse_option : ℕ → Bytes → World → World
  pub md_begin : World → World

-- `g_initialized`, and the state of gas and BFD.
pub record SetupState (World : Type 0) : Type 0 where
  pub initialized : Bool
  pub world : World

module _ (start : Startup) where
  open start use {
    World, abs_section_name, und_section_name, bfd_init, obstack_begin, symbol_begin, frag_init,
    subsegs_begin, read_begin, expr_begin, bfd_find_target, bfd_create, bfd_make_writable,
    bfd_set_format, bfd_set_arch_mach, subseg_new, subseg_set, md_parse_option, md_begin,
  }

  unfoldable pub begin_gas : World → World
  begin_gas w =
      let w = frag_init (symbol_begin (obstack_begin w)) in
      expr_begin (read_begin (subsegs_begin w))

  unfoldable pub new_sections : List Bytes → World → World
  new_sections [] w = w
  new_sections (name ∷ names) w = new_sections names (subseg_new name w)

  -- Behind `bfd_create`. The instruction set is chosen in front of `md_begin`.
  unfoldable pub set_up : World → World
  unfolding new_sections
  set_up w =
      let w = bfd_set_arch_mach (bfd_set_format (bfd_make_writable w)) in
      let names =
        codes ".text"
        ∷ codes ".data"
        ∷ codes ".bss"
        ∷ abs_section_name
        ∷ und_section_name
        ∷ codes "*reg*"
        ∷ codes "*expr*"
        ∷ [] in
      md_begin (md_parse_option b'm' (codes "tc162") (subseg_set (new_sections names w)))

  unfoldable pub init_once : SetupState World → ℕ × SetupState World
  unfolding begin_gas set_up
  init_once x =
      let (magic, w) = bfd_init x.world in
      let (target, w') = bfd_find_target (codes "elf32-tricore") (begin_gas w) in
      let (made, w'') = bfd_create (codes "nyxstone-tricore") w' in
      if x.initialized
      then (0, x)
      else if not magic
      then (1, record x { world = w })
      else if not target
      then (2, record x { world = w' })
      else if not made
      then (2, record x { world = w'' })
      else (0, record { initialized = true; world = set_up w'' })
