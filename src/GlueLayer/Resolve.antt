-- ===== src/GlueLayer/Resolve.antt =====
-- src/nyxstone_glue.c, the globals of the layer, `apply_text_fixups`,
-- `nyxstone_glue_resolve_text_fixups`, `nyxstone_glue_unsupported_reloc` and
-- `nyxstone_glue_collect_relocs`.
pub mod Left
pub mod Count
pub mod Errors
pub mod Places
pub mod Carried
use nyxstone_tricore_gcc.GlueLayer.Fixups.{fix_address, restore, apply_chains, encode_chains}
use nyxstone_tricore_gcc.Base.{
  ℕ, zero, suc, Bool, true, false, ◌||◌, Option, none, some, List, [], ◌∷◌, ◌++◌, ◌==◌,
  if◌then◌else◌, length, drop, Bytes, codes,
}
use nyxstone_tricore_gcc.Gas.{rs_machine_dependent, Frag, Fix, Chain, Session, Gas}
use nyxstone_tricore_gcc.Glue.{RawReloc}
use nyxstone_tricore_gcc.GlueLayer.Sections.{
  all_frags, layout, finalize_align_org, extract_text_bytes,
}
use nyxstone_tricore_gcc.GlueLayer.Relax.{relax_branches}
use nyxstone_tricore_gcc.GlueLayer.Capture.{Capture}

-- The state of gas, `g_unsupported_reloc`, and the log.
pub record Layer (Symbol World : Type 0) : Type 0 where
  pub session : Session Symbol World
  pub unsupported_form : Option Bytes
  pub capture : Capture

module _ (g : Gas) where
  open g use {
    Symbol, World, is_defined, symbol_name, symbol_value, resolve_symbol_value, md_convert_frag,
    reloc_type_lookup,
  }

  abbrev pub with_text : List (Chain Symbol) → World → Session Symbol World
  with_text fcs w = record { text = some fcs; world = w }

  -- Both passes over the fixups of a section that is laid out, and the count. An empty section has
  -- no image.
  unfoldable pub apply_text_fixups :
      ℕ → List (Chain Symbol) → World → Option Bytes × ℕ × Session Symbol World
  unfolding apply_chains encode_chains restore extract_text_bytes
  apply_text_fixups base fcs w =
      let (fcs', count, w') = apply_chains g fcs fcs w in
      let buf = extract_text_bytes (some fcs') in
      let i =
        encode_chains g base fcs' fcs'
          (record { buf = buf; unsupported_form = none; world = w' }) in
      if length buf == 0
      then (none, count, with_text fcs' w')
      else (i.unsupported_form, count, with_text (restore i.buf 0 fcs') i.world)

  abbrev pub is_machine_dependent : Frag Symbol → Bool
  is_machine_dependent fr = elim fr.kind [ rs_machine_dependent ↦ true | _ ↦ false ]

  -- `resolve_symbol_value` for the targets of the branches.
  unfoldable pub resolve_targets : List (Frag Symbol) → World → World
  resolve_targets [] w = w
  resolve_targets (fr ∷ frs) w =
      let w' : World = elim fr.symbol [ none ↦ w | some s ↦ resolve_symbol_value s w ] in
      resolve_targets frs (if is_machine_dependent fr then w' else w)

  abbrev pub convert_nth : ℕ → List (Frag Symbol) → Session Symbol World → Session Symbol World
  convert_nth at [] s = s
  convert_nth at (fr ∷ frs) s = if is_machine_dependent fr then md_convert_frag at s else s

  -- `md_convert_frag` for the branches, `n` frags from number `i` on.
  unfoldable pub convert_frags : ℕ → ℕ → Session Symbol World → Session Symbol World
  convert_frags zero i s = s
  convert_frags (suc n) i s = elim s.text [
    | none ↦ s
    | some fcs ↦ convert_frags n (suc i) (convert_nth i (drop i (all_frags fcs)) s)
  ]

  unfoldable pub org_errors : ℕ → World → World
  org_errors zero w = w
  org_errors (suc n) w = org_errors n (g.as_bad (codes "attempt to move .org backwards") w)

  -- Steps 3 to 5 of the list there.
  unfoldable pub place_text :
      ℕ → List (Chain Symbol) → World → Option Bytes × ℕ × Session Symbol World
  unfolding apply_text_fixups org_errors finalize_align_org layout
  place_text base fcs w =
      let (fcs', errors) = finalize_align_org (symbol_value fcs w) 0 fcs in
      apply_text_fixups base (layout 0 fcs') (org_errors errors w)

  abbrev keep_form :
      Layer Symbol World → Option Bytes × ℕ × Session Symbol World → ℕ × Layer Symbol World
  keep_form l (form, count, s) = (count, record l { session = s; unsupported_form = form })

  -- Steps 3 to 5, on a section whose branches are converted.
  unfoldable pub resolve_relaxed :
      ℕ → Option (List (Chain Symbol)) → World → Layer Symbol World → ℕ × Layer Symbol World
  unfolding place_text
  resolve_relaxed base none w l = (0, record l { session = record { text = none; world = w } })
  resolve_relaxed base (some fcs) w l = keep_form l (place_text base fcs w)

  -- Step 2.
  unfoldable pub convert_relaxed : Session Symbol World → Session Symbol World
  unfolding resolve_targets convert_frags
  convert_relaxed s = elim s.text [
    | none ↦ s
    | some fcs ↦
        convert_frags (length (all_frags fcs)) 0
          (record s { world = resolve_targets (all_frags fcs) s.world })
  ]

  unfoldable pub resolve_text_fixups : ℕ → Layer Symbol World → ℕ × Layer Symbol World
  unfolding relax_branches convert_relaxed resolve_relaxed
  resolve_text_fixups base l =
      let s = convert_relaxed (relax_branches g l.session) in resolve_relaxed base s.text s.world l

  unfoldable pub unsupported_reloc : Layer Symbol World → Option Bytes
  unsupported_reloc l = l.unsupported_form

  -- The relocation of a fixup that is left to the linker.
  unfoldable pub reloc_of : List (Chain Symbol) → Fix Symbol → Symbol → RawReloc
  unfolding fix_address
  reloc_of fcs fx s = record {
    offset = fix_address fcs fx;
    addend = fx.addnumber;
    has_addend = true;
    symbol_name = some (g.symbol_name s);
    reloc_type = elim (reloc_type_lookup fx.r_type) [ none ↦ 0 | some howto ↦ howto.elf_type ];
  }

  -- One fixup with that symbol, in front of the relocations of the others.
  unfoldable pub collect_fix :
      List (Chain Symbol) → World → Fix Symbol → Option Symbol → List RawReloc → List RawReloc
  unfolding reloc_of
  collect_fix fcs w fx none rest = rest
  collect_fix fcs w fx (some s) rest =
      if fx.done || is_defined w s then rest else reloc_of fcs fx s ∷ rest

  unfoldable pub collect_fixes : List (Chain Symbol) → World → List (Fix Symbol) → List RawReloc
  unfolding collect_fix
  collect_fixes fcs w [] = []
  collect_fixes fcs w (fx ∷ fxs) = collect_fix fcs w fx fx.addsy (collect_fixes fcs w fxs)

  unfoldable pub collect_chains : List (Chain Symbol) → World → List (Chain Symbol) → List RawReloc
  unfolding collect_fixes
  collect_chains fcs w [] = []
  collect_chains fcs w (fc ∷ rest) = collect_fixes fcs w fc.fixes ++ collect_chains fcs w rest

  unfoldable pub collect_text : World → Option (List (Chain Symbol)) → List RawReloc
  unfolding collect_chains
  collect_text w none = []
  collect_text w (some fcs) = collect_chains fcs w fcs

  unfoldable pub collect_relocs : Session Symbol World → List RawReloc
  unfolding collect_text
  collect_relocs s = collect_text s.world s.text
