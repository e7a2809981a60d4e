-- ===== src/Tests/Sections.antt =====
-- The passes over the frags at concrete inputs.
use nyxstone_tricore_gcc.Base.{
  ℕ, suc, ◌*◌, ◌%◌, ◌^◌, ◌≤◌, ◌<◌, ◌≡◌, refl, sym, ap, subst, ◌⊎◌, inl, none, some, List, [], ◌∷◌,
  arith, length, drop, All, pos,
}
use nyxstone_tricore_gcc.Gas.{rs_align, rs_org, Frag, Chain}
use nyxstone_tricore_gcc.GlueLayer.Sections.{
  all_frags, frag_fix_size, layout, org_target, finalize_align_org, extract_text_bytes,
}
use nyxstone_tricore_gcc.GlueLayer.Sections.Finalize.{
  Aligns, Pads, end_of, errors_of, finalize_frags-Pads, finalize_frags-Org,
}
use nyxstone_tricore_gcc.GlueLayer.Sections.Layout.{finalize_align_org-layout}
use nyxstone_tricore_gcc.GlueLayer.Sections.Extract.{contents, HasLiteral}
use nyxstone_tricore_gcc.GlueLayer.Sections.Image.{
  extract_text_bytes-contents, extract_text_bytes-layout,
}
use nyxstone_tricore_gcc.GlueLayer.Fixups.{restore}
use nyxstone_tricore_gcc.GlueLayer.Forward.{fresh_frag}
use nyxstone_tricore_gcc.Disassemble.{u64_add}
use nyxstone_tricore_gcc.GlueLayer.Fixups.Restore.{IsSettled, extract_text_bytes-restore}

-- A frag of three bytes, and an alignment to 8.
abbrev pub three : Frag ℕ
three = record (fresh_frag none) { fix = 3; literal = 1 ∷ 2 ∷ 3 ∷ [] }

abbrev eight : Frag ℕ
eight = record (fresh_frag none) { kind = rs_align; offset = pos 3; literal = 0 ∷ [] }

abbrev forward : Frag ℕ
forward = record (fresh_frag none) { kind = rs_org; offset = pos 16; literal = 0 ∷ [] }

abbrev four_each : ℕ → ℕ
four_each s = 4 * s

finalize_frags-Pads_example :
    let off = u64_add (end_of four_each 0 (three ∷ [])) (frag_fix_size eight) in
    let next = end_of four_each 0 (three ∷ eight ∷ []) in
    (pad : ℕ) × (next ≡ u64_add off pad) × Pads 0 3 off pad × (Aligns 3 off pad → next % 2 ^ 3 ≡ 0)
finalize_frags-Pads_example =
    finalize_frags-Pads four_each 0 (three ∷ []) eight (inl refl) (omega arith)

finalize_frags-Org_example :
    let off = u64_add (end_of four_each 0 (three ∷ [])) (frag_fix_size forward) in
    let next = end_of four_each 0 (three ∷ forward ∷ []) in
    let errors = errors_of four_each 0 (three ∷ forward ∷ []) in
    ((off ≤ org_target four_each forward)
      × (next ≡ org_target four_each forward)
      × (errors ≡ errors_of four_each 0 (three ∷ [])))
    ⊎ ((org_target four_each forward < off)
        × (next ≡ off)
        × (errors ≡ suc (errors_of four_each 0 (three ∷ []))))
finalize_frags-Org_example = finalize_frags-Org four_each 0 (three ∷ []) forward refl

abbrev aligned_chain : List (Chain ℕ)
aligned_chain = record { frags = three ∷ eight ∷ three ∷ []; fixes = [] } ∷ []

padded_image :
    extract_text_bytes (some (finalize_align_org four_each 0 aligned_chain).0)
    ≡ 1 ∷ 2 ∷ 3 ∷ 0 ∷ 0 ∷ 0 ∷ 0 ∷ 0 ∷ 1 ∷ 2 ∷ 3 ∷ []
unfolding extract_text_bytes finalize_align_org
padded_image = refl

finalize_align_org-layout_example :
    layout 0 (finalize_align_org four_each 0 aligned_chain).0
    ≡ (finalize_align_org four_each 0 aligned_chain).0
finalize_align_org-layout_example =
    finalize_align_org-layout four_each 0 aligned_chain ((tt, (omega arith, (tt, tt))), tt)

abbrev two_frags : List (Chain ℕ)
two_frags = record { frags = three ∷ three ∷ []; fixes = [] } ∷ []

three-HasLiteral : HasLiteral three
unfolding frag_fix_size
three-HasLiteral = (omega arith, omega arith)

extract_text_bytes-contents_example :
    extract_text_bytes (some two_frags) ≡ contents (all_frags two_frags)
extract_text_bytes-contents_example =
    extract_text_bytes-contents two_frags ((three-HasLiteral, (three-HasLiteral, tt)), tt)

abbrev second : Frag ℕ
second = record three { address = 3 }

two_laid_out : layout 0 two_frags ≡ record { frags = three ∷ second ∷ []; fixes = [] } ∷ []
unfolding layout
two_laid_out = refl

extract_text_bytes-layout_example :
    drop 3 (extract_text_bytes (some (layout 0 two_frags))) ≡ contents (second ∷ [])
unfolding frag_fix_size
extract_text_bytes-layout_example =
    extract_text_bytes-layout two_frags (three ∷ []) [] second (ap all_frags two_laid_out)
      (subst (λ fcs. All (λ (fc : Chain ℕ). All HasLiteral fc.frags) fcs) (sym two_laid_out)
        ((three-HasLiteral, (three-HasLiteral, tt)), tt))
      (subst (λ fcs. length (contents (all_frags {Symbol = ℕ} fcs)) < 2 ^ 64) (sym two_laid_out)
        (omega arith))

three-IsSettled : IsSettled three
unfolding frag_fix_size
three-IsSettled = ((omega arith, omega arith), refl)

extract_text_bytes-restore_example :
    extract_text_bytes (some (restore (7 ∷ 8 ∷ 9 ∷ 4 ∷ 5 ∷ 6 ∷ []) 0 two_frags))
    ≡ 7 ∷ 8 ∷ 9 ∷ 4 ∷ 5 ∷ 6 ∷ []
unfolding frag_fix_size
extract_text_bytes-restore_example =
    extract_text_bytes-restore two_frags (7 ∷ 8 ∷ 9 ∷ 4 ∷ 5 ∷ 6 ∷ [])
      (three-IsSettled, (three-IsSettled, tt))
      (7 ∷ 8 ∷ 9 ∷ [], 4 ∷ 5 ∷ 6 ∷ [], refl, refl, (4 ∷ 5 ∷ 6 ∷ [], [], refl, refl, refl))
      (omega arith)
