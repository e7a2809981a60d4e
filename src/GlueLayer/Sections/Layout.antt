-- ===== src/GlueLayer/Sections/Layout.antt =====
-- The pass `layout` behind `finalize_align_org`.
use nyxstone_tricore_gcc.GlueLayer.Sections.Padding.{align_pad-small}
use nyxstone_tricore_gcc.Base.{
  ℕ, ◌+◌, ◌-◌, ◌^◌, ◌≤◌, ◌<◌, ◌≡◌, refl, ap, ◌∙◌, Bool, false, List, [], ◌∷◌, arith, ltb,
  if◌then◌else◌, All,
}
use nyxstone_tricore_gcc.Gas.{
  FragType, unset_frag, rs_fill, rs_align, rs_align_code, rs_org, rs_machine_dependent, other_frag,
  Frag, Chain,
}
use nyxstone_tricore_gcc.Disassemble.{u64_add}
use nyxstone_tricore_gcc.GlueLayer.Encode.{signed64}
use nyxstone_tricore_gcc.GlueLayer.Sections.{
  count_of, align_pad, skipped, frag_fix_size, frag_fill_size, layout_frags, layout, padded,
  org_target, finalize_kind, finalize_frag, finalize_frags, finalize_align_org,
}
use native.Mathlib.Nat.{pow-le-pow_right}

pow_mono : (n i j : ℕ) → 0 < n → i ≤ j → n ^ i ≤ n ^ j
pow_mono n i j p h = pow-le-pow_right p h

module _ {Symbol : Type 0} (value : Symbol → ℕ) where
  -- What `frag_offset` of an alignment or an `.org` can be: the driver gives no others.
  abbrev IsModerateKind : FragType → Frag Symbol → Type 0
  IsModerateKind rs_align fr = count_of fr.offset < 64
  IsModerateKind rs_align_code fr = count_of fr.offset < 64
  IsModerateKind rs_org fr = org_target value fr < 2 ^ 63
  IsModerateKind _ fr = Unit

  abbrev pub IsModerate : Frag Symbol → Type 0
  IsModerate fr = IsModerateKind fr.kind fr

  -- `layout` would give the frag the same address and the same size.
  abbrev Stays : ℕ → Frag Symbol → Frag Symbol × ℕ × Bool → Type 0
  Stays addr fr (fr', pad, back) =
      (record fr' { address = addr } ≡ fr')
      × (frag_fix_size fr' + frag_fill_size fr' ≡ frag_fix_size fr + pad)

  padded-Stays :
      (addr pad : ℕ) (fr : Frag Symbol) (back : Bool)
      → pad < 2 ^ 63
      → Stays addr fr (padded pad (record fr { address = addr }), pad, back)
  unfolding padded frag_fix_size frag_fill_size signed64
  padded-Stays addr pad fr back h = (refl, ground arith)

  kept-Stays :
      (addr : ℕ) (fr : Frag Symbol)
      → Stays addr fr (record fr { address = addr }, frag_fill_size fr, false)
  unfolding frag_fix_size frag_fill_size
  kept-Stays addr fr = (refl, refl)

  skipped-small : (max pad : ℕ) → skipped max pad ≤ pad
  unfolding skipped
  skipped-small max pad = ground arith

  alignment-small : (max p off : ℕ) → p < 64 → skipped max (align_pad p off) < 2 ^ 63
  alignment-small max p off h =
      let low : 2 ^ p ≤ 2 ^ 63 = pow_mono 2 p 63 (omega arith) (omega arith) in
      omega (arith, skipped-small max (align_pad p off), align_pad-small p off)

  org-small :
      (addr off : ℕ) (fr : Frag Symbol)
      → org_target value fr < 2 ^ 63
      → (if ltb (org_target value (record fr { address = addr })) off
          then 0
          else org_target value (record fr { address = addr }) - off)
        < 2 ^ 63
  unfolding org_target
  org-small addr off fr h = ground arith

  finalize_kind-Stays :
      (k : FragType) (addr off : ℕ) (fr : Frag Symbol)
      → IsModerateKind k fr
      → Stays addr fr (finalize_kind value k off (record fr { address = addr }))
  unfolding finalize_kind
  finalize_kind-Stays rs_align addr off fr h =
      padded-Stays addr _ fr false (alignment-small fr.subtype _ _ h)
  finalize_kind-Stays rs_align_code addr off fr h =
      padded-Stays addr _ fr false (alignment-small fr.subtype _ _ h)
  finalize_kind-Stays rs_org addr off fr h =
      padded-Stays addr _ fr (ltb (org_target value (record fr { address = addr })) off)
        (org-small addr off fr h)
  finalize_kind-Stays unset_frag addr off fr h = kept-Stays addr fr
  finalize_kind-Stays rs_fill addr off fr h = kept-Stays addr fr
  finalize_kind-Stays rs_machine_dependent addr off fr h = kept-Stays addr fr
  finalize_kind-Stays other_frag addr off fr h = kept-Stays addr fr

  finalize_frag-Stays :
      (addr : ℕ) (fr : Frag Symbol) → IsModerate fr → Stays addr fr (finalize_frag value addr fr)
  unfolding finalize_frag
  finalize_frag-Stays addr fr h =
      finalize_kind-Stays fr.kind addr (u64_add addr (frag_fix_size fr)) fr h

  -- `layout` behind `finalize_align_org` changes nothing and finds the same end.
  finalize_frags-layout :
      (addr : ℕ) (frs : List (Frag Symbol))
      → All IsModerate frs
      → let (frs', end, errors) = finalize_frags value addr frs in
        layout_frags addr frs' ≡ (frs', end)
  unfolding finalize_frags layout_frags
  finalize_frags-layout addr [] h = refl
  finalize_frags-layout addr (fr ∷ frs) (h, hs) =
      let (same, size) = finalize_frag-Stays addr fr h in
      let next = u64_add addr (frag_fix_size fr + (finalize_frag value addr fr).1) in
      let more = (finalize_frags value next frs).0 in
      let here = (finalize_frag value addr fr).0 in
      let rest : layout_frags (u64_add addr (frag_fix_size here + frag_fill_size here)) more
          ≡ (more, (finalize_frags value next frs).1) =
        ap (λ (n : ℕ). layout_frags (u64_add addr n) more) size
        ∙ finalize_frags-layout next frs hs in
      λ i. (same i ∷ (rest i).0, (rest i).1)

  -- With alignments of at most 2 ^ 63 and `.org` targets below 2 ^ 63, `layout` behind
  -- `finalize_align_org` finds each frag at the address that it has already: the two passes agree
  -- on all sizes.
  pub finalize_align_org-layout :
      (addr : ℕ) (fcs : List (Chain Symbol))
      → All (λ fc. All IsModerate fc.frags) fcs
      → layout addr (finalize_align_org value addr fcs).0 ≡ (finalize_align_org value addr fcs).0
  unfolding finalize_align_org layout
  finalize_align_org-layout addr [] h = refl
  finalize_align_org-layout addr (fc ∷ fcs) (h, hs) =
      let frs = finalize_frags-layout addr fc.frags h in
      let rest = finalize_align_org-layout (finalize_frags value addr fc.frags).1 fcs hs in
      let done = (finalize_frags value addr fc.frags).0 in
      let more = (finalize_align_org value (finalize_frags value addr fc.frags).1 fcs).0 in
      let first =
        ap (λ (r : List (Frag Symbol) × ℕ). record fc { frags = r.0 } ∷ layout r.1 more) frs in
      first ∙ ap (λ (r : List (Chain Symbol)). record fc { frags = done } ∷ r) rest
