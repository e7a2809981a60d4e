-- ===== src/GlueLayer/Complete.antt =====
-- The driver over the glue layer.
use nyxstone_tricore_gcc.Base.{
  ℕ, suc, ◌≡◌, refl, sym, ap, ◌∙◌, Bool, true, false, Option, none, some, List, [], ◌∷◌, ◌++◌, map,
  if◌then◌else◌, length, Bytes,
}
use nyxstone_tricore_gcc.Gas.{Fix, Chain, Gas}
use nyxstone_tricore_gcc.Glue.{RawReloc}
use nyxstone_tricore_gcc.Expected.{value}
use nyxstone_tricore_gcc.Assemble.{
  LabelDefinition, RelocationInfo, AssembleCore, text_or_empty, relocation_info, do_assemble,
}
use nyxstone_tricore_gcc.Assemble.Checks.{after_parse, at_end, do_assemble-Succeeds}
use nyxstone_tricore_gcc.GlueLayer.Sections.{layout, finalize_align_org}
use nyxstone_tricore_gcc.GlueLayer.Relax.{relax_branches}
use nyxstone_tricore_gcc.GlueLayer.Forward.{flush, stop_capture, glue_layer}
use nyxstone_tricore_gcc.GlueLayer.Resolve.{
  Layer, org_errors, place_text, resolve_relaxed, convert_relaxed, resolve_text_fixups, collect_fix,
  collect_fixes, collect_chains, collect_text, collect_relocs,
}
use nyxstone_tricore_gcc.GlueLayer.Resolve.Left.{KeepsSymbols}
use nyxstone_tricore_gcc.GlueLayer.Resolve.Count.{apply_text_fixups-collect_relocs}
use nyxstone_tricore_gcc.GlueLayer.Undefined.{still_undefined, names, collect_relocs-names}

length-map : {A B : Type 0} (f : A → B) (xs : List A) → length (map f xs) ≡ length xs
length-map f [] = refl
length-map f (x ∷ xs) = ap suc (length-map f xs)

relocation_info-names :
    (address : ℕ) (labels : List LabelDefinition) (rs : List RawReloc)
    → map (λ (r : RelocationInfo). r.symbol.name) (map (relocation_info address labels) rs)
      ≡ map (λ (r : RawReloc). text_or_empty r.symbol_name) rs
unfolding relocation_info
relocation_info-names address labels [] = refl
relocation_info-names address labels (r ∷ rs) =
    ap (λ k. text_or_empty r.symbol_name ∷ k) (relocation_info-names address labels rs)

no_items : {A : Type 0} (xs : List A) → length xs ≡ 0 → xs ≡ []
no_items [] h = refl
no_items (x ∷ xs) h = cc

module _ (g : Gas) (k : KeepsSymbols g) where
  open g use {Symbol, World}

  module _ (w w' : World) (same : (s : Symbol) → g.is_defined w' s ≡ g.is_defined w s)
      (fcs : List (Chain Symbol)) where
    collect_fix-same :
        (fx : Fix Symbol) (o : Option Symbol) (rest : List RawReloc)
        → collect_fix g fcs w' fx o rest ≡ collect_fix g fcs w fx o rest
    unfolding collect_fix
    collect_fix-same fx none rest = refl
    collect_fix-same fx (some s) rest = rw (same s) refl

    collect_fixes-same :
        (fxs : List (Fix Symbol)) → collect_fixes g fcs w' fxs ≡ collect_fixes g fcs w fxs
    unfolding collect_fixes
    collect_fixes-same [] = refl
    collect_fixes-same (fx ∷ fxs) =
        collect_fix-same fx fx.addsy (collect_fixes g fcs w' fxs)
        ∙ ap (collect_fix g fcs w fx fx.addsy) (collect_fixes-same fxs)

    collect_chains-same :
        (rest : List (Chain Symbol)) → collect_chains g fcs w' rest ≡ collect_chains g fcs w rest
    unfolding collect_chains
    collect_chains-same [] = refl
    collect_chains-same (fc ∷ rest) =
        λ i. collect_fixes-same fc.fixes i ++ collect_chains-same rest i

  -- Reading the log changes no relocation.
  collect_text-same :
      (w w' : World) (o : Option (List (Chain Symbol)))
      → ((s : Symbol) → g.is_defined w' s ≡ g.is_defined w s)
      → collect_text g w' o ≡ collect_text g w o
  unfolding collect_text
  collect_text-same w w' none same = refl
  collect_text-same w w' (some fcs) same = collect_chains-same w w' same fcs fcs

  abbrev Counts : ℕ × Layer Symbol World → Type 0
  Counts (n, l) = n ≡ length (collect_relocs g l.session)

  resolve_relaxed-Counts :
      (base : ℕ) (o : Option (List (Chain Symbol))) (w : World) (l : Layer Symbol World)
      → Counts (resolve_relaxed g base o w l)
  unfolding resolve_relaxed place_text collect_relocs collect_text
  resolve_relaxed-Counts base none w l = refl
  resolve_relaxed-Counts base (some fcs) w l =
      let (fcs', errors) = finalize_align_org (g.symbol_value fcs w) 0 fcs in
      apply_text_fixups-collect_relocs g k base (layout 0 fcs') (org_errors g errors w)

  resolve_text_fixups-Counts :
      (base : ℕ) (l : Layer Symbol World) → Counts (resolve_text_fixups g base l)
  unfolding resolve_text_fixups
  resolve_text_fixups-Counts base l =
      let s = convert_relaxed g (relax_branches g l.session) in
      resolve_relaxed-Counts base s.text s.world l

  stop_capture-relocs :
      (l : Layer Symbol World)
      → collect_relocs g (stop_capture g l).1.session ≡ collect_relocs g l.session
  unfolding stop_capture flush collect_relocs
  stop_capture-relocs l =
      collect_text-same l.session.world (g.printed l.session.world).1 l.session.text
        (k.print_keeps l.session.world)

  -- The names are reported whole if there are none whenever they are not reported.
  all_named :
      (address : ℕ) (labels : List LabelDefinition) (b : Bool) (rs : List RawReloc)
      (ys : List RelocationInfo) (left : List Symbol) {n : ℕ}
      → ys ≡ (if b then map (relocation_info address labels) rs else [])
      → (b ≡ false → n ≡ 0)
      → n ≡ length rs
      → names g rs ≡ map g.symbol_name left
      → (map (λ (r : RelocationInfo). r.symbol.name) ys ≡ map g.symbol_name left)
        × (b ≡ false → left ≡ [])
  all_named address labels true rs ys left e z h named = (
    ap (map (λ (r : RelocationInfo). r.symbol.name)) e
        ∙ relocation_info-names address labels rs
        ∙ named,
    λ p. cc,
  )
  all_named address labels false rs ys left e z h named =
      let empty : left ≡ [] = no_items left (
        sym (length-map g.symbol_name left)
        ∙ sym (ap length named)
        ∙ length-map (λ (r : RawReloc). text_or_empty r.symbol_name) rs
        ∙ sym h
        ∙ z refl) in
      (
        ap (map (λ (r : RelocationInfo). r.symbol.name)) e ∙ sym (ap (map g.symbol_name) empty),
        λ p. empty,
      )

module _ (g : Gas) (source : Bytes) (address : ℕ) (labels : List LabelDefinition)
    (with_relocs : Bool) (s : (glue_layer g).State) where
  -- The layer that a call without an error leaves.
  unfoldable pub ended_layer : Layer g.Symbol g.World
  unfolding glue_layer
  ended_layer = at_end (glue_layer g) source address labels with_relocs s

-- Over a gas that keeps symbols (GlueLayer/Resolve/Left), no reference is lost: if a call of
-- `do_assemble` returns a value, then its relocations bear, in order, the names of the undefined
-- symbols that the fixups in its final state refer to, one for each fixup of any chain of the
-- section that is not done; without relocations there is no such symbol.
pub do_assemble-NothingLost :
    (g : Gas) (k : KeepsSymbols g) (source : Bytes) (address : ℕ) (labels : List LabelDefinition)
    (with_relocs : Bool) (s : (glue_layer g).State) (c : AssembleCore)
    → (do_assemble (glue_layer g) source address labels with_relocs s).0 ≡ value c
    → let left = still_undefined g (ended_layer g source address labels with_relocs s).session in
      (map (λ (r : RelocationInfo). r.symbol.name) c.relocations ≡ map g.symbol_name left)
      × (with_relocs ≡ false → left ≡ [])
unfolding glue_layer ended_layer
do_assemble-NothingLost g k source address labels with_relocs s c h =
    let facts = (do_assemble-Succeeds (glue_layer g) source address labels with_relocs s c).0 h in
    let start = after_parse (glue_layer g) source address labels with_relocs s in
    let counts = resolve_text_fixups-Counts g k address start in
    let listed = ap length (stop_capture-relocs g k (resolve_text_fixups g address start).1) in
    let last = ended_layer g source address labels with_relocs s in
    all_named g k address labels with_relocs (collect_relocs g last.session) c.relocations
      (still_undefined g last.session) facts.relocations_are facts.all_resolved
      (counts ∙ sym listed) (collect_relocs-names g last.session)
