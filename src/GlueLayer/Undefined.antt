-- ===== src/GlueLayer/Undefined.antt =====
-- The undefined symbols that fixups refer to, described apart from the code that lists relocations
-- (src/glue.c, `nyx_collect_relocs`).
use nyxstone_tricore_gcc.Base.{
  ◌≡◌, refl, sym, ap, ◌∙◌, inl, inr, Bool, true, false, Option, none, some, List, [], ◌∷◌, ◌++◌,
  map, append_assoc, if◌then◌else◌, Bool-cases, Bytes,
}
use nyxstone_tricore_gcc.Gas.{Fix, Chain, Session, Gas}
use nyxstone_tricore_gcc.Glue.{RawReloc}
use nyxstone_tricore_gcc.Assemble.{text_or_empty}
use nyxstone_tricore_gcc.GlueLayer.Resolve.{
  reloc_of, collect_fix, collect_fixes, collect_chains, collect_text, collect_relocs,
}
use nyxstone_tricore_gcc.GlueLayer.Fixups.Kept.{all_fixes}

map-both : {A B : Type 0} (f : A → B) (xs ys : List A) → map f (xs ++ ys) ≡ map f xs ++ map f ys
map-both f [] ys = refl
map-both f (x ∷ xs) ys = ap (λ r. f x ∷ r) (map-both f xs ys)

module _ (g : Gas) where
  open g use {Symbol, World}

  abbrev fixes_of : Option (List (Chain Symbol)) → List (Fix Symbol)
  fixes_of none = []
  fixes_of (some fcs) = all_fixes fcs

  -- A fixup refers to the symbol if it is not done, and the symbol is not defined.
  abbrev referred : World → Bool → Option Symbol → List Symbol
  referred w true o = []
  referred w false none = []
  referred w false (some s) = if g.is_defined w s then [] else s ∷ []

  -- The undefined symbols that the fixups refer to, in order, each as often as it is referred to.
  abbrev pub left_symbols : World → List (Fix Symbol) → List Symbol
  left_symbols w [] = []
  left_symbols w (fx ∷ fxs) = referred w fx.done fx.addsy ++ left_symbols w fxs

  -- Those of a session.
  abbrev pub still_undefined : Session Symbol World → List Symbol
  still_undefined s = left_symbols s.world (fixes_of s.text)

  left_symbols-append :
      (w : World) (xs ys : List (Fix Symbol))
      → left_symbols w (xs ++ ys) ≡ left_symbols w xs ++ left_symbols w ys
  left_symbols-append w [] ys = refl
  left_symbols-append w (x ∷ xs) ys =
      ap (λ r. referred w x.done x.addsy ++ r) (left_symbols-append w xs ys)
      ∙ sym (append_assoc (referred w x.done x.addsy) (left_symbols w xs) (left_symbols w ys))

  abbrev pub names : List RawReloc → List Bytes
  names rs = map (λ r. text_or_empty r.symbol_name) rs

  module _ (w : World) (fcs : List (Chain Symbol)) where
    collect_fix-names :
        (fx : Fix Symbol) (o : Option Symbol) (rest : List RawReloc)
        → names (collect_fix g fcs w fx o rest)
          ≡ map g.symbol_name (referred w fx.done o) ++ names rest
    unfolding collect_fix reloc_of
    collect_fix-names fx none rest = elim (Bool-cases fx.done) [
      | inl e ↦ rw e refl
      | inr e ↦ rw e refl
    ]
    collect_fix-names fx (some s) rest = elim (Bool-cases fx.done) [
      | inl e ↦ rw e refl
      | inr e ↦ elim (Bool-cases (g.is_defined w s)) [
        | inl d ↦ rw (e, d) refl
        | inr d ↦ rw (e, d) refl
      ]
    ]

    collect_fixes-names :
        (fxs : List (Fix Symbol))
        → names (collect_fixes g fcs w fxs) ≡ map g.symbol_name (left_symbols w fxs)
    unfolding collect_fixes
    collect_fixes-names [] = refl
    collect_fixes-names (fx ∷ fxs) =
        collect_fix-names fx fx.addsy (collect_fixes g fcs w fxs)
        ∙ ap (λ r. map g.symbol_name (referred w fx.done fx.addsy) ++ r) (collect_fixes-names fxs)
        ∙ sym (map-both g.symbol_name (referred w fx.done fx.addsy) (left_symbols w fxs))

    collect_chains-names :
        (rest : List (Chain Symbol))
        → names (collect_chains g fcs w rest) ≡ map g.symbol_name (left_symbols w (all_fixes rest))
    unfolding collect_chains
    collect_chains-names [] = refl
    collect_chains-names (fc ∷ rest) =
        map-both (λ (r : RawReloc). text_or_empty r.symbol_name) (collect_fixes g fcs w fc.fixes)
          (collect_chains g fcs w rest)
        ∙ (λ i. collect_fixes-names fc.fixes i ++ collect_chains-names rest i)
        ∙ sym (
            ap (map g.symbol_name) (left_symbols-append w fc.fixes (all_fixes rest))
            ∙ map-both g.symbol_name (left_symbols w fc.fixes) (left_symbols w (all_fixes rest)))

  -- The relocations of a session are for these symbols, in this order.
  pub collect_relocs-names :
      (s : Session Symbol World)
      → names (collect_relocs g s) ≡ map g.symbol_name (still_undefined s)
  unfolding collect_relocs collect_text
  collect_relocs-names s = named s.world s.text
    where
      named :
          (w : World) (o : Option (List (Chain Symbol)))
          → names (collect_text g w o) ≡ map g.symbol_name (left_symbols w (fixes_of o))
      named w none = refl
      named w (some fcs) = collect_chains-names w fcs fcs
