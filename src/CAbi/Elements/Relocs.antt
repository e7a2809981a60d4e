-- ===== src/CAbi/Elements/Relocs.antt =====
-- What a relocation element that is filled in holds.
-- The addend, or 0 and no flag if there is none.
use nyxstone_tricore_gcc.Base.{
  ℕ, ◌≡◌, refl, ap, subst, ◌∙◌, Bool, true, false, Option, none, some, [], ◌∷◌, ◌++◌, arith, ℤ, pos,
}
use nyxstone_tricore_gcc.Assemble.{RelocationInfo}
use nyxstone_tricore_gcc.CAbi.Store.{
  Element, instruction_element, reloc_element, chars, Store, malloc,
}
use nyxstone_tricore_gcc.CAbi.Convert.{
  dup_string, complete, addend_or_zero, has_addend, fill_name, fill_reloc,
}
use nyxstone_tricore_gcc.CAbi.Balance.{malloc-live}
use nyxstone_tricore_gcc.CAbi.Elements.Filled.{HoldsText, SameOwned}

abbrev HoldsAddend : Option ℤ → ℤ → Bool → Type 0
HoldsAddend none a flag = (a ≡ pos 0) × (flag ≡ false)
HoldsAddend (some x) a flag = (a ≡ x) × (flag ≡ true)

-- The element is the relocation, with the block of the symbol's name.
abbrev pub HoldsReloc : RelocationInfo → Element → Store → Type 0
HoldsReloc r (instruction_element a assembly bytes n) s = ⊥
HoldsReloc r (reloc_element offset a flag type name address) s =
    (offset ≡ r.offset)
    × HoldsAddend r.addend a flag
    × (type ≡ r.relocation_type)
    × HoldsText r.symbol.name name s
    × (address ≡ r.symbol.address)

pub HoldsReloc-same :
    (r : RelocationInfo) (e : Element) (s t : Store)
    → SameOwned e s t
    → HoldsReloc r e s
    → HoldsReloc r e t
HoldsReloc-same r (instruction_element a assembly bytes n) s t same held = absurd held
HoldsReloc-same r (reloc_element o a h k name n) s t same (at, add, type, (p, e, there), hint) =
    (at, add, type, (p, e, same p (ground arith) ∙ there), hint)

module _ (fails : ℕ → Bool) where
  addend_held : (o : Option ℤ) → HoldsAddend o (addend_or_zero fails o) (has_addend fails o)
  addend_held none = (refl, refl)
  addend_held (some a) = (refl, refl)

  fill_name-Holds :
      (r : RelocationInfo) (p : Option ℕ) (u : Store) (e : Element) (t : Store)
      → ((q : ℕ) → p ≡ some q → u.live q ≡ some (chars (r.symbol.name ++ 0 ∷ [])))
      → fill_name fails r (p, u) ≡ (complete e, t)
      → HoldsReloc r e t
  fill_name-Holds r none u e t text h = cc (ap (λ k. k.0) h)
  fill_name-Holds r (some p) u e t text h =
      let made : complete (
            reloc_element r.offset (addend_or_zero fails r.addend) (has_addend fails r.addend)
              r.relocation_type (some p) r.symbol.address)
          ≡ complete e =
        ap (λ k. k.0) h in
      let element : reloc_element r.offset (addend_or_zero fails r.addend)
            (has_addend fails r.addend) r.relocation_type (some p) r.symbol.address
          ≡ e =
        cc made in
      let store : u ≡ t = ap (λ k. k.1) h in
      subst (λ (x : Element). HoldsReloc r x t) element
        (subst
          (λ (v : Store).
            HoldsReloc r
              (reloc_element r.offset (addend_or_zero fails r.addend) (has_addend fails r.addend)
                r.relocation_type (some p) r.symbol.address)
              v)
          store (refl, addend_held r.addend, refl, (p, refl, text p refl), refl))

  pub fill_reloc-Holds :
      (r : RelocationInfo) (s : Store) (e : Element) (t : Store)
      → fill_reloc fails r s ≡ (complete e, t)
      → HoldsReloc r e t
  unfolding fill_reloc dup_string
  fill_reloc-Holds r s e t h =
      let block = chars (r.symbol.name ++ 0 ∷ []) in
      let m = malloc fails block s in
      fill_name-Holds r m.0 m.1 e t (λ q e'. malloc-live fails block s (λ k. (e' k, m.1))) h
