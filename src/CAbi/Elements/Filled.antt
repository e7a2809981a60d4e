-- ===== src/CAbi/Elements/Filled.antt =====
-- What an element that is filled in holds.
use nyxstone_tricore_gcc.Base.{
  ℕ, ◌≡◌, refl, sym, ap, subst, ◌∙◌, ◌⊎◌, inl, inr, Bool, true, false, Option, none, some, [], ◌∷◌,
  ◌++◌, arith, ==_iff, Bool-cases, length, is_empty, Bytes,
}
use nyxstone_tricore_gcc.Disassemble.{Instruction}
use nyxstone_tricore_gcc.CAbi.Store.{
  Element, instruction_element, reloc_element, chars, Store, malloc,
}
use nyxstone_tricore_gcc.CAbi.Convert.{
  dup_string, Filled, complete, fill_bytes, fill_rest, fill_instruction,
}
use nyxstone_tricore_gcc.CAbi.Balance.{points, owns, Extends, malloc-Extends, malloc-live}

-- A text in a block of its own, with its NUL.
abbrev pub HoldsText : Bytes → Option ℕ → Store → Type 0
HoldsText text p s = (q : ℕ) × (p ≡ some q) × (s.live q ≡ some (chars (text ++ 0 ∷ [])))

-- Bytes in a block of their own, with their count, or NULL and 0 if there are none.
abbrev HoldsData : Bytes → Option ℕ → ℕ → Store → Type 0
HoldsData bytes p n s =
    (n ≡ length bytes)
    × (((bytes ≡ []) × (p ≡ none)) ⊎ ((q : ℕ) × (p ≡ some q) × (s.live q ≡ some (chars bytes))))

-- The element is the instruction, with the memory that it points to.
abbrev pub HoldsInstruction : Instruction → Element → Store → Type 0
HoldsInstruction i (instruction_element address assembly bytes n) s =
    (address ≡ i.address) × HoldsText i.assembly assembly s × HoldsData i.bytes bytes n s
HoldsInstruction i (reloc_element o a h t name n) s = ⊥

-- The blocks that the element owns are the same in both stores.
abbrev pub SameOwned : Element → Store → Store → Type 0
SameOwned e s t = (q : ℕ) → owns e q ≡ true → t.live q ≡ s.live q

pub HoldsInstruction-same :
    (i : Instruction) (e : Element) (s t : Store)
    → SameOwned e s t
    → HoldsInstruction i e s
    → HoldsInstruction i e t
HoldsInstruction-same i (instruction_element a assembly bytes n) s t same
      (at, (p, e, there), (size, inl h)) =
    (at, (p, e, same p (ground arith) ∙ there), (size, inl h))
HoldsInstruction-same i (instruction_element a assembly bytes n) s t same
      (at, (p, e, there), (size, inr (q, f, here))) =
    (at, (p, e, same p (ground arith) ∙ there), (size, inr (q, f, same q (ground arith) ∙ here)))
HoldsInstruction-same i (reloc_element o a h k name n) s t same held = absurd held

module _ (fails : ℕ → Bool) where
  fill_bytes-Holds :
      (i : Instruction) (p : ℕ) (r : Option ℕ × Store) (e : Element) (t : Store)
      → fill_bytes fails i (some p) r ≡ (complete e, t)
      → ((q : ℕ) → r.0 ≡ some q → r.1.live q ≡ some (chars i.bytes))
      → r.1.live p ≡ some (chars (i.assembly ++ 0 ∷ []))
      → HoldsInstruction i e t
  fill_bytes-Holds i p (none, s) e t h content text = cc (ap (λ r. r.0) h)
  fill_bytes-Holds i p (some q, s) e t h content text =
      let made : complete (instruction_element i.address (some p) (some q) (length i.bytes))
          ≡ complete e =
        ap (λ r. r.0) h in
      let element : instruction_element i.address (some p) (some q) (length i.bytes) ≡ e =
        cc made in
      let store : s ≡ t = ap (λ r. r.1) h in
      subst (λ (x : Element). HoldsInstruction i x t) element
        (subst
          (λ (u : Store).
            HoldsInstruction i (instruction_element i.address (some p) (some q) (length i.bytes)) u)
          store (refl, (p, refl, text), (refl, inr (q, refl, content q refl))))

  fill_rest-Holds :
      (i : Instruction) (s : Store) (r : Option ℕ × Store) (e : Element) (t : Store)
      → Extends (points r.0) s r.1
      → ((q : ℕ) → r.0 ≡ some q → r.1.live q ≡ some (chars (i.assembly ++ 0 ∷ [])))
      → fill_rest fails i r ≡ (complete e, t)
      → HoldsInstruction i e t
  fill_rest-Holds i s (none, u) e t x text h = cc (ap (λ r. r.0) h)
  fill_rest-Holds i s (some p, u) e t x text h = elim (Bool-cases (is_empty i.bytes)) [
    | inl b ↦
        let made : ◌≡◌ {A = Filled fails × Store}
            (complete (instruction_element i.address (some p) none 0), u) (complete e, t) =
          rw b at h in
        without_bytes made (none_left i.bytes b)
    | inr b ↦
        let bytes = malloc fails (chars i.bytes) u in
        let y = malloc-Extends fails (chars i.bytes) u in
        let made : fill_bytes fails i (some p) bytes ≡ (complete e, t) = rw b at h in
        let (given_before, below) = x.fresh p ((==_iff p p).1 refl) in
        let other : points bytes.0 p ≡ false = elim (Bool-cases (points bytes.0 p)) [
          | inl o ↦ let late = y.fresh p o in absurd (omega arith)
          | inr n ↦ n
        ] in
        fill_bytes-Holds i p bytes e t made
          (λ q e'. malloc-live fails (chars i.bytes) u (λ k. (e' k, bytes.1)))
          (y.rest p other ∙ text p refl)
  ]
    where
      none_left : (bs : Bytes) → is_empty bs ≡ true → bs ≡ []
      none_left [] h' = refl
      none_left (c ∷ bs) h' = cc

      without_bytes :
          ◌≡◌ {A = Filled fails × Store}
            (complete (instruction_element i.address (some p) none 0), u)
            (complete e, t)
          → i.bytes ≡ []
          → HoldsInstruction i e t
      without_bytes made empty =
          let made' : complete (instruction_element i.address (some p) none 0) ≡ complete e =
            ap (λ r. r.0) made in
          let element : instruction_element i.address (some p) none 0 ≡ e = cc made' in
          let store : u ≡ t = ap (λ r. r.1) made in
          subst (λ (k : Element). HoldsInstruction i k t) element
            (subst
              (λ (v : Store). HoldsInstruction i (instruction_element i.address (some p) none 0) v)
              store (refl, (p, refl, text p refl), (sym (ap length empty), inl (empty, refl))))

  pub fill_instruction-Holds :
      (i : Instruction) (s : Store) (e : Element) (t : Store)
      → fill_instruction fails i s ≡ (complete e, t)
      → HoldsInstruction i e t
  unfolding fill_instruction dup_string
  fill_instruction-Holds i s e t h =
      let block = chars (i.assembly ++ 0 ∷ []) in
      let r = malloc fails block s in
      fill_rest-Holds i s r e t (malloc-Extends fails block s)
        (λ q e'. malloc-live fails block s (λ k. (e' k, r.1))) h
