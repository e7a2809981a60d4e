-- ===== src/CAbi/Balance.antt =====
-- What the conversions allocate, and that the clean-up and the free functions give it back.
-- No block has a number that was not given yet.
use nyxstone_tricore_gcc.Base.{
  ℕ, suc, ◌≤◌, ◌<◌, ◌≡◌, refl, sym, ap, ◌∙◌, inl, inr, Bool, true, false, ◌||◌, Option, none, some,
  List, [], ◌∷◌, arith, ◌==◌, if◌then◌else◌, ==_iff, Bool-cases, take,
}
use nyxstone_tricore_gcc.CAbi.Store.{
  Element, instruction_element, reloc_element, Block, array, Store, added, malloc, write,
  free_element, free_elements, free_array,
}

abbrev pub IsValid : Store → Type 0
IsValid s = (q : ℕ) → s.calls ≤ q → s.live q ≡ none

abbrev pub points : Option ℕ → ℕ → Bool
points none q = false
points (some p) q = q == p

abbrev pub owns : Element → ℕ → Bool
owns (instruction_element a assembly bytes n) q = points assembly q || points bytes q
owns (reloc_element o a h t name n) q = points name q

abbrev pub owns_any : List Element → ℕ → Bool
owns_any [] q = false
owns_any (e ∷ l) q = owns e q || owns_any l q

-- The numbers in `own` were given between the two stores; all other blocks are as they were.
pub record Extends (own : ℕ → Bool) (s s' : Store) : Type 0 where
  pub grown : s.calls ≤ s'.calls
  pub fresh : (q : ℕ) → own q ≡ true → (s.calls ≤ q) × (q < s'.calls)
  pub rest : (q : ℕ) → own q ≡ false → s'.live q ≡ s.live q

pub Extends-IsValid : {own : ℕ → Bool} {s s' : Store} → IsValid s → Extends own s s' → IsValid s'
Extends-IsValid {own} v e q h = elim (Bool-cases (own q)) [
  | inl o ↦ let f = e.fresh q o in absurd (omega arith)
  | inr n ↦ e.rest q n ∙ v q (omega (arith, e.grown))
]

pub Extends-then :
    {a b : ℕ → Bool} {s s' s'' : Store}
    → Extends a s s'
    → Extends b s' s''
    → Extends (λ q. a q || b q) s s''
Extends-then {a} {b} x y = record {
  grown = omega (arith, x.grown, y.grown);
  fresh = λ q h. elim (Bool-cases (a q)) [
    | inl o ↦ let f = x.fresh q o in omega (arith, y.grown)
    | inr n ↦ let f = y.fresh q (ground arith) in omega (arith, x.grown)
  ];
  rest = λ q h. y.rest q (ground arith) ∙ x.rest q (ground arith);
}

pub malloc-Extends :
    (fails : ℕ → Bool) (b : Block) (s : Store)
    → Extends (points (malloc fails b s).0) s (malloc fails b s).1
unfolding malloc
malloc-Extends fails b s = elim (Bool-cases (fails s.calls)) [
  | inl f ↦ rw f (record { grown = omega arith; fresh = λ q h. cc; rest = λ q h. refl })
  | inr f ↦ rw f (record {
    grown = omega arith;
    fresh = λ q h. let e = (==_iff q s.calls).0 h in omega arith;
    rest = λ q h. rw h refl;
  })
]

pub malloc-live :
    (fails : ℕ → Bool) (b : Block) (s : Store) {p : ℕ} {t : Store}
    → malloc fails b s ≡ (some p, t)
    → t.live p ≡ some b
unfolding malloc
malloc-live fails b s {p} {t} h = elim (Bool-cases (fails s.calls)) [
  | inl f ↦
      let e : (none, record s { calls = suc s.calls }) ≡ (some p, t) = rw f at h in
      cc (ap (λ r. r.0) e)
  | inr f ↦
      let e : (some s.calls, added b s) ≡ (some p, t) = rw f at h in
      let same : s.calls ≡ p = cc (ap (λ r. r.0) e) in
      ap (λ r. r.1.live p) (sym e) ∙ rw same (rw ((==_iff p p).1 refl) refl)
]

live-free_element :
    (e : Element) (s : Store) (q : ℕ)
    → (free_element e s).live q ≡ (if owns e q then none else s.live q)
unfolding free_element
live-free_element (instruction_element a none none n) s q = refl
live-free_element (instruction_element a (some x) none n) s q = ground arith
live-free_element (instruction_element a none (some y) n) s q = ground arith
live-free_element (instruction_element a (some x) (some y) n) s q = ground arith
live-free_element (reloc_element o a h t none n) s q = refl
live-free_element (reloc_element o a h t (some x) n) s q = ground arith

live-free_elements :
    (l : List Element) (s : Store) (q : ℕ)
    → (free_elements l s).live q ≡ (if owns_any l q then none else s.live q)
unfolding free_elements
live-free_elements [] s q = refl
live-free_elements (e ∷ l) s q =
    ground (arith, live-free_elements l (free_element e s) q, live-free_element e s q)

calls-free_element : (e : Element) (s : Store) → (free_element e s).calls ≡ s.calls
unfolding free_element
calls-free_element (instruction_element a none none n) s = refl
calls-free_element (instruction_element a (some x) none n) s = refl
calls-free_element (instruction_element a none (some y) n) s = refl
calls-free_element (instruction_element a (some x) (some y) n) s = refl
calls-free_element (reloc_element o a h t none n) s = refl
calls-free_element (reloc_element o a h t (some x) n) s = refl

calls-free_elements : (l : List Element) (s : Store) → (free_elements l s).calls ≡ s.calls
unfolding free_elements
calls-free_elements [] s = refl
calls-free_elements (e ∷ l) s = calls-free_elements l (free_element e s) ∙ calls-free_element e s

pub Extends-own :
    {a b : ℕ → Bool} {s s' : Store} → ((q : ℕ) → a q ≡ b q) → Extends a s s' → Extends b s s'
Extends-own e x = record {
  grown = x.grown;
  fresh = λ q h. x.fresh q (e q ∙ h);
  rest = λ q h. x.rest q (e q ∙ h);
}

pub write-Extends :
    {own : ℕ → Bool} {s s' : Store} (p : ℕ) (b : Block)
    → own p ≡ true
    → Extends own s s'
    → Extends own s (write p b s')
unfolding write
write-Extends {own} p b o x = record {
  grown = x.grown;
  fresh = x.fresh;
  rest = λ q h.
      let other : (q == p) ≡ false = elim (Bool-cases (q == p)) [
        | inl e ↦ let same : q ≡ p = (==_iff q p).0 e in cc (o, h, ap own same)
        | inr n ↦ n
      ] in
      rw other (x.rest q h);
}

-- Freeing an array and what its elements own leaves the earlier blocks.
pub free_array-Extends :
    {s s' : Store} (p n : ℕ) (l more : List Element)
    → IsValid s
    → s'.live p ≡ some (array more)
    → take n more ≡ l
    → Extends (λ q. q == p || owns_any l q) s s'
    → Extends (λ q. false) s (free_array (some p) n s')
unfolding free_array
free_array-Extends {s} {s'} p n l more v r t x =
    rw (r, t)
      (record {
        grown = omega (arith, x.grown, calls-free_elements l s');
        fresh = λ q h. cc;
        rest = λ q h. given q;
      })
  where
    given : (q : ℕ) → (if q == p then none else (free_elements l s').live q) ≡ s.live q
    given q = elim (Bool-cases (q == p || owns_any l q)) [
      | inl o ↦ let gone = v q (x.fresh q o).0 in ground (arith, live-free_elements l s' q)
      | inr o ↦ let kept = x.rest q o in ground (arith, live-free_elements l s' q)
    ]
