-- ===== src/CAbi/Elements/Loop.antt =====
-- What the array behind the loop of a conversion holds.
use nyxstone_tricore_gcc.Base.{
  ℕ, suc, ◌-◌, ◌<◌, ◌≡◌, refl, sym, ap, subst, ◌∙◌, inl, inr, Bool, false, Option, none, some, List,
  [], ◌∷◌, ◌++◌, append_assoc, arith, ◌==◌, ==_iff, Bool-cases, length, replicate,
}
use nyxstone_tricore_gcc.CAbi.Store.{Element, Block, array, Store, malloc, write, free_array}
use nyxstone_tricore_gcc.CAbi.Convert.{Filled, complete, broken, convert_loop, convert}
use nyxstone_tricore_gcc.CAbi.Balance.{points, owns, Extends, malloc-Extends, malloc-live}
use nyxstone_tricore_gcc.CAbi.Release.{filled_owns, Fills}
use nyxstone_tricore_gcc.CAbi.Elements.Filled.{SameOwned}

-- As many elements, one for each value, in order.
abbrev pub AllHeld :
    {A : Type 0} → (A → Element → Store → Type 0) → List A → List Element → Store → Type 0
AllHeld holds [] [] s = Unit
AllHeld holds [] (e ∷ l) s = ⊥
AllHeld holds (v ∷ vs) [] s = ⊥
AllHeld holds (v ∷ vs) (e ∷ l) s = holds v e s × AllHeld holds vs l s

module _ (fails : ℕ → Bool) where
  -- The loop over a list whose elements are filled in by `fill`, which says what they hold.
  module _ {A : Type 0} (fill : A → Store → Filled fails × Store) (cleared : Element)
      (holds : A → Element → Store → Type 0) (fills : Fills fails fill)
      (filled : (v : A) (s : Store) (e : Element) (t : Store)
        → fill v s ≡ (complete e, t)
        → holds v e t)
      (same_holds : (v : A) (e : Element) (s t : Store)
        → SameOwned e s t
        → holds v e s
        → holds v e t) where
    -- From `arr` on which `done` stands, the loop has put an element for each value behind `done`,
    -- and changed no earlier block but the array.
    abbrev Loops : ℕ → List Element → List A → Store → ℕ → Store → Type 0
    Loops arr done vs s p t =
        (l : List Element) × (p ≡ arr)
        × (t.live arr ≡ some (array (done ++ l)))
        × AllHeld holds vs l t
        × ((q : ℕ) → q < s.calls → (q == arr) ≡ false → t.live q ≡ s.live q)

    convert_loop-Loops :
        (arr : ℕ) (done : List Element) (vs : List A) (s : Store) (p : ℕ) (t : Store)
        → arr < s.calls
        → s.live arr ≡ some (array (done ++ replicate (length vs) cleared))
        → convert_loop fails fill cleared arr done vs s ≡ (some p, t)
        → Loops arr done vs s p t
    unfolding convert_loop write
    convert_loop-Loops arr done [] s p t small there h =
        let at : some arr ≡ some p = ap (λ r. r.0) h in
        let store : s ≡ t = ap (λ r. r.1) h in
        subst (λ (u : Store). Loops arr done [] s p u) store
          ([], sym (cc at), there, tt, λ q b o. refl)
    convert_loop-Loops arr done (v ∷ vs) s p t small there h =
        go (fill v s).0 (fill v s).1 (fills v s) refl h
          (λ e w. convert_loop-Loops arr (done ++ e ∷ []) vs w p t)
      where
        go :
            (f : Filled fails) (u : Store)
            → Extends (filled_owns fails f) s u
            → ◌≡◌ {A = Filled fails × Store} (fill v s) (f, u)
            → ◌≡◌ {A = Option ℕ × Store}
                (elim f [
                  | complete e ↦
                      convert_loop fails fill cleared arr
                        (done ++ e ∷ [])
                        vs
                        (write arr (array (done ++ e ∷ replicate (length vs) cleared)) u)
                  | broken l ↦ (
                    none,
                    free_array (some arr) (length (done ++ l)) (
                        write arr
                          (array ((done ++ l) ++ replicate (suc (length vs) - length l) cleared))
                          u),
                  )
                ])
                (some p, t)
            → ((e : Element) (w : Store)
                → arr < w.calls
                → w.live arr ≡ some (array ((done ++ e ∷ []) ++ replicate (length vs) cleared))
                → convert_loop fails fill cleared arr (done ++ e ∷ []) vs w ≡ (some p, t)
                → Loops arr (done ++ e ∷ []) vs w p t)
            → Loops arr done (v ∷ vs) s p t
        go (broken l) u x made h' ih = cc (ap (λ r. r.0) h')
        go (complete e) u x made h' ih =
            let w = write arr (array (done ++ e ∷ replicate (length vs) cleared)) u in
            let written : w.live arr
                ≡ some (array ((done ++ e ∷ []) ++ replicate (length vs) cleared)) =
              rw ((==_iff arr arr).1 refl) (
                ap (λ l. some (array l))
                  (sym (append_assoc done (e ∷ []) (replicate (length vs) cleared)))) in
            let (l, at, array_is, rest, kept) = ih e w (omega (arith, x.grown)) written h' in
            let owned : SameOwned e u t = λ q o.
              let (late, early) = x.fresh q o in
              let other : (q == arr) ≡ false = ground arith in kept q early other ∙ rw other refl in
            let earlier : (q : ℕ) → q < s.calls → (q == arr) ≡ false → t.live q ≡ s.live q =
              λ q b other.
                let free_of : owns e q ≡ false = elim (Bool-cases (owns e q)) [
                  | inl o ↦ let late = x.fresh q o in absurd (omega arith)
                  | inr n ↦ n
                ] in
                kept q (omega (arith, x.grown)) other ∙ rw other (x.rest q free_of) in
            (
              e ∷ l,
              at,
              array_is ∙ ap (λ m. some (array m)) (append_assoc done (e ∷ []) l),
              (same_holds v e u t owned (filled v s e u made), rest),
              earlier,
            )

    abbrev pub HoldsArray : ℕ → List A → Store → Type 0
    HoldsArray p vs t = (l : List Element) × (t.live p ≡ some (array l)) × AllHeld holds vs l t

    pub convert-HoldsArray :
        (vs : List A) (s : Store) (p : ℕ) (t : Store)
        → convert fails fill cleared vs s ≡ (some p, t)
        → HoldsArray p vs t
    unfolding convert
    convert-HoldsArray vs s p t h = go r.0 r.1 (malloc-Extends fails block s) refl h
      where
        block : Block
        block = array (replicate (length vs) cleared)

        r : Option ℕ × Store
        r = malloc fails block s

        go :
            (q : Option ℕ) (u : Store)
            → Extends (points q) s u
            → ◌≡◌ {A = Option ℕ × Store} r (q, u)
            → ◌≡◌ {A = Option ℕ × Store}
                (elim q [
                  | none ↦ (none, u)
                  | some arr ↦ convert_loop fails fill cleared arr [] vs u
                ])
                (some p, t)
            → HoldsArray p vs t
        go none u x made h' = cc (ap (λ k. k.0) h')
        go (some arr) u x made h' =
            let (late, below) = x.fresh arr ((==_iff arr arr).1 refl) in
            let (l, at, array_is, rest, kept) =
              convert_loop-Loops arr [] vs u p t below (malloc-live fails block s made) h' in
            (l, ap (λ q. t.live q) at ∙ array_is, rest)
