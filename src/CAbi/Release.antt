-- ===== src/CAbi/Release.antt =====
-- The conversions are all-or-nothing, and the free functions give back all that they allocate.
use nyxstone_tricore_gcc.Base.{
  ℕ, suc, ◌+◌, ◌-◌, ◌≡◌, refl, sym, ap, subst, ◌∙◌, inl, inr, Bool, true, false, ◌||◌, Option, none,
  some, List, [], ◌∷◌, ◌++◌, append-nil, append_assoc, arith, ◌==◌, ==_iff, Bool-cases, length,
  is_empty, take, replicate, length-append,
}
use nyxstone_tricore_gcc.Disassemble.{Instruction}
use nyxstone_tricore_gcc.Assemble.{RelocationInfo}
use nyxstone_tricore_gcc.CAbi.Store.{Element, Block, chars, array, Store, malloc, write, free_array}
use nyxstone_tricore_gcc.CAbi.Convert.{
  dup_string, Filled, complete, broken, fill_bytes, fill_rest, fill_instruction, fill_name,
  fill_reloc, convert_loop, convert, cleared_instruction, cleared_reloc, convert_instructions,
  convert_relocations,
}
use nyxstone_tricore_gcc.CAbi.Balance.{
  IsValid, points, owns, owns_any, Extends, Extends-then, malloc-Extends, malloc-live, Extends-own,
  write-Extends, free_array-Extends,
}

module _ (fails : ℕ → Bool) where
  abbrev pub filled_owns : Filled fails → ℕ → Bool
  filled_owns (complete e) = owns e
  filled_owns (broken l) = owns_any l

  abbrev pub Fills : {A : Type 0} → (A → Store → Filled fails × Store) → Type 0
  Fills {A} fill = (v : A) (s : Store) → Extends (filled_owns (fill v s).0) s (fill v s).1

  pub or_nothing : (b : Bool) → (b || false) ≡ b
  or_nothing true = refl
  or_nothing false = refl

  fill_bytes-Extends :
      (i : Instruction) (assembly p : Option ℕ) (s s' : Store)
      → Extends (λ q. points assembly q || points p q) s s'
      → Extends
          (filled_owns (fill_bytes fails i assembly (p, s')).0)
          s
          (fill_bytes fails i assembly (p, s')).1
  fill_bytes-Extends i assembly none s s' x = Extends-own (λ q. sym (or_nothing _)) x
  fill_bytes-Extends i assembly (some p) s s' x = x

  fill_rest-Extends :
      (i : Instruction) (p : Option ℕ) (s s' : Store)
      → Extends (points p) s s'
      → Extends (filled_owns (fill_rest fails i (p, s')).0) s (fill_rest fails i (p, s')).1
  fill_rest-Extends i none s s' x = x
  fill_rest-Extends i (some p) s s' x = elim (Bool-cases (is_empty i.bytes)) [
    | inl e ↦ rw e (Extends-own (λ q. sym (or_nothing _)) x)
    | inr e ↦ rw e (
        fill_bytes-Extends i (some p) _ s _
          (Extends-then x (malloc-Extends fails (chars i.bytes) s')))
  ]

  pub fill_instruction-Fills : Fills (fill_instruction fails)
  unfolding fill_instruction dup_string
  fill_instruction-Fills i s = fill_rest-Extends i _ s _ (malloc-Extends fails _ s)

  fill_name-Extends :
      (r : RelocationInfo) (p : Option ℕ) (s s' : Store)
      → Extends (points p) s s'
      → Extends (filled_owns (fill_name fails r (p, s')).0) s (fill_name fails r (p, s')).1
  fill_name-Extends r none s s' x = x
  fill_name-Extends r (some p) s s' x = x

  pub fill_reloc-Fills : Fills (fill_reloc fails)
  unfolding fill_reloc dup_string
  fill_reloc-Fills r s = fill_name-Extends r _ s _ (malloc-Extends fails _ s)

  -- Nothing is left of a failed conversion; a finished one holds an array and what its elements own.
  abbrev pub Converted : Store → ℕ → Option ℕ × Store → Type 0
  Converted s n (none, s') = Extends (λ q. false) s s'
  Converted s n (some p, s') =
      (l : List Element) × (length l ≡ n)
      × (s'.live p ≡ some (array l))
      × Extends (λ q. q == p || owns_any l q) s s'

  same_or : (a b c : Bool) → ((a || b) || c) ≡ (a || (b || c))
  same_or true b c = refl
  same_or false b c = refl

  owns_any-append :
      (l m : List Element) (q : ℕ) → owns_any (l ++ m) q ≡ (owns_any l q || owns_any m q)
  owns_any-append [] m q = refl
  owns_any-append (e ∷ l) m q =
      ap (λ b. owns e q || b) (owns_any-append l m q)
      ∙ sym (same_or (owns e q) (owns_any l q) (owns_any m q))

  joined_own :
      (b : Bool) (l m : List Element) (q : ℕ)
      → ((b || owns_any l q) || owns_any m q) ≡ (b || owns_any (l ++ m) q)
  joined_own b l m q =
      same_or b (owns_any l q) (owns_any m q) ∙ ap (λ t. b || t) (sym (owns_any-append l m q))

  take-length : {A : Type 0} (l m : List A) → take (length l) (l ++ m) ≡ l
  take-length [] m = refl
  take-length (x ∷ l) m = ap (λ t. x ∷ t) (take-length l m)

  self_eq : (p : ℕ) → (p == p) ≡ true
  self_eq p = (==_iff p p).1 refl

  written_there : (p : ℕ) (b : Block) (s : Store) → (write p b s).live p ≡ some b
  unfolding write
  written_there p b s = rw (self_eq p) refl

  module _ {A : Type 0} (fill : A → Store → Filled fails × Store) (cleared : Element)
      (fills : Fills fill) where
    convert_loop-Converted :
        (arr : ℕ) (done : List Element) (vs : List A) (s s' : Store)
        → IsValid s
        → s'.live arr ≡ some (array (done ++ replicate (length vs) cleared))
        → Extends (λ q. q == arr || owns_any done q) s s'
        → Converted s (length done + length vs) (convert_loop fails fill cleared arr done vs s')
    unfolding convert_loop
    convert_loop-Converted arr done [] s s' valid there x =
        (done, omega arith, there ∙ ap (λ l. some (array l)) (append-nil done), x)
    convert_loop-Converted arr done (v ∷ vs) s s' valid there x =
        go (fill v s').0 (fill v s').1 (Extends-then x (fills v s'))
          (λ e t. convert_loop-Converted arr (done ++ e ∷ []) vs s t valid)
      where
        own_arr : (l : List Element) → (arr == arr || owns_any l arr) ≡ true
        own_arr l = rw (self_eq arr) refl

        go :
            (f : Filled fails) (t : Store)
            → Extends (λ q. (q == arr || owns_any done q) || filled_owns f q) s t
            → ((e : Element) (u : Store)
                → u.live arr ≡ some (array ((done ++ e ∷ []) ++ replicate (length vs) cleared))
                → Extends (λ q. q == arr || owns_any (done ++ e ∷ []) q) s u
                → Converted s
                    (length (done ++ e ∷ []) + length vs)
                    (convert_loop fails fill cleared arr (done ++ e ∷ []) vs u))
            → Converted s (length done + suc (length vs)) (elim f [
              | complete e ↦
                  convert_loop fails fill cleared arr
                    (done ++ e ∷ [])
                    vs
                    (write arr (array (done ++ e ∷ replicate (length vs) cleared)) t)
              | broken l ↦ (
                none,
                free_array (some arr) (length (done ++ l)) (
                    write arr
                      (array ((done ++ l) ++ replicate (suc (length vs) - length l) cleared))
                      t),
              )
            ])
        go (complete e) t y ih =
            let count : length (done ++ e ∷ []) + length vs ≡ length done + suc (length vs) =
              omega (arith, length-append done (e ∷ [])) in
            let one : Extends (λ q. (q == arr || owns_any done q) || owns_any (e ∷ []) q) s t =
              Extends-own
                (λ q. ap (λ b. (q == arr || owns_any done q) || b) (sym (or_nothing (owns e q))))
                y in
            subst
              (λ n. Converted s n (
                convert_loop fails fill cleared arr (done ++ e ∷ []) vs
                  (write arr (array (done ++ e ∷ replicate (length vs) cleared)) t)))
              count
              (ih e _
                (written_there arr _ t
                  ∙ ap (λ l. some (array l))
                      (sym (append_assoc done (e ∷ []) (replicate (length vs) cleared))))
                (write-Extends arr _ (own_arr (done ++ e ∷ []))
                  (Extends-own (λ q. joined_own (q == arr) done (e ∷ []) q) one)))
        go (broken l) t y ih =
            free_array-Extends arr (length (done ++ l)) (done ++ l) _ valid (written_there arr _ t)
              (take-length (done ++ l) _)
              (write-Extends arr _ (own_arr (done ++ l))
                (Extends-own (λ q. joined_own (q == arr) done l q) y))

    convert_empty :
        (arr : ℕ) (vs : List A) (s t : Store)
        → IsValid s
        → t.live arr ≡ some (array (replicate (length vs) cleared))
        → Extends (λ q. q == arr || false) s t
        → Converted s (length vs) (convert_loop fails fill cleared arr [] vs t)
    convert_empty arr vs s t valid there x =
        let zero_add : 0 + length vs ≡ length vs = omega arith in
        subst (λ n. Converted s n (convert_loop fails fill cleared arr [] vs t)) zero_add
          (convert_loop-Converted arr [] vs s t valid there x)

    convert-Converted :
        (vs : List A) (s : Store)
        → IsValid s
        → Converted s (length vs) (convert fails fill cleared vs s)
    unfolding convert
    convert-Converted vs s valid =
        go (malloc fails (array (replicate (length vs) cleared)) s).0 _ refl
          (malloc-Extends fails _ s)
      where
        go :
            (p : Option ℕ) (t : Store)
            → malloc fails (array (replicate (length vs) cleared)) s ≡ (p, t)
            → Extends (points p) s t
            → Converted s (length vs) (elim p [
              | none ↦ (none, t)
              | some arr ↦ convert_loop fails fill cleared arr [] vs t
            ])
        go none t e x = x
        go (some arr) t e x =
            convert_empty arr vs s t valid (malloc-live fails _ s e)
              (Extends-own (λ q. sym (or_nothing (q == arr))) x)

  -- Freeing what a conversion returned, with no more allocated, leaves nothing of it.
  pub Converted-free :
      (s : Store) (n : ℕ) (r : Option ℕ × Store) (t : Store)
      → IsValid s
      → Converted s n r
      → Extends (λ q. false) r.1 t
      → Extends (λ q. false) s (free_array r.0 n t)
  unfolding free_array
  Converted-free s n (none, s') t valid c x = Extends-then c x
  Converted-free s n (some p, s') t valid (l, size, there, own) x =
      free_array-Extends p n l l valid
        (let (a, b) = own.fresh p (rw ((==_iff p p).1 refl) refl) in x.rest p refl ∙ there)
        (ap (λ k. take k l) (sym size)
          ∙ ap (take (length l)) (sym (append-nil l))
          ∙ take-length l [])
        (Extends-own (λ q. or_nothing (q == p || owns_any l q)) (Extends-then own x))

  pub convert_instructions-Converted :
      (v : List Instruction) (s : Store)
      → IsValid s
      → Converted s (length v) (convert_instructions fails v s)
  unfolding convert_instructions
  convert_instructions-Converted v s valid =
      convert-Converted (fill_instruction fails) (cleared_instruction fails) fill_instruction-Fills
        v s valid

  pub convert_relocations-Converted :
      (v : List RelocationInfo) (s : Store)
      → IsValid s
      → Converted s (length v) (convert_relocations fails v s)
  unfolding convert_relocations
  convert_relocations-Converted v s valid =
      convert-Converted (fill_reloc fails) (cleared_reloc fails) fill_reloc-Fills v s valid

  pub Extends-refl : (s : Store) → Extends (λ q. false) s s
  Extends-refl s = record { grown = omega arith; fresh = λ q h. cc; rest = λ q h. refl }
