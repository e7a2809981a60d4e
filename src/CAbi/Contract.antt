-- ===== src/CAbi/Contract.antt =====
-- What the entry points promise about memory and the out-parameters.
use nyxstone_tricore_gcc.Base.{
  ℕ, ◌≡◌, refl, sym, ap, inl, inr, Bool, false, Option, none, some, List, [], ◌∷◌, ◌++◌, ◌==◌,
  Bool-cases, length, is_empty,
}
use nyxstone_tricore_gcc.Assemble.{RelocationInfo}
use nyxstone_tricore_gcc.CAbi.Store.{Block, chars, Store, malloc, free, free_array}
use nyxstone_tricore_gcc.CAbi.Convert.{dup_string}
use nyxstone_tricore_gcc.CAbi.Balance.{
  IsValid, points, Extends, Extends-IsValid, Extends-then, malloc-Extends, Extends-own,
}
use nyxstone_tricore_gcc.CAbi.Release.{
  or_nothing, Converted, Converted-free, convert_instructions-Converted,
  convert_relocations-Converted, Extends-refl,
}
use nyxstone_tricore_gcc.CAbi.Entry.{
  Out, release, release_all, bytes_given, give_bytes, array_given, give_instructions, text_given,
  give_text, give_relocs, joined, then_relocs, give_bytes_relocs, give_instructions_relocs,
}

module _ (fails : ℕ → Bool) where
  -- A failure leaves no block; what is given can be released.
  abbrev pub Given : Store → Option (List Out) × Store → Type 0
  Given s (none, s') = Extends (λ q. false) s s'
  Given s (some outs, s') =
      IsValid s'
      × ((t : Store) → Extends (λ q. false) s' t → Extends (λ q. false) s (release_all outs t))

  abbrev pub Gives : {A : Type 0} → (A → Store → Option (List Out) × Store) → Type 0
  Gives {A} give = (a : A) (s : Store) → IsValid s → Given s (give a s)

  Converted-IsValid :
      (s : Store) (n : ℕ) (r : Option ℕ × Store) → IsValid s → Converted fails s n r → IsValid r.1
  Converted-IsValid s n (none, s') valid c = Extends-IsValid valid c
  Converted-IsValid s n (some p, s') valid (l, size, there, own) = Extends-IsValid valid own

  -- One block, freed.
  free-Extends :
      {s s' : Store} (p : Option ℕ)
      → IsValid s
      → Extends (points p) s s'
      → Extends (λ q. false) s (free p s')
  unfolding free
  free-Extends none valid x = x
  free-Extends {s} {s'} (some p) valid x = record {
    grown = x.grown;
    fresh = λ q h. cc;
    rest = λ q h. elim (Bool-cases (q == p)) [
      | inl e ↦ rw e (sym (valid q (x.fresh q e).0))
      | inr e ↦ rw e (x.rest q e)
    ];
  }

  pub malloc-free :
      (b : Block) (s t : Store)
      → IsValid s
      → Extends (λ q. false) (malloc fails b s).1 t
      → Extends (λ q. false) s (free (malloc fails b s).0 t)
  malloc-free b s t valid x = free-Extends (malloc fails b s).0 valid (
      Extends-own (λ q. or_nothing fails (points (malloc fails b s).0 q))
        (Extends-then (malloc-Extends fails b s) x))

  bytes_given-Given :
      (n : ℕ) (s : Store) (r : Option ℕ × Store)
      → IsValid r.1
      → ((t : Store) → Extends (λ q. false) r.1 t → Extends (λ q. false) s (free r.0 t))
      → Given s (bytes_given fails n r)
  unfolding release_all
  bytes_given-Given n s (none, s') ok f = unfold free in f s' (Extends-refl fails s')
  bytes_given-Given n s (some p, s') ok f = (ok, f)

  pub give_bytes-Gives : Gives (give_bytes fails)
  unfolding give_bytes
  give_bytes-Gives b s valid = elim (Bool-cases (is_empty b)) [
    | inl e ↦ rw e (valid, λ t x. unfold release_all free in x)
    | inr e ↦ rw e (
        bytes_given-Given (length b) s _ (Extends-IsValid valid (malloc-Extends fails (chars b) s))
          (λ t. malloc-free (chars b) s t valid))
  ]

  text_given-Given :
      (s : Store) (r : Option ℕ × Store)
      → IsValid r.1
      → ((t : Store) → Extends (λ q. false) r.1 t → Extends (λ q. false) s (free r.0 t))
      → Given s (text_given fails r)
  unfolding release_all
  text_given-Given s (none, s') ok f = unfold free in f s' (Extends-refl fails s')
  text_given-Given s (some p, s') ok f = (ok, f)

  pub give_text-Gives : Gives (give_text fails)
  unfolding give_text dup_string
  give_text-Gives b s valid =
      text_given-Given s _ (Extends-IsValid valid (malloc-Extends fails _ s))
        (λ t. malloc-free _ s t valid)

  array_given-Given :
      (n : ℕ) (s : Store) (r : Option ℕ × Store)
      → IsValid r.1
      → ((t : Store) → Extends (λ q. false) r.1 t → Extends (λ q. false) s (free_array r.0 n t))
      → Given s (array_given fails n r)
  unfolding release_all
  array_given-Given n s (none, s') ok f = unfold free_array in f s' (Extends-refl fails s')
  array_given-Given n s (some p, s') ok f = (ok, f)

  pub give_instructions-Gives : Gives (give_instructions fails)
  unfolding give_instructions
  give_instructions-Gives v s valid =
      array_given-Given (length v) s _
        (Converted-IsValid s (length v) _ valid (convert_instructions-Converted fails v s valid))
        (λ t.
          Converted-free fails s (length v) _ t valid
            (convert_instructions-Converted fails v s valid))

  pub give_relocs-Gives : Gives (give_relocs fails)
  unfolding give_relocs
  give_relocs-Gives v s valid = elim (Bool-cases (is_empty v)) [
    | inl e ↦ rw e (valid, λ t x. unfold release_all free_array in x)
    | inr e ↦ rw e (
        array_given-Given (length v) s _
          (Converted-IsValid s (length v) _ valid (convert_relocations-Converted fails v s valid))
          (λ t.
            Converted-free fails s (length v) _ t valid
              (convert_relocations-Converted fails v s valid)))
  ]

  release_all-append :
      (a b : List Out) (t : Store) → release_all (a ++ b) t ≡ release_all a (release_all b t)
  unfolding release_all
  release_all-append [] b t = refl
  release_all-append (o ∷ a) b t = ap (release o) (release_all-append a b t)

  joined-Given :
      (first : List Out) (s s' : Store) (r : Option (List Out) × Store)
      → Given s (some first, s')
      → Given s' r
      → Given s (joined fails first r)
  joined-Given first s s' (none, t) (ok, f) c = f t c
  joined-Given first s s' (some relocs, t) (ok, f) (ok', f') =
      (ok', λ u x. rw (release_all-append first relocs u) (f _ (f' u x)))

  then_relocs-Given :
      (v : List RelocationInfo) (s : Store) (r : Option (List Out) × Store)
      → Given s r
      → Given s (then_relocs fails v r)
  then_relocs-Given v s (none, s') c = c
  then_relocs-Given v s (some first, s') c =
      joined-Given first s s' _ c (give_relocs-Gives v s' c.0)

  pub give_bytes_relocs-Gives : Gives (give_bytes_relocs fails)
  unfolding give_bytes_relocs
  give_bytes_relocs-Gives r s valid =
      then_relocs-Given r.relocations s _ (give_bytes-Gives r.bytes s valid)

  pub give_instructions_relocs-Gives : Gives (give_instructions_relocs fails)
  unfolding give_instructions_relocs
  give_instructions_relocs-Gives r s valid =
      then_relocs-Given r.relocations s _ (give_instructions-Gives r.instructions s valid)
