-- ===== src/CAbi/Answers.antt =====
-- Success and failure of the entry points.
-- What a call with all its arguments leaves: if the caller frees the outputs, the last one first, and
-- the message, all blocks are as before the call; without success there is no output; with success
-- there is no message.
use nyxstone_tricore_gcc.Base.{
  ℕ, ◌≡◌, refl, ◌∙◌, ◌≢◌, ◌↔◌, inl, inr, Bool, true, false, Option, none, some, List, Bool-cases,
  Bytes, codes,
}
use nyxstone_tricore_gcc.Expected.{value, error}
use nyxstone_tricore_gcc.CAbi.Store.{Store, free}
use nyxstone_tricore_gcc.CAbi.Convert.{dup_string}
use nyxstone_tricore_gcc.CAbi.Balance.{IsValid, Extends, Extends-IsValid}
use nyxstone_tricore_gcc.CAbi.Release.{Extends-refl}
use nyxstone_tricore_gcc.CAbi.Entry.{
  Status, status_ok, err_null_arg, err_assemble_failed, err_section_violation, err_alloc, Out,
  contains, classify_assemble_error, Attempt, returned, threw, Answer, what, release_all, set_err,
  failing, given, answered,
}
use nyxstone_tricore_gcc.CAbi.Calls.{entry}
use nyxstone_tricore_gcc.CAbi.Contract.{Given, Gives, malloc-free}

pub record KeepsMemory (zeroed : List Out) (s : Store) (a : Answer) : Type 0 where
  pub released : (q : ℕ) → (free a.message (release_all a.outs a.store)).live q ≡ s.live q
  pub nothing_given : a.status ≢ status_ok → a.outs ≡ zeroed
  pub no_message : a.status ≡ status_ok → a.message ≡ none

-- A rejected call: only the message is allocated, and the out-parameters are not touched.
pub record IsRejected (prior : List Out) (s : Store) (a : Answer) : Type 0 where
  pub status_is : a.status ≡ err_null_arg
  pub untouched : a.outs ≡ prior
  pub released : (q : ℕ) → (free a.message a.store).live q ≡ s.live q

module _ (fails : ℕ → Bool) where
  set_err-free :
      (err : Bool) (text : Bytes) (s t : Store)
      → IsValid s
      → Extends (λ q. false) s t
      → (q : ℕ) → (free (set_err fails err text t).0 (set_err fails err text t).1).live q ≡ s.live q
  unfolding set_err dup_string
  set_err-free false text s t valid x q = unfold free in x.rest q refl
  set_err-free true text s t valid x q =
      (malloc-free fails _ t _ (Extends-IsValid valid x) (Extends-refl fails _)).rest q refl
      ∙ x.rest q refl

  failing-KeepsMemory :
      (outcome : Status) (err : Bool) (text : Bytes) (zeroed : List Out) (s t : Store)
      → outcome ≢ status_ok
      → ((u : Store) → release_all zeroed u ≡ u)
      → IsValid s
      → Extends (λ q. false) s t
      → KeepsMemory zeroed s (failing fails outcome err text zeroed t)
  unfolding failing
  failing-KeepsMemory outcome err text zeroed s t bad empty valid x = record {
    released = λ q. rw (empty (set_err fails err text t).1) (set_err-free err text s t valid x q);
    nothing_given = λ h. refl;
    no_message = λ h. absurd (bad h);
  }

  failing-IsRejected :
      (err : Bool) (text : Bytes) (prior : List Out) (s : Store)
      → IsValid s
      → IsRejected prior s (failing fails err_null_arg err text prior s)
  unfolding failing
  failing-IsRejected err text prior s valid = record {
    status_is = refl;
    untouched = refl;
    released = set_err-free err text s s valid (Extends-refl fails s);
  }

  given-KeepsMemory :
      (err : Bool) (zeroed : List Out) (s : Store) (r : Option (List Out) × Store)
      → ((u : Store) → release_all zeroed u ≡ u)
      → IsValid s
      → Given fails s r
      → KeepsMemory zeroed s (given fails err zeroed r)
  given-KeepsMemory err zeroed s (none, t) empty valid c =
      failing-KeepsMemory err_alloc err _ zeroed s t (λ h. cc) empty valid c
  given-KeepsMemory err zeroed s (some outs, t) empty valid (ok, f) = record {
    released = λ q. unfold free in (f t (Extends-refl fails t)).rest q refl;
    nothing_given = λ h. absurd (h refl);
    no_message = λ h. refl;
  }

  module _ {A : Type 0} (err : Bool) (fail : Bytes → Status)
      (give : A → Store → Option (List Out) × Store) (zeroed : List Out)
      (bad : (m : Bytes) → fail m ≢ status_ok) (empty : (u : Store) → release_all zeroed u ≡ u)
      (gives : Gives fails give) where
    answered-KeepsMemory :
        (r : Attempt A) (s : Store)
        → IsValid s
        → KeepsMemory zeroed s (answered fails err fail give zeroed r s)
    unfolding answered
    answered-KeepsMemory (threw w) s valid =
        failing-KeepsMemory err_alloc err (what w) zeroed s s (λ h. cc) empty valid
          (Extends-refl fails s)
    answered-KeepsMemory (returned (error m)) s valid =
        failing-KeepsMemory (fail m) err m zeroed s s (bad m) empty valid (Extends-refl fails s)
    answered-KeepsMemory (returned (value a)) s valid =
        given-KeepsMemory err zeroed s (give a s) empty valid (gives a s valid)

    pub entry-KeepsMemory :
        {S : Type 0} (lacks : Bool) (prior : List Out) (run : Attempt A × S) (g : S) (s : Store)
        → IsValid s
        → lacks ≡ false
        → KeepsMemory zeroed s (entry fails lacks err fail give zeroed prior run g s).0
    unfolding entry
    entry-KeepsMemory lacks prior run g s valid h = rw h (answered-KeepsMemory run.0 s valid)

  answered-not_null_arg :
      {A : Type 0} (err : Bool) (fail : Bytes → Status)
      (give : A → Store → Option (List Out) × Store) (zeroed : List Out) (r : Attempt A) (s : Store)
      → ((m : Bytes) → fail m ≢ err_null_arg)
      → (answered fails err fail give zeroed r s).status ≢ err_null_arg
  unfolding answered failing
  answered-not_null_arg err fail give zeroed (threw w) s other h = cc
  answered-not_null_arg err fail give zeroed (returned (error m)) s other h = other m h
  answered-not_null_arg err fail give zeroed (returned (value a)) s other h =
      given_status (give a s) h
    where
      given_status :
          (r : Option (List Out) × Store) → (given fails err zeroed r).status ≢ err_null_arg
      given_status (none, t) e = cc
      given_status (some outs, t) e = cc

  -- A call is rejected exactly if it lacks an argument.
  pub entry-IsRejected_iff :
      {A S : Type 0} (err : Bool) (fail : Bytes → Status)
      (give : A → Store → Option (List Out) × Store) (zeroed : List Out) (lacks : Bool)
      (prior : List Out) (run : Attempt A × S) (g : S) (s : Store)
      → IsValid s
      → ((m : Bytes) → fail m ≢ err_null_arg)
      → let a = entry fails lacks err fail give zeroed prior run g s in
        (IsRejected prior s a.0 × (a.1 ≡ g)) ↔ (lacks ≡ true)
  unfolding entry
  entry-IsRejected_iff err fail give zeroed true prior run g s valid other =
      (λ h. refl, λ h. (failing-IsRejected err _ prior s valid, refl))
  entry-IsRejected_iff err fail give zeroed false prior run g s valid other = (
    λ (h, e). absurd (answered-not_null_arg err fail give zeroed run.0 s other h.status_is),
    λ h. cc,
  )

pub classify-fails : (m : Bytes) → classify_assemble_error m ≢ status_ok
unfolding classify_assemble_error
classify-fails m h = elim (Bool-cases (contains (codes "only .text is allowed") m)) [
  | inl e ↦ let x : err_section_violation ≡ status_ok = rw e at h in cc
  | inr e ↦ let x : err_assemble_failed ≡ status_ok = rw e at h in cc
]

pub classify-not_null_arg : (m : Bytes) → classify_assemble_error m ≢ err_null_arg
unfolding classify_assemble_error
classify-not_null_arg m h = elim (Bool-cases (contains (codes "only .text is allowed") m)) [
  | inl e ↦ let x : err_section_violation ≡ err_null_arg = rw e at h in cc
  | inr e ↦ let x : err_assemble_failed ≡ err_null_arg = rw e at h in cc
]
