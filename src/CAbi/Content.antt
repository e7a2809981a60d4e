-- ===== src/CAbi/Content.antt =====
-- What a successful call hands out.
-- The bytes in memory: a block with exactly these bytes, or NULL if there are none.
use nyxstone_tricore_gcc.Base.{
  ℕ, ◌≡◌, refl, sym, ap, ◌∙◌, ◌⊎◌, inl, inr, Bool, Option, none, some, List, [], ◌∷◌, Option-cases,
  length, Bytes,
}
use nyxstone_tricore_gcc.Expected.{Expected}
use nyxstone_tricore_gcc.Glue.{Glue}
use nyxstone_tricore_gcc.Decoder.{PrintInsn}
use nyxstone_tricore_gcc.CAbi.Store.{chars, Store, malloc}
use nyxstone_tricore_gcc.CAbi.Balance.{malloc-live}
use nyxstone_tricore_gcc.CAbi.Entry.{
  status_ok, Out, bytes_out, returned, threw, failing, given, bytes_given, give_bytes,
}
use nyxstone_tricore_gcc.CAbi.Calls.{attempted}

abbrev pub HoldsBytes : Bytes → List Out → Store → Type 0
HoldsBytes bytes outs s =
    ((bytes ≡ []) × (outs ≡ bytes_out none 0 ∷ []))
    ⊎ ((p : ℕ) × (outs ≡ bytes_out (some p) (length bytes) ∷ []) × (s.live p ≡ some (chars bytes)))

module _ (fails : ℕ → Bool) where
  pub give_bytes-HoldsBytes :
      (bytes : Bytes) (s : Store) {outs : List Out} {t : Store}
      → give_bytes fails bytes s ≡ (some outs, t)
      → HoldsBytes bytes outs t
  unfolding give_bytes
  give_bytes-HoldsBytes [] s h = inl (refl, cc (ap (λ r. r.0) h))
  give_bytes-HoldsBytes (c ∷ bytes) s {outs} {t} h =
      go (malloc fails (chars (c ∷ bytes)) s).0 (malloc fails (chars (c ∷ bytes)) s).1 refl h
    where
      go :
          (p : Option ℕ) (u : Store)
          → malloc fails (chars (c ∷ bytes)) s ≡ (p, u)
          → bytes_given fails (length (c ∷ bytes)) (p, u) ≡ (some outs, t)
          → HoldsBytes (c ∷ bytes) outs t
      go none u e h' = cc (ap (λ r. r.0) h')
      go (some p) u e h' =
          inr (p, cc (ap (λ r. r.0) h'), ap (λ r. r.1.live p) (sym h') ∙ malloc-live fails _ s e)

  pub given-ok :
      (err : Bool) (zeroed : List Out) (r : Option (List Out) × Store)
      → (given fails err zeroed r).status ≡ status_ok
      → (outs : List Out) × (t : Store) × (r ≡ (some outs, t))
        × ((given fails err zeroed r).outs ≡ outs)
        × ((given fails err zeroed r).store ≡ t)
  unfolding failing
  given-ok err zeroed (none, t) h = cc
  given-ok err zeroed (some outs, t) h = (outs, t, refl, refl, refl)

  pub attempted-returned :
      {A : Type 0} (g : Glue) (print_insn : PrintInsn)
      (exception : g.State → Option (Option Bytes × g.State)) (x : g.State)
      (r : Expected A × g.State) {e : Expected A}
      → (attempted fails g print_insn exception x r).0 ≡ returned e
      → r.0 ≡ e
  unfolding attempted
  attempted-returned g print_insn exception x r {e} h = elim (Option-cases (exception x)) [
    | inl n ↦ let same : returned r.0 ≡ returned e = rw (attempted, n) at h in cc
    | inr ((w, y), n) ↦ let other : threw w ≡ returned e = rw (attempted, n) at h in cc
  ]
