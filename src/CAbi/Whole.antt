-- ===== src/CAbi/Whole.antt =====
-- A successful call hands out all of the method's result.
use nyxstone_tricore_gcc.Base.{
  ℕ, ◌≡◌, refl, sym, ap, subst, ◌∙◌, ◌≢◌, inl, inr, Bool, false, ◌||◌, Option, none, some, List, [],
  ◌∷◌, ◌++◌, ◌==◌, Bool-cases, length, Bytes,
}
use nyxstone_tricore_gcc.Expected.{Expected, value, error}
use nyxstone_tricore_gcc.Glue.{Glue}
use nyxstone_tricore_gcc.Decoder.{PrintInsn}
use nyxstone_tricore_gcc.Assemble.{RelocationInfo}
use nyxstone_tricore_gcc.Api.{AssembleWithRelocsResult, AssembleInstructionsWithRelocsResult}
use nyxstone_tricore_gcc.CAbi.Store.{chars, array, Store, malloc}
use nyxstone_tricore_gcc.CAbi.Convert.{dup_string, fill_reloc, cleared_reloc, convert_relocations}
use nyxstone_tricore_gcc.CAbi.Balance.{IsValid, owns_any, malloc-live}
use nyxstone_tricore_gcc.CAbi.Release.{fill_reloc-Fills, Converted, convert_relocations-Converted}
use nyxstone_tricore_gcc.CAbi.Contract.{Given, give_bytes-Gives, give_instructions-Gives}
use nyxstone_tricore_gcc.CAbi.Entry.{
  Status, status_ok, Out, bytes_out, array_out, Attempt, returned, threw, Answer, failing, answered,
  give_bytes, array_given, give_instructions, text_given, give_text, give_relocs, joined,
  then_relocs, give_bytes_relocs, give_instructions_relocs,
}
use nyxstone_tricore_gcc.CAbi.Calls.{entry, attempted}
use nyxstone_tricore_gcc.CAbi.Content.{give_bytes-HoldsBytes, given-ok, attempted-returned}
use nyxstone_tricore_gcc.CAbi.Elements.{give_instructions-HoldsInstructions}
use nyxstone_tricore_gcc.CAbi.Elements.Loop.{convert-HoldsArray}
use nyxstone_tricore_gcc.CAbi.Elements.Relocs.{HoldsReloc, HoldsReloc-same, fill_reloc-Holds}
use nyxstone_tricore_gcc.CAbi.Owned.{
  OwnsBytes, OwnsRelocs, GivesRelocs, GivesText, GivesBytesRelocs, GivesInstructionsRelocs, Kept,
  OwnsBytes-Kept, AllHeld-Kept,
}

module _ (fails : ℕ → Bool) where
  pub give_text-GivesText :
      (text : Bytes) (s : Store) (outs : List Out) (t : Store)
      → give_text fails text s ≡ (some outs, t)
      → GivesText text outs t
  unfolding give_text dup_string
  give_text-GivesText text s outs t h =
      go (malloc fails (chars (text ++ 0 ∷ [])) s).0 (malloc fails (chars (text ++ 0 ∷ [])) s).1
        refl h
    where
      go :
          (p : Option ℕ) (u : Store)
          → malloc fails (chars (text ++ 0 ∷ [])) s ≡ (p, u)
          → text_given fails (p, u) ≡ (some outs, t)
          → GivesText text outs t
      go none u e h' = cc (ap (λ r. r.0) h')
      go (some p) u e h' =
          (p, cc (ap (λ r. r.0) h'), ap (λ r. r.1.live p) (sym h') ∙ malloc-live fails _ s e)

  give_relocs-GivesRelocs :
      (v : List RelocationInfo) (s : Store) (outs : List Out) (t : Store)
      → give_relocs fails v s ≡ (some outs, t)
      → GivesRelocs v outs t
  unfolding give_relocs convert_relocations
  give_relocs-GivesRelocs [] s outs t h = (none, sym (cc (ap (λ r. r.0) h)), inl (refl, refl))
  give_relocs-GivesRelocs (v ∷ vs) s outs t h =
      go (convert_relocations fails (v ∷ vs) s).0 (convert_relocations fails (v ∷ vs) s).1 refl h
    where
      go :
          (r : Option ℕ) (u : Store)
          → ◌≡◌ {A = Option ℕ × Store} (convert_relocations fails (v ∷ vs) s) (r, u)
          → array_given fails (length (v ∷ vs)) (r, u) ≡ (some outs, t)
          → GivesRelocs (v ∷ vs) outs t
      go none u made h' = cc (ap (λ r. r.0) h')
      go (some p) u made h' =
          let (l, at, rest) =
            convert-HoldsArray fails (fill_reloc fails) (cleared_reloc fails) HoldsReloc
              (fill_reloc-Fills fails) (fill_reloc-Holds fails) HoldsReloc-same (v ∷ vs) s p u
              made in
          let store : u ≡ t = ap (λ k. k.1) h' in
          (
            some p,
            sym (cc (ap (λ r. r.0) h')),
            subst (λ (k : Store). OwnsRelocs (v ∷ vs) (some p) k) store
                (inr (p, l, refl, at, rest)),
          )

  -- The relocations leave the blocks before them alone.
  give_relocs-Kept :
      (v : List RelocationInfo) (s : Store) (outs : List Out) (t : Store)
      → IsValid s
      → give_relocs fails v s ≡ (some outs, t)
      → Kept s t
  unfolding give_relocs
  give_relocs-Kept [] s outs t valid h q b there = ap (λ r. r.1.live q) (sym h) ∙ there
  give_relocs-Kept (v ∷ vs) s outs t valid h q b there =
      go (convert_relocations fails (v ∷ vs) s)
        (convert_relocations-Converted fails (v ∷ vs) s valid) h
    where
      go :
          (r : Option ℕ × Store)
          → Converted fails s (length (v ∷ vs)) r
          → array_given fails (length (v ∷ vs)) r ≡ (some outs, t)
          → t.live q ≡ some b
      go (none, u) c h' = cc (ap (λ r. r.0) h')
      go (some p, u) (l, size, at, own) h' =
          ap (λ r. r.1.live q) (sym h') ∙ elim (Bool-cases (q == p || owns_any l q)) [
            | inl o ↦ let empty = valid q (own.fresh q o).0 in cc
            | inr n ↦ own.rest q n ∙ there
          ]

  -- With both outputs, the first one is whole and the relocations are behind it.
  then_relocs-split :
      (v : List RelocationInfo) (s : Store) (r : Option (List Out) × Store) (outs : List Out)
      (t : Store)
      → Given fails s r
      → then_relocs fails v r ≡ (some outs, t)
      → (first relocs : List Out) × (u : Store) × ◌≡◌ {A = Option (List Out) × Store} r
          (some first, u)
        × (outs ≡ first ++ relocs)
        × GivesRelocs v relocs t
        × Kept u t
  then_relocs-split v s (none, u) outs t c h = cc (ap (λ k. k.0) h)
  then_relocs-split v s (some first, u) outs t (valid, c) h =
      go (give_relocs fails v u).0 (give_relocs fails v u).1 refl h
    where
      go :
          (p : Option (List Out)) (w : Store)
          → ◌≡◌ {A = Option (List Out) × Store} (give_relocs fails v u) (p, w)
          → joined fails first (p, w) ≡ (some outs, t)
          → (f relocs : List Out) × (x : Store) × ◌≡◌ {A = Option (List Out) × Store}
              (some first, u)
              (some f, x)
            × (outs ≡ f ++ relocs)
            × GivesRelocs v relocs t
            × Kept x t
      go none w e h' = cc (ap (λ k. k.0) h')
      go (some relocs) w e h' =
          let store : w ≡ t = ap (λ k. k.1) h' in
          let e' : ◌≡◌ {A = Option (List Out) × Store} (give_relocs fails v u) (some relocs, t) =
            e ∙ ap (λ k. (some relocs, k)) store in
          (
            first,
            relocs,
            u,
            refl,
            sym (cc (ap (λ k. k.0) h')),
            give_relocs-GivesRelocs v u relocs t e',
            give_relocs-Kept v u relocs t valid e',
          )

  give_bytes-OwnsBytes :
      (bytes : Bytes) (s : Store) (outs : List Out) (t : Store)
      → give_bytes fails bytes s ≡ (some outs, t)
      → (p : Option ℕ) × (outs ≡ bytes_out p (length bytes) ∷ []) × OwnsBytes bytes p t
  give_bytes-OwnsBytes bytes s outs t h = elim (give_bytes-HoldsBytes fails bytes s h) [
    | inl (e, o) ↦ (none, o ∙ ap (λ k. bytes_out none (length k) ∷ []) (sym e), inl (e, refl))
    | inr (p, o, there) ↦ (some p, o, inr (p, refl, there))
  ]

  pub give_bytes_relocs-Gives_both :
      (r : AssembleWithRelocsResult) (s : Store) (outs : List Out) (t : Store)
      → IsValid s
      → give_bytes_relocs fails r s ≡ (some outs, t)
      → GivesBytesRelocs r outs t
  unfolding give_bytes_relocs
  give_bytes_relocs-Gives_both r s outs t valid h =
      let (first, relocs, u, e, o, (q, oq, own), kept) =
        then_relocs-split r.relocations s (give_bytes fails r.bytes s) outs t
          (give_bytes-Gives fails r.bytes s valid) h in
      let (p, op, bytes) = give_bytes-OwnsBytes r.bytes s first u e in
      (
        p,
        q,
        o ∙ ap (λ k. k ++ relocs) op ∙ ap (λ k. bytes_out p (length r.bytes) ∷ k) oq,
        OwnsBytes-Kept r.bytes p u t kept bytes,
        own,
      )

  pub give_instructions_relocs-Gives_both :
      (r : AssembleInstructionsWithRelocsResult) (s : Store) (outs : List Out) (t : Store)
      → IsValid s
      → give_instructions_relocs fails r s ≡ (some outs, t)
      → GivesInstructionsRelocs r outs t
  unfolding give_instructions_relocs
  give_instructions_relocs-Gives_both r s outs t valid h =
      let (first, relocs, u, e, o, (q, oq, own), kept) =
        then_relocs-split r.relocations s (give_instructions fails r.instructions s) outs t
          (give_instructions-Gives fails r.instructions s valid) h in
      let (p, l, op, at, rest) =
        give_instructions-HoldsInstructions fails r.instructions s first u e in
      (
        p,
        q,
        o ∙ ap (λ k. k ++ relocs) op ∙ ap (λ k. array_out (some p) (length r.instructions) ∷ k) oq,
        (l, kept p (array l) at, AllHeld-Kept r.instructions l u t kept rest),
        own,
      )

-- What a call that returns NYXSTONE_OK has: the method's value, and all its outputs.
abbrev pub GivesAll : {A : Type 0} → (A → List Out → Store → Type 0) → Expected A → Answer → Type 0
GivesAll {A} Holds result a = (v : A) × (result ≡ value v) × Holds v a.outs a.store

module _ (fails : ℕ → Bool) {A : Type 0} (err : Bool) (fail : Bytes → Status)
    (give : A → Store → Option (List Out) × Store) (zeroed : List Out)
    (bad : (m : Bytes) → fail m ≢ status_ok) (Holds : A → List Out → Store → Type 0)
    (holds : (v : A) (s : Store) (outs : List Out) (t : Store)
      → IsValid s
      → give v s ≡ (some outs, t)
      → Holds v outs t) where
  answered-GivesAll :
      (r : Attempt A) (s : Store)
      → IsValid s
      → (answered fails err fail give zeroed r s).status ≡ status_ok
      → (v : A) × (r ≡ returned (value v))
        × Holds v
            (answered fails err fail give zeroed r s).outs
            (answered fails err fail give zeroed r s).store
  unfolding answered failing
  answered-GivesAll (threw w) s valid h = cc
  answered-GivesAll (returned (error m)) s valid h = absurd (bad m h)
  answered-GivesAll (returned (value v)) s valid h =
      let (outs, t, r, a, b) = given-ok fails err zeroed (give v s) h in
      (v, refl, rw (a, b) (holds v s outs t valid r))

  pub entry-GivesAll :
      (g : Glue) (print_insn : PrintInsn) (exception : g.State → Option (Option Bytes × g.State))
      (x : g.State) (lacks : Bool) (prior : List Out) (r : Expected A × g.State) (s : Store)
      → IsValid s
      → lacks ≡ false
      → let a =
          (entry fails lacks err fail give zeroed prior
            (attempted fails g print_insn exception x r)
            x
            s).0 in
        a.status ≡ status_ok → GivesAll Holds r.0 a
  unfolding entry
  entry-GivesAll g print_insn exception x lacks prior r s valid l h =
      let run = attempted fails g print_insn exception x r in
      let (v, same, held) = answered-GivesAll run.0 s valid (rw l at h) in
      (v, attempted-returned fails g print_insn exception x r same, rw l held)
