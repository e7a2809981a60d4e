-- ===== src/CAbi/Handle/Lifetime.antt =====
-- The life of a handle: when `nyxstone_create` gives one, and that everything is given back.
use nyxstone_tricore_gcc.Base.{
  ℕ, suc, ◌≡◌, refl, sym, ap, subst, ◌↔◌, inl, inr, Bool, true, false, ◌||◌, Option, none, some,
  arith, ◌==◌, ==_iff, Bool-cases, Bytes, codes,
}
use nyxstone_tricore_gcc.Expected.{Expected, value, error}
use nyxstone_tricore_gcc.Api.{create}
use nyxstone_tricore_gcc.GlueLayer.Startup.{Startup, SetupState, init_once}
use nyxstone_tricore_gcc.CAbi.Store.{Block, class_object, handle_block, Store, added, malloc, free}
use nyxstone_tricore_gcc.CAbi.Convert.{dup_string}
use nyxstone_tricore_gcc.CAbi.Entry.{what, set_err}
use nyxstone_tricore_gcc.CAbi.Balance.{
  IsValid, points, Extends, Extends-then, malloc-Extends, malloc-live, Extends-own,
}
use nyxstone_tricore_gcc.CAbi.Release.{Extends-refl}
use nyxstone_tricore_gcc.CAbi.Handle.{
  Created, inner_of, nyxstone_destroy, without_handle, handle_given, create_result, created,
  nyxstone_create,
}

or_none : (b : Bool) → (b || false) ≡ b
or_none true = refl
or_none false = refl

-- Freeing one of the blocks that were given leaves the others.
free_one :
    (own : ℕ → Bool) (p : Option ℕ) {s s' : Store}
    → IsValid s
    → Extends (λ q. own q || points p q) s s'
    → Extends own s (free p s')
unfolding free
free_one own none valid x = Extends-own (λ q. or_none (own q)) x
free_one own (some p) {s} {s'} valid x = record {
  grown = x.grown;
  fresh = λ q h. x.fresh q (ground arith);
  rest = λ q h. elim (Bool-cases (q == p)) [
    | inl e ↦ rw e (sym (valid q (x.fresh q (ground arith)).0))
    | inr e ↦ rw e (x.rest q (ground arith))
  ];
}

-- Two blocks, freed one after the other.
free_two :
    (p r : Option ℕ) {s s' : Store}
    → IsValid s
    → Extends (λ q. points p q || points r q) s s'
    → Extends (λ q. false) s (free p (free r s'))
free_two p r valid x = free_one (λ q. false) p valid (free_one (λ q. false || points p q) r valid x)

added-Extends : (b : Block) (s : Store) → Extends (points (some s.calls)) s (added b s)
added-Extends b s = unfold malloc in malloc-Extends (λ n. false) b s

-- Back as it was, when the handle is destroyed and the message freed.
abbrev pub IsBalanced : Store → Created → Type 0
IsBalanced s c = Extends (λ q. false) s (nyxstone_destroy c.result (free c.message c.store))

-- A handle, with its object behind it, and no message.
abbrev pub IsGiven : Created → Type 0
IsGiven c =
    (h inner : ℕ) × (c.result ≡ some h)
    × (c.message ≡ none)
    × (c.store.live h ≡ some (handle_block inner))
    × (c.store.live inner ≡ some class_object)

module _ (fails : ℕ → Bool) (err : Bool) where
  set_err-Extends :
      (b : Bool) (text : Bytes) (s : Store)
      → Extends (points (set_err fails b text s).0) s (set_err fails b text s).1
  unfolding set_err dup_string
  set_err-Extends false text s = Extends-refl fails s
  set_err-Extends true text s = malloc-Extends fails _ s

  -- The message is all that is allocated.
  without_handle-Extends :
      (text : Bytes) (s : Store)
      → let c = without_handle fails err text s in
        (c.result ≡ none) × Extends (points c.message) s c.store
  unfolding without_handle
  without_handle-Extends text s = (refl, set_err-Extends err text s)

  without_handle-IsBalanced :
      (text : Bytes) (s : Store) → IsValid s → IsBalanced s (without_handle fails err text s)
  unfolding nyxstone_destroy
  without_handle-IsBalanced text s valid =
      let c = without_handle fails err text s in
      let (e, x) = without_handle-Extends text s in
      subst (λ (h : Option ℕ). Extends (λ q. false) s (nyxstone_destroy h (free c.message c.store)))
        (sym e) (free_one (λ q. false) c.message valid x)

  handle_given-IsBalanced :
      (s s' : Store) (h : Option ℕ)
      → IsValid s
      → Extends (λ q. points (some s.calls) q || points h q) s s'
      → ((p : ℕ) → h ≡ some p → s'.live p ≡ some (handle_block s.calls))
      → IsBalanced s (handle_given fails err s.calls (h, s'))
  unfolding nyxstone_destroy free inner_of
  handle_given-IsBalanced s s' none valid x there =
      let c = without_handle fails err (codes "out of memory") s' in
      let (e, y) = without_handle-Extends (codes "out of memory") s' in
      let both = Extends-then (Extends-own (λ q. or_none (q == s.calls)) x) y in
      subst
        (λ (h : Option ℕ).
          Extends (λ q. false) s
            (nyxstone_destroy h (free c.message (free (some s.calls) c.store))))
        (sym e) (free_two c.message (some s.calls) valid (Extends-own (λ q. ground arith) both))
  handle_given-IsBalanced s s' (some h) valid x there =
      let own : inner_of (s'.live h) ≡ some s.calls = ap inner_of (there h refl) in
      subst (λ (p : Option ℕ). Extends (λ q. false) s (free (some h) (free p s'))) (sym own)
        (free_two (some h) (some s.calls) valid (Extends-own (λ q. ground arith) x))

  create_result-IsBalanced :
      (r : Expected (Unit {0})) (s : Store) → IsValid s → IsBalanced s (create_result fails err r s)
  create_result-IsBalanced (error m) s valid = without_handle-IsBalanced m s valid
  create_result-IsBalanced (value u) s valid =
      let block = handle_block s.calls in
      let x =
        Extends-then (added-Extends class_object s)
          (malloc-Extends fails block (added class_object s)) in
      handle_given-IsBalanced s (malloc fails block (added class_object s)).1
        (malloc fails block (added class_object s)).0 valid x
        (λ p e.
          malloc-live fails block (added class_object s)
            (λ i. (e i, (malloc fails block (added class_object s)).1)))

  -- On a memory without blocks that were never given, whichever allocations fail, whatever gas and
  -- BFD answer and whether or not the class throws: destroying what `nyxstone_create` returned, a
  -- handle or NULL, and freeing its message leaves the memory as it was.
  pub nyxstone_create-IsBalanced :
      (start : Startup) (exception : Option (Option Bytes)) (x : SetupState start.World) (s : Store)
      → IsValid s
      → IsBalanced s (nyxstone_create fails err start exception x s).0
  unfolding nyxstone_create created
  nyxstone_create-IsBalanced start none x s valid =
      create_result-IsBalanced (create (init_once start x).0) s valid
  nyxstone_create-IsBalanced start (some w) x s valid = without_handle-IsBalanced (what w) s valid

  create_result-IsGiven :
      (s : Store) → fails (suc s.calls) ≡ false → IsGiven (create_result fails err (value tt) s)
  unfolding malloc
  create_result-IsGiven s e =
      let other : (s.calls == suc s.calls) ≡ false = ground arith in
      rw e (
        suc s.calls,
        s.calls,
        refl,
        refl,
        rw ((==_iff (suc s.calls) (suc s.calls)).1 refl) refl,
        rw (other, (==_iff s.calls s.calls).1 refl) refl,
      )

  -- Nothing is thrown, gas is set up, and there is memory for the handle.
  abbrev pub IsReady :
      (start : Startup) → Option (Option Bytes) → SetupState start.World → Store → Type 0
  IsReady start exception x s =
      (exception ≡ none) × ((init_once start x).0 ≡ 0) × (fails (suc s.calls) ≡ false)

  no_handle : {A : Type 0} (r : Option ℕ) (h : ℕ) → r ≡ none → r ≡ some h → A
  no_handle r h e e' = cc

  create_result-IsReady :
      (rc : ℕ) (s : Store)
      → IsGiven (create_result fails err (create rc) s)
      → (rc ≡ 0) × (fails (suc s.calls) ≡ false)
  unfolding create malloc without_handle
  create_result-IsReady rc s (h, inner, e', m, l, o) = elim (Bool-cases (rc == 0)) [
    | inl e ↦ elim (Bool-cases (fails (suc s.calls))) [
      | inl f ↦ no_handle none h refl (rw (e, f) at e')
      | inr f ↦ ((==_iff rc 0).0 e, f)
    ]
    | inr e ↦ no_handle none h refl (rw e at e')
  ]

  -- `nyxstone_create` gives a handle, with its object and without a message, exactly if nothing is
  -- thrown, `nyxstone_glue_init_once` returns 0, and the handle can be allocated.
  pub nyxstone_create-IsGiven :
      (start : Startup) (exception : Option (Option Bytes)) (x : SetupState start.World) (s : Store)
      → IsReady start exception x s ↔ IsGiven (nyxstone_create fails err start exception x s).0
  unfolding nyxstone_create created create without_handle
  nyxstone_create-IsGiven start none x s = (
    λ (a, b, c). rw b (create_result-IsGiven s c),
    λ got. let (b, c) = create_result-IsReady (init_once start x).0 s got in (refl, b, c),
  )
  nyxstone_create-IsGiven start (some w) x s =
      (λ (a, b, c). cc, λ (h, inner, e, m, l, o). no_handle none h refl e)
