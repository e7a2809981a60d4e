-- ===== src/GlueLayer/Sections/Finalize.antt =====
-- Where frags start after `finalize_align_org`.
use nyxstone_tricore_gcc.Base.{
  ℕ, zero, suc, ◌+◌, ◌-◌, ◌*◌, ◌%◌, ◌^◌, ◌≤◌, ◌<◌, ◌≡◌, refl, sym, ap, subst, ◌∙◌, ◌⊎◌, inl, inr,
  false, not, ◌&&◌, List, [], ◌∷◌, ◌++◌, arith, ltb, ◌==◌, if◌then◌else◌, Bool-cases,
}
use nyxstone_tricore_gcc.Gas.{rs_align, rs_align_code, rs_org, Frag}
use nyxstone_tricore_gcc.Disassemble.{u64_add}
use nyxstone_tricore_gcc.GlueLayer.Sections.{
  count_of, align_pad, skipped, frag_fix_size, org_target, finalize_frag, finalize_frags,
}
use native.Mathlib.Nat.{dvd_of_mod-eq-zero, mod-mod_of_dvd, mul-mod_right, pow-suc}
use nyxstone_tricore_gcc.GlueLayer.Sections.Padding.{align_pad-aligned, align_pad-least}

sub_zero : (n : ℕ) → n - 0 ≡ n
sub_zero n = omega arith

pow_split : (p q : ℕ) → p ≤ q → 2 ^ q ≡ 2 ^ p * 2 ^ (q - p)
pow_split zero q h = ap (λ (x : ℕ). 2 ^ x) (sym (sub_zero q)) ∙ omega arith
pow_split (suc p) zero h = absurd (omega arith)
pow_split (suc p) (suc q) h =
    let less : suc q - suc p ≡ q - p = omega arith in
    omega (
      arith,
      pow-suc 2 q,
      ap (λ (x : ℕ). x * 2 ^ (q - p)) (pow-suc 2 p),
      pow_split p q (omega arith),
      ap (λ (x : ℕ). 2 ^ suc p * 2 ^ x) less,
    )

-- Addresses are taken modulo 2 ^ 64, which keeps their alignment.
mod_keeps : (p x : ℕ) → p < 64 → x % 2 ^ 64 % 2 ^ p ≡ x % 2 ^ p
mod_keeps p x h =
    let split = pow_split p 64 (omega arith) in
    mod-mod_of_dvd (2 ^ p) x
      (dvd_of_mod-eq-zero (2 ^ p) (ap (λ (y : ℕ). y % 2 ^ p) split ∙ mul-mod_right (2 ^ p) _))

-- `n` more bytes bring `off` to a multiple of 2 ^ p.
abbrev pub Aligns : ℕ → ℕ → ℕ → Type 0
Aligns p off n = (off + n) % 2 ^ p ≡ 0

-- The padding at `off`: the least that aligns, and none if that is more than a given maximum.
abbrev pub Pads : ℕ → ℕ → ℕ → ℕ → Type 0
Pads max p off pad =
    Aligns p off pad × ((n : ℕ) → Aligns p off n → pad ≤ n) × ((max ≡ 0) ⊎ (pad ≤ max))
    ⊎ (pad ≡ 0) × (0 < max) × ((n : ℕ) → Aligns p off n → max < n)

within_max : (max pad : ℕ) → (not (max == 0) && ltb max pad) ≡ false → (max ≡ 0) ⊎ (pad ≤ max)
within_max max pad e = elim (Bool-cases (max == 0)) [
  | inl z ↦ inl (ground arith)
  | inr z ↦ inr (ground (arith, e))
]

skipped-Pads : (max p off : ℕ) → Pads max p off (skipped max (align_pad p off))
unfolding skipped
skipped-Pads max p off = elim (Bool-cases (not (max == 0) && ltb max (align_pad p off))) [
  | inl e ↦
      rw e (inr (refl, ground (arith, e), λ n h. ground (arith, align_pad-least p off n h, e)))
  | inr e ↦
      rw e
        (inl (align_pad-aligned p off, align_pad-least p off, within_max max (align_pad p off) e))
]

module _ {Symbol : Type 0} (value : Symbol → ℕ) where
  -- The address behind the frags.
  abbrev pub end_of : ℕ → List (Frag Symbol) → ℕ
  end_of addr frs = (finalize_frags value addr frs).1

  abbrev pub errors_of : ℕ → List (Frag Symbol) → ℕ
  errors_of addr frs = (finalize_frags value addr frs).2

  abbrev pad_of : ℕ → Frag Symbol → ℕ
  pad_of addr fr = (finalize_frag value addr fr).1

  abbrev behind : ℕ → Frag Symbol → ℕ
  behind addr fr = u64_add addr (frag_fix_size fr + pad_of addr fr)

  end_of-snoc :
      (addr : ℕ) (frs : List (Frag Symbol)) (fr : Frag Symbol)
      → end_of addr (frs ++ fr ∷ [])
        ≡ u64_add
            (end_of addr frs)
            (frag_fix_size fr + (finalize_frag value (end_of addr frs) fr).1)
  unfolding finalize_frags
  end_of-snoc addr [] fr = refl
  end_of-snoc addr (f ∷ frs) fr = end_of-snoc (behind addr f) frs fr

  errors_of-snoc :
      (addr : ℕ) (frs : List (Frag Symbol)) (fr : Frag Symbol)
      → errors_of addr (frs ++ fr ∷ [])
        ≡ errors_of addr frs + (if (finalize_frag value (end_of addr frs) fr).2 then 1 else 0)
  unfolding finalize_frags
  errors_of-snoc addr [] fr = ground arith
  errors_of-snoc addr (f ∷ frs) fr = ground (arith, errors_of-snoc (behind addr f) frs fr)

  abbrev pub IsAlignment : Frag Symbol → Type 0
  IsAlignment fr = (fr.kind ≡ rs_align) ⊎ (fr.kind ≡ rs_align_code)

  alignment_pad :
      (addr : ℕ) (fr : Frag Symbol)
      → IsAlignment fr
      → pad_of addr fr
        ≡ skipped fr.subtype (align_pad (count_of fr.offset) (u64_add addr (frag_fix_size fr)))
  unfolding finalize_frag
  alignment_pad addr fr (inl e) = rw e refl
  alignment_pad addr fr (inr e) = rw e refl

  -- Whatever stands in front of it, behind an alignment frag there is the least padding that aligns
  -- what follows, or none if that is more than the maximum that the frag gives; in the first case
  -- the next address is a multiple of the alignment.
  pub finalize_frags-Pads :
      (addr : ℕ) (frs : List (Frag Symbol)) (fr : Frag Symbol)
      → IsAlignment fr
      → count_of fr.offset < 64
      → let off = u64_add (end_of addr frs) (frag_fix_size fr) in
        let next = end_of addr (frs ++ fr ∷ []) in
        (pad : ℕ) × (next ≡ u64_add off pad)
        × Pads fr.subtype (count_of fr.offset) off pad
        × (Aligns (count_of fr.offset) off pad → next % 2 ^ count_of fr.offset ≡ 0)
  finalize_frags-Pads addr frs fr h small =
      let p = count_of fr.offset in
      let mid = end_of addr frs in
      let pad = pad_of mid fr in
      let off = u64_add mid (frag_fix_size fr) in
      let next : end_of addr (frs ++ fr ∷ []) ≡ u64_add off pad =
        end_of-snoc addr frs fr ∙ omega arith in
      (
        pad,
        next,
        subst (Pads fr.subtype p off) (sym (alignment_pad mid fr h))
            (skipped-Pads fr.subtype p off),
        λ aligned. ap (λ (x : ℕ). x % 2 ^ p) next ∙ mod_keeps p (off + pad) small ∙ aligned,
      )

  org_pad :
      (addr : ℕ) (fr : Frag Symbol)
      → fr.kind ≡ rs_org
      → let back = ltb (org_target value fr) (u64_add addr (frag_fix_size fr)) in
        (pad_of addr fr
          ≡ (if back then 0 else org_target value fr - u64_add addr (frag_fix_size fr)))
        × ((finalize_frag value addr fr).2 ≡ back)
  unfolding finalize_frag
  org_pad addr fr e = rw e (refl, refl)

  org_target_small : (fr : Frag Symbol) → org_target value fr < 2 ^ 64
  unfolding org_target
  org_target_small fr = omega arith

  -- Behind `.org` the address is its target, and there is no new error, if the target is not behind
  -- the end of what stands in front of it; otherwise there is one more error and no padding.
  pub finalize_frags-Org :
      (addr : ℕ) (frs : List (Frag Symbol)) (fr : Frag Symbol)
      → fr.kind ≡ rs_org
      → let off = u64_add (end_of addr frs) (frag_fix_size fr) in
        let next = end_of addr (frs ++ fr ∷ []) in
        let errors = errors_of addr (frs ++ fr ∷ []) in
        ((off ≤ org_target value fr) × (next ≡ org_target value fr) × (errors ≡ errors_of addr frs))
        ⊎ ((org_target value fr < off) × (next ≡ off) × (errors ≡ suc (errors_of addr frs)))
  finalize_frags-Org addr frs fr e =
      let off = u64_add (end_of addr frs) (frag_fix_size fr) in
      let (pad, back) = org_pad (end_of addr frs) fr e in
      elim (Bool-cases (ltb (org_target value fr) off)) [
        | inl l ↦ inr (
          ground arith,
          ground (arith, end_of-snoc addr frs fr, pad, l),
          ground (arith, errors_of-snoc addr frs fr, back, l),
        )
        | inr l ↦ inl (
          ground arith,
          ground (arith, end_of-snoc addr frs fr, pad, l, org_target_small fr),
          ground (arith, errors_of-snoc addr frs fr, back, l),
        )
      ]
