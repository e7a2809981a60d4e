-- ===== src/GlueLayer/Sections/Padding.antt =====
-- The size of the padding that `.align` asks for.
use nyxstone_tricore_gcc.Base.{
  ℕ, suc, ◌+◌, ◌-◌, ◌*◌, ◌/◌, ◌%◌, ◌^◌, ◌≤◌, ◌<◌, bit_and, ◌≡◌, sym, ap, ◌∙◌, inl, inr, arith, ltb,
  ◌==◌, Bool-cases,
}
use nyxstone_tricore_gcc.Base.Bits.{pow_pos}
use nyxstone_tricore_gcc.Base.Fields.{bit_and-ones}
use nyxstone_tricore_gcc.GlueLayer.Sections.{align_pad}
use native.Mathlib.Nat.{
  mod-le, mod-lt, mod-add-div, mod-eq_of_lt, mod_self, mul-mod_right, mul-suc,
  mul-add-mod_self_left,
}

align_pad_eq : (p off : ℕ) → align_pad p off ≡ (2 ^ p - off % 2 ^ p) % 2 ^ p
unfolding align_pad
align_pad_eq p off =
    bit_and-ones p (2 ^ p - bit_and off (2 ^ p - 1))
    ∙ ap (λ (r : ℕ). (2 ^ p - r) % 2 ^ p) (bit_and-ones p off)

module _ (m : ℕ) (positive : 0 < m) where
  nothing_left : (r : ℕ) → r ≡ 0 → (m - r) % m ≡ 0
  nothing_left r e = let whole : m - r ≡ m = omega arith in ap (λ (x : ℕ). x % m) whole ∙ mod_self m

  filled_up : (off : ℕ) → (off + (m - off % m) % m) % m ≡ 0
  filled_up off = elim (Bool-cases (off % m == 0)) [
    | inl e ↦
        let none_left : off % m ≡ 0 = ground arith in
        let pad : (m - off % m) % m ≡ 0 = nothing_left (off % m) none_left in
        ap (λ (r : ℕ). (off + r) % m) pad ∙ ap (λ (r : ℕ). r % m) (omega arith) ∙ none_left
    | inr e ↦
        let some_left : 0 < off % m = ground arith in
        let pad : (m - off % m) % m ≡ m - off % m = mod-eq_of_lt (omega arith) in
        let whole : off + (m - off % m) % m ≡ m * suc (off / m) =
          omega (arith, pad, mod-add-div off m, mod-lt off positive, mul-suc m (off / m)) in
        ap (λ (r : ℕ). r % m) whole ∙ mul-mod_right m (suc (off / m))
  ]

  padding_least : (off n : ℕ) → (off + n) % m ≡ 0 → (m - off % m) % m ≤ n
  padding_least off n e = elim (Bool-cases (ltb n (m - off % m))) [
    | inl less ↦
        let small : off % m + n < m = ground (arith, mod-lt off positive) in
        let split : off + n ≡ m * (off / m) + (off % m + n) = omega (arith, mod-add-div off m) in
        let left : off % m + n ≡ 0 =
          sym (mod-eq_of_lt small)
          ∙ sym (mul-add-mod_self_left m (off / m) (off % m + n))
          ∙ ap (λ (r : ℕ). r % m) (sym split)
          ∙ e in
        let none_left : off % m ≡ 0 = omega arith in
        let pad : (m - off % m) % m ≡ 0 = nothing_left (off % m) none_left in omega arith
    | inr more ↦ ground (arith, mod-le (m - off % m) m)
  ]

pub align_pad-aligned : (p off : ℕ) → (off + align_pad p off) % 2 ^ p ≡ 0
align_pad-aligned p off = rw (align_pad_eq p off) (filled_up (2 ^ p) (pow_pos p) off)

-- It is the least one.
pub align_pad-least : (p off n : ℕ) → (off + n) % 2 ^ p ≡ 0 → align_pad p off ≤ n
align_pad-least p off n e = rw (align_pad_eq p off) (padding_least (2 ^ p) (pow_pos p) off n e)

pub align_pad-small : (p off : ℕ) → align_pad p off < 2 ^ p
align_pad-small p off = rw (align_pad_eq p off) (mod-lt (2 ^ p - off % 2 ^ p) (pow_pos p))
