-- ===== src/Base/Bits.antt =====
-- `b & (b - 1)`, and the powers of two.
use Prim.Native.Nat.{
  ℕ, zero, suc, ◌+◌, ◌-◌, ◌*◌, ◌/◌, ◌%◌, ◌^◌, ◌≤◌, ◌<◌, min, bit_and, bit_and-bitwise, digits,
}
use mathlib.Core.Path.{◌≡◌, refl, ap, ap₂}
use mathlib.Core.Logic.{inl, inr}
use nyxstone_tricore_gcc.Base.Tests.{ltb, ◌==◌, Bool-cases}
use native.Mathlib.Omega.{arith}
use native.Mathlib.Nat.{pow-succ', one-le-pow, pow-le-pow_right}

-- More rounds than digits change nothing.
rounds_agree :
    (n k a b : ℕ) → a ≤ n → a ≤ k → digits (λ _. zero) min n a b ≡ digits (λ _. zero) min k a b
rounds_agree zero zero a b h l = refl
rounds_agree zero (suc k) zero b h l = refl
rounds_agree zero (suc k) (suc a) b h l = absurd (omega arith)
rounds_agree (suc n) zero zero b h l = refl
rounds_agree (suc n) zero (suc a) b h l = absurd (omega arith)
rounds_agree (suc n) (suc k) zero b h l = refl
rounds_agree (suc n) (suc k) (suc a) b h l =
    let halves = rounds_agree n k (suc a / 2) (b / 2) (omega arith) (omega arith) in
    ap (λ t. t * 2 + min (suc a % 2) (b % 2)) halves

-- The lowest digit, and the digits above it.
pub bit_and-halves :
    (a b : ℕ) → 0 < a → bit_and a b ≡ 2 * bit_and (a / 2) (b / 2) + min (a % 2) (b % 2)
bit_and-halves zero b h = absurd (omega arith)
bit_and-halves (suc a) b h =
    let half = suc a / 2 in
    let above = rounds_agree a half half (b / 2) (omega arith) (omega arith) in
    omega (arith, bit_and-bitwise (suc a) b, bit_and-bitwise half (b / 2), above)

zero_and : (b : ℕ) → bit_and 0 b ≡ 0
zero_and b = bit_and-bitwise 0 b

and_self_below : (k a : ℕ) → a ≤ k → bit_and a a ≡ a
and_self_below k zero h = refl
and_self_below zero (suc a) h = absurd (omega arith)
and_self_below (suc k) (suc a) h = omega (
  arith,
  bit_and-halves (suc a) (suc a) (omega arith),
  and_self_below k (suc a / 2) (omega arith),
)

-- The power of which `b` is, if clearing the lowest one of `b` leaves nothing.
power_below : (k b : ℕ) → b ≤ k → 0 < b → bit_and b (b - 1) ≡ 0 → (p : ℕ) × (b ≡ 2 ^ p)
power_below zero b h pos e = absurd (omega arith)
power_below (suc k) zero h pos e = absurd (omega arith)
power_below (suc k) (suc a) h pos e = elim (Bool-cases (suc a % 2 == 0)) [
  | inl even ↦
      let c = suc a / 2 in
      let is_even : suc a ≡ 2 * c = ground arith in
      let below : (suc a - 1) / 2 ≡ c - 1 = omega arith in
      let halves = bit_and-halves (suc a) (suc a - 1) (omega arith) in
      let cleared : bit_and c (c - 1) ≡ 0 = omega (arith, e, halves, ap (bit_and c) below) in
      let (p, power) = power_below k c (omega arith) (omega arith) cleared in
      (suc p, omega (arith, power, pow-succ' 2 p))
  | inr odd ↦
      let c = suc a / 2 in
      let is_odd : suc a ≡ 2 * c + 1 = ground arith in
      let below : (suc a - 1) / 2 ≡ c = omega arith in
      let halves = bit_and-halves (suc a) (suc a - 1) (omega arith) in
      (0, omega (arith, e, halves, ap (bit_and c) below, and_self_below c c (omega arith)))
]

pub power_of_cleared : (b : ℕ) → 0 < b → bit_and b (b - 1) ≡ 0 → (p : ℕ) × (b ≡ 2 ^ p)
power_of_cleared b = power_below b b (omega arith)

pub pow_pos : (p : ℕ) → 0 < 2 ^ p
pow_pos p = one-le-pow p 2 (omega arith)

pub cleared_of_power : (p : ℕ) → bit_and (2 ^ p) (2 ^ p - 1) ≡ 0
cleared_of_power zero = refl
cleared_of_power (suc p) =
    let double = pow-succ' 2 p in
    let halves = bit_and-halves (2 ^ suc p) (2 ^ suc p - 1) (pow_pos (suc p)) in
    let half : 2 ^ suc p / 2 ≡ 2 ^ p = omega (arith, double) in
    let below : (2 ^ suc p - 1) / 2 ≡ 2 ^ p - 1 = omega (arith, double, pow_pos p) in
    omega (arith, halves, ap₂ bit_and half below, cleared_of_power p, double)

pub pow_lt : {p q : ℕ} → p < q → 2 ^ p < 2 ^ q
pow_lt {p} {q} h = omega (arith, pow-le-pow_right {n = 2} (omega arith) h, pow-succ' 2 p, pow_pos p)

pub lt_of_pow : (p q : ℕ) → 2 ^ p < 2 ^ q → p < q
lt_of_pow p q h = elim (Bool-cases (ltb p q)) [
  | inl l ↦ ground arith
  | inr n ↦
      let back : q ≤ p = ground arith in
      absurd (omega (arith, pow-le-pow_right {n = 2} (omega arith) back))
]
