-- ===== src/Directive/Alignment.antt =====
-- `.balign`: the exponent of the boundary.
use nyxstone_tricore_gcc.Base.{
  ℕ, zero, suc, ◌+◌, ◌-◌, ◌^◌, ◌≤◌, ◌<◌, bit_and, ◌≡◌, ap, ◌↔◌, ◌⊎◌, inl, inr, true, false, arith,
  ltb, Bool-cases, ℤ, pos, negsuc,
}
use nyxstone_tricore_gcc.Base.Bits.{power_of_cleared, pow_pos, cleared_of_power, pow_lt, lt_of_pow}
use nyxstone_tricore_gcc.Directive.{log2_loop, exponent, alignment_exponent}
use nyxstone_tricore_gcc.Literal.Decimal.{IsInt64}

log2_loop-power : (fuel p2 q : ℕ) → p2 ≤ q → q ≤ p2 + fuel → log2_loop fuel p2 (2 ^ q) ≡ q
unfolding log2_loop
log2_loop-power zero p2 q h l = omega arith
log2_loop-power (suc fuel) p2 q h l = elim (Bool-cases (ltb (2 ^ p2) (2 ^ q))) [
  | inl less ↦
      let further : p2 < q = lt_of_pow p2 q (ground arith) in
      rw less (log2_loop-power fuel (suc p2) q (omega arith) (omega arith))
  | inr stop ↦ rw stop (ground (arith, reached (Bool-cases (ltb p2 q))))
]
  where
    reached : (ltb p2 q ≡ true) ⊎ (ltb p2 q ≡ false) → ltb (2 ^ p2) (2 ^ q) ≡ false → p2 ≡ q
    reached (inl less) stop =
        let up : 2 ^ p2 < 2 ^ q = pow_lt (ground arith) in absurd (ground arith)
    reached (inr done) stop = ground arith

power_accepted : (p : ℕ) → 2 ^ p < 2 ^ 63 → alignment_exponent true (pos (2 ^ p)) ≡ exponent p
unfolding alignment_exponent
power_accepted p h =
    let small = lt_of_pow p 63 h in
    ground
      (arith, pow_pos p, cleared_of_power p, log2_loop-power 63 0 p (omega arith) (omega arith))

accepted-power :
    (b p : ℕ) → alignment_exponent true (pos b) ≡ exponent p → (0 < b) × (bit_and b (b - 1) ≡ 0)
unfolding alignment_exponent
accepted-power b p e = ground arith

negative_refused :
    (n p : ℕ) → alignment_exponent true (negsuc n) ≡ exponent p → negsuc n ≡ pos (2 ^ p)
unfolding alignment_exponent
negative_refused n p e = cc

-- For every operand of `.balign` that an `int64_t` can hold, negative ones included, the code
-- accepts exactly the powers of two, and the exponent that it finds is the operand's logarithm.
pub alignment_exponent-power :
    (v : ℤ) (p : ℕ) → IsInt64 v → (alignment_exponent true v ≡ exponent p) ↔ (v ≡ pos (2 ^ p))
alignment_exponent-power (negsuc n) p h = (negative_refused n p, λ e. cc)
alignment_exponent-power (pos b) p h = (
  λ e. logarithm e (power_of_cleared b (accepted-power b p e).0 (accepted-power b p e).1),
  λ e. let same : b ≡ 2 ^ p = cc e in rw same (power_accepted p (omega (arith, rw same at h))),
)
  where
    logarithm :
        alignment_exponent true (pos b) ≡ exponent p → (q : ℕ) × (b ≡ 2 ^ q) → pos b ≡ pos (2 ^ p)
    logarithm e (q, f) =
        let same : p ≡ q = cc (
          power_accepted q (omega (arith, rw f at h)),
          ap (λ k. alignment_exponent true (pos k)) f,
        ) in
        ap pos (rw same f)
