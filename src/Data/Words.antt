-- ===== src/Data/Words.antt =====
-- The bytes of a word, read back.
use nyxstone_tricore_gcc.Base.{
  ℕ, zero, suc, ◌+◌, ◌*◌, ◌/◌, ◌%◌, ◌^◌, ◌<◌, ◌≡◌, refl, sym, ap, ◌∙◌, [], ◌∷◌, arith, length,
  Bytes, ℤ, pos, negsuc, to_unsigned,
}
use nyxstone_tricore_gcc.Driver.{emit_bytes, Driver, glue}
use nyxstone_tricore_gcc.Data.{le_bytes, emit_word}
use native.Mathlib.Nat.{
  div-add-mod, mul-add-mod_self_left, mod-eq_of_lt, mod-lt, one-le-pow, pow-succ',
}
use native.Mathlib.Numerals.{towards_suc}

-- What a little-endian row of bytes stands for.
abbrev pub value_of : Bytes → ℕ
value_of [] = 0
value_of (b ∷ bs) = b + 256 * value_of bs

mod_split : (v m : ℕ) → 0 < m → v % (256 * m) ≡ v % 256 + 256 * (v / 256 % m)
mod_split v m p =
    let high = div-add-mod (v / 256) m in
    let whole : v ≡ 256 * m * (v / 256 / m) + (v % 256 + 256 * (v / 256 % m)) =
      omega (arith, high) in
    let small : v % 256 + 256 * (v / 256 % m) < 256 * m = omega (arith, mod-lt (v / 256) p) in
    ap (λ n. n % (256 * m)) whole
    ∙ mul-add-mod_self_left (256 * m) (v / 256 / m) _
    ∙ mod-eq_of_lt small

pub value_of-le_bytes : (n v : ℕ) → value_of (le_bytes n v) ≡ v % 256 ^ n
unfolding le_bytes
value_of-le_bytes zero v = omega arith
value_of-le_bytes (suc n) v =
    rw (value_of-le_bytes n (v / 256), pow-succ' 256 n)
      (sym (mod_split v (256 ^ n) (one-le-pow n 256 (omega arith))))

pub length-le_bytes : (n v : ℕ) → length (le_bytes n v) ≡ n
unfolding le_bytes
length-le_bytes zero v = refl
length-le_bytes (suc n) v = ap suc (length-le_bytes n (v / 256))

pow_step : (s : ℕ) → 2 ^ (s + 8) ≡ 256 * 2 ^ s
pow_step s = simp towards_suc (omega arith)

pow_bytes : (n : ℕ) → 2 ^ (8 * n) ≡ 256 ^ n
pow_bytes zero = refl
pow_bytes (suc n) =
    let here : 8 * suc n ≡ 8 * n + 8 = omega arith in
    rw here (pow_step (8 * n) ∙ ap (λ k. 256 * k) (pow_bytes n) ∙ sym (pow-succ' 256 n))

to_unsigned-lt : (w : ℕ) (z : ℤ) → to_unsigned w z < 2 ^ w
unfolding to_unsigned
to_unsigned-lt w (pos n) = mod-lt n (one-le-pow w 2 (omega arith))
to_unsigned-lt w (negsuc n) =
    omega (arith, mod-lt n (one-le-pow w 2 (omega arith)), one-le-pow w 2 (omega arith))

-- `emit_u8` to `emit_u64` hand the glue one call with as many bytes as the width says, which, lowest
-- byte first, stand for the value modulo 2 ^ (8 * width).
pub emit_word-value :
    (width : ℕ) (z : ℤ) (d : Driver)
    → (bs : Bytes) × (emit_word width z d ≡ glue (emit_bytes bs) d)
      × (length bs ≡ width)
      × (value_of bs ≡ to_unsigned (8 * width) z)
unfolding emit_word
emit_word-value width z d = (
  le_bytes width (to_unsigned (8 * width) z),
  refl,
  length-le_bytes width _,
  value_of-le_bytes width _ ∙ mod-eq_of_lt (rw (← pow_bytes width) (to_unsigned-lt (8 * width) z)),
)
