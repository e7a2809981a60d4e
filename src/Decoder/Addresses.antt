-- ===== src/Decoder/Addresses.antt =====
-- The addresses that a disassembled instruction shows, as `parse_int` reads them.
use nyxstone_tricore_gcc.Base.{
  ℕ, zero, suc, ◌+◌, ◌*◌, ◌/◌, ◌%◌, ◌^◌, ◌<◌, ◌≡◌, refl, ap, ◌∙◌, inl, inr, true, false, some, [],
  ◌∷◌, ◌++◌, append_assoc, arith, ltb, Bool-cases, All, Bytes, codes, pos,
}
use nyxstone_tricore_gcc.Text.{is_space, ltrim}
use nyxstone_tricore_gcc.Literal.{
  digit_value, read_digits, has_hex_prefix, read_unsigned, signed_value, with_sign, strtoll,
  parse_int,
}
use nyxstone_tricore_gcc.Literal.Decimal.{EndsNumber, read_digits-end, ltrim-spaces}
use nyxstone_tricore_gcc.Decoder.{hex_digit, hex_digits, dis_print_address}
use native.Mathlib.Nat.{pow-suc}

digit_value-hex_digit : (d : ℕ) → d < 16 → digit_value 16 (hex_digit d) ≡ some d
unfolding digit_value hex_digit
digit_value-hex_digit d h = ground arith

read_digits-hex_digit :
    (acc d : ℕ) (rest : Bytes)
    → d < 16
    → read_digits 16 acc (hex_digit d ∷ rest) ≡ read_digits 16 (acc * 16 + d) rest
unfolding read_digits
read_digits-hex_digit acc d rest h = ground (arith, digit_value-hex_digit d h)

read_digits-single :
    (v : ℕ) (rest : Bytes) → v < 16 → read_digits 16 0 (hex_digit v ∷ rest) ≡ read_digits 16 v rest
read_digits-single v rest h =
    let here : 0 * 16 + v ≡ v = omega arith in
    read_digits-hex_digit 0 v rest h ∙ ap (λ k. read_digits 16 k rest) here

read_digits-hex_digits :
    (n v : ℕ) (rest : Bytes)
    → v < 16 ^ suc n
    → read_digits 16 0 (hex_digits n v ++ rest) ≡ read_digits 16 v rest
unfolding hex_digits
read_digits-hex_digits zero v rest h = read_digits-single v rest (omega (arith, h))
read_digits-hex_digits (suc n) v rest h = elim (Bool-cases (ltb v 16)) [
  | inl small ↦ rw small (read_digits-single v rest (ground arith))
  | inr large ↦
      let here : v / 16 * 16 + v % 16 ≡ v = omega arith in
      let smaller : v / 16 < 16 ^ suc n = omega (arith, h, pow-suc 16 (suc n)) in
      rw large (
        rw append_assoc (
          read_digits-hex_digits n (v / 16) (hex_digit (v % 16) ∷ rest) smaller
          ∙ read_digits-hex_digit (v / 16) (v % 16) rest (omega arith)
          ∙ ap (λ k. read_digits 16 k rest) here))
]

-- The text begins with a hexadecimal digit.
abbrev BeginsHex : Bytes → Type 0
BeginsHex [] = ⊥
BeginsHex (c ∷ cs) = (d : ℕ) × (digit_value 16 c ≡ some d)

BeginsHex-append : (s t : Bytes) → BeginsHex s → BeginsHex (s ++ t)
BeginsHex-append [] t h = absurd h
BeginsHex-append (c ∷ s) t h = h

hex_digits-BeginsHex : (n v : ℕ) → v < 16 ^ suc n → BeginsHex (hex_digits n v)
unfolding hex_digits
hex_digits-BeginsHex zero v h = (v, digit_value-hex_digit v (omega (arith, h)))
hex_digits-BeginsHex (suc n) v h = elim (Bool-cases (ltb v 16)) [
  | inl small ↦ rw small (v, digit_value-hex_digit v (ground arith))
  | inr large ↦
      let smaller : v / 16 < 16 ^ suc n = omega (arith, h, pow-suc 16 (suc n)) in
      rw large
        (BeginsHex-append (hex_digits n (v / 16)) _ (hex_digits-BeginsHex n (v / 16) smaller))
]

read_unsigned-prefixed :
    (s : Bytes) → BeginsHex s → read_unsigned (codes "0x" ++ s) ≡ some (read_digits 16 0 s)
unfolding read_unsigned has_hex_prefix
read_unsigned-prefixed [] h = absurd h
read_unsigned-prefixed (c ∷ s) (d, e) = rw e refl

strtoll-prefixed :
    (s : Bytes)
    → BeginsHex s
    → strtoll (codes "0x" ++ s) ≡ with_sign false (some (read_digits 16 0 s))
unfolding strtoll
strtoll-prefixed s h = ap (with_sign false) (read_unsigned-prefixed s h)

-- Every address that `dis_print_address` prints, with any spaces in front, is read back by
-- `parse_int` modulo 2 ^ 32, whatever stands behind it: nothing, or a text that begins below the
-- digits.
pub parse_int-dis_print_address :
    (sp : Bytes) (addr : ℕ) (rest : Bytes)
    → All (λ c. is_space c ≡ true) sp
    → EndsNumber rest
    → parse_int (sp ++ (dis_print_address addr ++ rest)) ≡ some (pos (addr % 2 ^ 32), rest)
unfolding parse_int dis_print_address ltrim
parse_int-dis_print_address sp addr rest b e =
    let v = addr % 2 ^ 32 in
    let small : v < 16 ^ 8 = omega arith in
    let digits = hex_digits 7 v ++ rest in
    let begins = BeginsHex-append (hex_digits 7 v) rest (hex_digits-BeginsHex 7 v small) in
    let read : read_digits 16 0 digits ≡ (v, rest) =
      read_digits-hex_digits 7 v rest small ∙ read_digits-end 16 v rest (omega arith) e in
    ap strtoll (ltrim-spaces sp (codes "0x" ++ digits) b)
    ∙ strtoll-prefixed digits begins
    ∙ ap (λ r. with_sign false (some r)) read
    ∙ unfold with_sign signed_value in ground arith
