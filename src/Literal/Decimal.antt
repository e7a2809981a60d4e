-- ===== src/Literal/Decimal.antt =====
-- Decimal notation, as `parse_int` reads it.
use nyxstone_tricore_gcc.Base.{
  ℕ, zero, suc, ◌+◌, ◌*◌, ◌/◌, ◌%◌, ◌≤◌, ◌<◌, ◌≡◌, refl, ap, ◌∙◌, inl, inr, true, false, none, some,
  [], ◌∷◌, ◌++◌, append_assoc, arith, ltb, ◌==◌, if◌then◌else◌, Bool-cases, All, Bytes, ℤ, pos,
  negsuc,
}
use nyxstone_tricore_gcc.Text.{is_space, is_digit, ltrim}
use nyxstone_tricore_gcc.Literal.{
  digit_value, read_digits, has_hex_prefix, read_unsigned, ll_max, with_sign, strtoll, parse_int,
}

-- The digits of `n`, first digit first; `fuel` bounds their count.
pub digits_of : ℕ → ℕ → Bytes
digits_of zero n = (n + b'0') ∷ []
digits_of (suc fuel) n =
    let more = digits_of fuel (n / 10) ++ (n % 10 + b'0') ∷ [] in
    if ltb n 10 then (n + b'0') ∷ [] else more

unfoldable pub decimal : ℕ → Bytes
unfolding digits_of
decimal n = digits_of n n

unfoldable pub print_int : ℤ → Bytes
unfolding decimal
print_int (pos n) = decimal n
print_int (negsuc n) = b'-' ∷ decimal (suc n)

-- The text behind a number: its end, or a byte below the digits, such as a space or a comma.
abbrev pub EndsNumber : Bytes → Type 0
EndsNumber [] = Unit
EndsNumber (c ∷ cs) = c < b'0'

abbrev pub IsInt64 : ℤ → Type 0
IsInt64 (pos n) = n ≤ ll_max
IsInt64 (negsuc n) = n ≤ ll_max

digit_value-below : (base c : ℕ) → base ≤ 16 → c < b'0' → digit_value base c ≡ none
unfolding digit_value
digit_value-below base c b h = ground arith

pub read_digits-end :
    (base acc : ℕ) (rest : Bytes)
    → base ≤ 16
    → EndsNumber rest
    → read_digits base acc rest ≡ (acc, rest)
unfolding read_digits
read_digits-end base acc [] b h = refl
read_digits-end base acc (c ∷ cs) b h = ground (arith, digit_value-below base c)

digit_value-decimal : (d : ℕ) → d < 10 → digit_value 10 (d + b'0') ≡ some d
unfolding digit_value
digit_value-decimal d h = ground arith

read_digits-digit :
    (acc d : ℕ) (rest : Bytes)
    → d < 10
    → read_digits 10 acc ((d + b'0') ∷ rest) ≡ read_digits 10 (acc * 10 + d) rest
unfolding read_digits
read_digits-digit acc d rest h = ground (arith, digit_value-decimal d h)

read_digits-alone :
    (n : ℕ) (rest : Bytes) → n < 10 → read_digits 10 0 ((n + b'0') ∷ rest) ≡ read_digits 10 n rest
read_digits-alone n rest h =
    let here : 0 * 10 + n ≡ n = omega arith in
    read_digits-digit 0 n rest h ∙ ap (λ k. read_digits 10 k rest) here

read_digits-digits_of :
    (fuel n : ℕ) (rest : Bytes)
    → n ≤ fuel
    → read_digits 10 0 (digits_of fuel n ++ rest) ≡ read_digits 10 n rest
unfolding digits_of
read_digits-digits_of zero n rest h = read_digits-alone n rest (omega arith)
read_digits-digits_of (suc fuel) n rest h = elim (Bool-cases (ltb n 10)) [
  | inl small ↦ rw small (read_digits-alone n rest (ground arith))
  | inr large ↦
      let here : n / 10 * 10 + n % 10 ≡ n = omega arith in
      rw large (
        rw append_assoc (
          read_digits-digits_of fuel (n / 10) ((n % 10 + b'0') ∷ rest) (ground arith)
          ∙ read_digits-digit (n / 10) (n % 10) rest (omega arith)
          ∙ ap (λ k. read_digits 10 k rest) here))
]

-- A number above zero does not begin with the digit zero.
abbrev BeginsBase10 : Bytes → Type 0
BeginsBase10 [] = ⊥
BeginsBase10 (c ∷ cs) = (is_digit c ≡ true) × ((c == b'0') ≡ false)

BeginsBase10-append : (s t : Bytes) → BeginsBase10 s → BeginsBase10 (s ++ t)
BeginsBase10-append [] t h = absurd h
BeginsBase10-append (c ∷ s) t h = h

digits_of-BeginsBase10 : (fuel n : ℕ) → n ≤ fuel → 0 < n → BeginsBase10 (digits_of fuel n)
unfolding digits_of is_digit
digits_of-BeginsBase10 zero n h p = ground arith
digits_of-BeginsBase10 (suc fuel) n h p = elim (Bool-cases (ltb n 10)) [
  | inl small ↦ rw small (ground arith)
  | inr large ↦ rw large (
      BeginsBase10-append (digits_of fuel (n / 10)) _
        (digits_of-BeginsBase10 fuel (n / 10) (ground arith) (ground arith)))
]

read_unsigned-base10 : (s : Bytes) → BeginsBase10 s → read_unsigned s ≡ some (read_digits 10 0 s)
unfolding read_unsigned has_hex_prefix
read_unsigned-base10 [] h = absurd h
read_unsigned-base10 (c ∷ []) h = ground arith
read_unsigned-base10 (c ∷ d ∷ []) h = ground arith
read_unsigned-base10 (c ∷ d ∷ e ∷ s) h = ground arith

read_unsigned-zero : (rest : Bytes) → EndsNumber rest → read_unsigned (b'0' ∷ rest) ≡ some (0, rest)
unfolding read_unsigned has_hex_prefix is_digit
read_unsigned-zero [] h = unfold read_digits digit_value in refl
read_unsigned-zero (c ∷ []) h = unfold read_digits digit_value in ground arith
read_unsigned-zero (c ∷ d ∷ rest) h = unfold read_digits digit_value in ground arith

read_unsigned-decimal :
    (n : ℕ) (rest : Bytes) → EndsNumber rest → read_unsigned (decimal n ++ rest) ≡ some (n, rest)
unfolding decimal
read_unsigned-decimal zero rest h = unfold digits_of in read_unsigned-zero rest h
read_unsigned-decimal (suc n) rest h =
    read_unsigned-base10 _ (
      BeginsBase10-append _ rest
        (digits_of-BeginsBase10 (suc n) (suc n) (omega arith) (omega arith)))
    ∙ ap some (
        read_digits-digits_of (suc n) (suc n) rest (omega arith)
        ∙ read_digits-end 10 (suc n) rest (omega arith) h)

abbrev HeadIsDigit : Bytes → Type 0
HeadIsDigit [] = ⊥
HeadIsDigit (c ∷ cs) = is_digit c ≡ true

decimal-HeadIsDigit : (n : ℕ) (rest : Bytes) → HeadIsDigit (decimal n ++ rest)
unfolding decimal is_digit
decimal-HeadIsDigit zero rest = unfold digits_of in refl
decimal-HeadIsDigit (suc n) rest = weaken _ (
    BeginsBase10-append _ rest (digits_of-BeginsBase10 (suc n) (suc n) (omega arith) (omega arith)))
  where
    weaken : (t : Bytes) → BeginsBase10 t → HeadIsDigit t
    weaken [] h = h
    weaken (c ∷ t) h = h.0

strtoll-unsigned : (s : Bytes) → HeadIsDigit s → strtoll s ≡ with_sign false (read_unsigned s)
unfolding strtoll is_digit
strtoll-unsigned [] h = absurd h
strtoll-unsigned (c ∷ s) h = ground arith

strtoll-print_int :
    (z : ℤ) (rest : Bytes)
    → IsInt64 z
    → EndsNumber rest
    → strtoll (print_int z ++ rest) ≡ some (z, rest)
unfolding print_int with_sign
strtoll-print_int (pos n) rest h e =
    strtoll-unsigned (decimal n ++ rest) (decimal-HeadIsDigit n rest)
    ∙ ap (with_sign false) (read_unsigned-decimal n rest e)
    ∙ ground arith
strtoll-print_int (negsuc n) rest h e =
    unfold strtoll in rw (read_unsigned-decimal (suc n) rest e) (ground arith)

ltrim-print_int : (z : ℤ) (rest : Bytes) → ltrim (print_int z ++ rest) ≡ print_int z ++ rest
unfolding print_int
ltrim-print_int (pos n) rest = solid (decimal n ++ rest) (decimal-HeadIsDigit n rest)
  where
    solid : (t : Bytes) → HeadIsDigit t → ltrim t ≡ t
    solid [] h = absurd h
    solid (c ∷ t) h = unfold ltrim is_digit in ground arith
ltrim-print_int (negsuc n) rest = unfold ltrim in refl

pub ltrim-spaces : (sp s : Bytes) → All (λ c. is_space c ≡ true) sp → ltrim (sp ++ s) ≡ ltrim s
unfolding ltrim
ltrim-spaces [] s h = refl
ltrim-spaces (c ∷ sp) s h = ground (arith, ltrim-spaces sp s)

-- Every integer of 64 bits, printed in decimal with any spaces in front, is read back by
-- `parse_int`, which leaves what stands behind it: nothing, or a text that begins below the digits.
pub parse_int-print_int :
    (sp : Bytes) (z : ℤ) (rest : Bytes)
    → All (λ c. is_space c ≡ true) sp
    → IsInt64 z
    → EndsNumber rest
    → parse_int (sp ++ (print_int z ++ rest)) ≡ some (z, rest)
unfolding parse_int
parse_int-print_int sp z rest b h e =
    rw (ltrim-spaces sp (print_int z ++ rest) b, ltrim-print_int z rest)
      (strtoll-print_int z rest h e)
