-- ===== src/Literal.antt =====
-- src/nyxstone.cpp, `parse_int`, with the part of the C library's `strtoll(p, &ep, 0)` that it uses:
-- an optional sign, the prefixes `0x` and `0` for the bases 16 and 8, and the clamp to `long long`.
-- The binary prefix `0b` of later C libraries is not read: such a digit ends the number, as in C++17.
pub mod Progress
pub mod Decimal
use nyxstone_tricore_gcc.Base.{
  ℕ, ◌+◌, ◌-◌, ◌*◌, ◌^◌, min, Bool, true, false, ◌&&◌, ◌||◌, Option, none, some, [], ◌∷◌, ltb, leb,
  ◌==◌, if◌then◌else◌, drop, Bytes, ℤ, pos, negsuc, neg_ℕ,
}
use nyxstone_tricore_gcc.Text.{is_digit, ltrim}

-- The value of a digit in a base up to 16, in either case.
unfoldable pub digit_value : ℕ → ℕ → Option ℕ
digit_value base c =
    let v =
      if leb b'0' c && leb c b'9'
      then c - b'0'
      else if leb b'a' c && leb c b'f'
      then c - b'a' + 10
      else if leb b'A' c && leb c b'F'
      then c - b'A' + 10
      else 16 in
    if ltb v base then some v else none

-- The digits from here on, on top of `acc`, and the text behind them.
unfoldable pub read_digits : ℕ → ℕ → Bytes → ℕ × Bytes
read_digits base acc [] = (acc, [])
read_digits base acc (c ∷ cs) = elim (digit_value base c) [
  | none ↦ (acc, c ∷ cs)
  | some d ↦ read_digits base (acc * base + d) cs
]

-- `0x` is a prefix only in front of a hexadecimal digit.
unfoldable pub has_hex_prefix : Bytes → Bool
has_hex_prefix (z ∷ x ∷ h ∷ cs) =
    z == b'0'
    && (x == b'x' || x == b'X')
    && elim (digit_value 16 h) [ none ↦ false | some d ↦ true ]
has_hex_prefix _ = false

abbrev starts_with_digit : Bytes → Bool
starts_with_digit [] = false
starts_with_digit (c ∷ cs) = is_digit c

abbrev starts_with : ℕ → Bytes → Bool
starts_with b [] = false
starts_with b (c ∷ cs) = c == b

-- `none` where no digits stand (`ep == p`).
unfoldable pub read_unsigned : Bytes → Option (ℕ × Bytes)
read_unsigned s =
    if has_hex_prefix s
    then some (read_digits 16 0 (drop 2 s))
    else if starts_with_digit s
    then some (read_digits (if starts_with b'0' s then 8 else 10) 0 s)
    else none

abbrev pub ll_max : ℕ
ll_max = 2 ^ 63 - 1

-- Out of range, `strtoll` returns LLONG_MAX or LLONG_MIN.
unfoldable pub signed_value : Bool → ℕ → ℤ
signed_value negative n =
    if negative then (if ltb ll_max n then negsuc ll_max else neg_ℕ n) else pos (min n ll_max)

unfoldable pub with_sign : Bool → Option (ℕ × Bytes) → Option (ℤ × Bytes)
unfolding signed_value
with_sign negative none = none
with_sign negative (some (n, rest)) = some (signed_value negative n, rest)

unfoldable pub strtoll : Bytes → Option (ℤ × Bytes)
unfolding with_sign
strtoll [] = none
strtoll (c ∷ cs) =
    if c == b'-'
    then with_sign true (read_unsigned cs)
    else with_sign false (read_unsigned (if c == b'+' then cs else c ∷ cs))

-- The value, and the text from `cur` on; `none` for `false`.
unfoldable pub parse_int : Bytes → Option (ℤ × Bytes)
unfolding strtoll ltrim read_unsigned read_digits has_hex_prefix digit_value is_digit
parse_int p = strtoll (ltrim p)
