-- ===== src/Literal/Progress.antt =====
-- A number that is read takes at least one byte.
use nyxstone_tricore_gcc.Base.{
  ℕ, suc, ◌+◌, ◌-◌, ◌*◌, ◌≤◌, ◌<◌, ◌≡◌, subst, inl, inr, Bool, true, false, Option, none, some, [],
  ◌∷◌, arith, ◌==◌, if◌then◌else◌, Bool-cases, length, drop, Bytes, ℤ,
}
use nyxstone_tricore_gcc.Text.{is_digit, ltrim}
use nyxstone_tricore_gcc.Text.Trim.{length-ltrim}
use nyxstone_tricore_gcc.Literal.{
  digit_value, read_digits, has_hex_prefix, read_unsigned, with_sign, strtoll, parse_int,
}

length-read_digits : (base acc : ℕ) (s : Bytes) → length (read_digits base acc s).1 ≤ length s
unfolding read_digits
length-read_digits base acc [] = omega arith
length-read_digits base acc (c ∷ cs) =
    grind (arith, λ (d : ℕ). length-read_digits base (acc * base + d) cs)

length-read_first :
    (base acc : ℕ) (c d : ℕ) (s : Bytes)
    → digit_value base c ≡ some d
    → length (read_digits base acc (c ∷ s)).1 ≤ length s
unfolding read_digits
length-read_first base acc c d s e = ground (arith, length-read_digits base (acc * base + d) s)

length-read_hex :
    (s : Bytes) → has_hex_prefix s ≡ true → suc (length (read_digits 16 0 (drop 2 s)).1) ≤ length s
unfolding has_hex_prefix
length-read_hex [] h = absurd (ground arith)
length-read_hex (z ∷ []) h = absurd (ground arith)
length-read_hex (z ∷ x ∷ []) h = absurd (ground arith)
length-read_hex (z ∷ x ∷ d ∷ s) h = omega (arith, length-read_digits 16 0 (d ∷ s))

length-read_plain :
    (c : ℕ) (s : Bytes)
    → is_digit c ≡ true
    → length (read_digits (if c == b'0' then 8 else 10) 0 (c ∷ s)).1 ≤ length s
length-read_plain c s h = elim (Bool-cases (c == b'0')) [
  | inl z ↦
      let d : digit_value 8 c ≡ some 0 = unfold digit_value in ground arith in
      rw z (length-read_first 8 0 c 0 s d)
  | inr n ↦
      let d : digit_value 10 c ≡ some (c - b'0') = unfold digit_value is_digit in ground arith in
      rw n (length-read_first 10 0 c (c - b'0') s d)
]

-- The text behind a number is shorter than the text that the number begins.
abbrev pub Shorter {ℓ} : {A : Type ℓ} → Option (A × Bytes) → Bytes → Type 0
Shorter none s = Unit
Shorter (some (_, rest)) s = suc (length rest) ≤ length s

read_unsigned-Shorter : (s : Bytes) → Shorter (read_unsigned s) s
unfolding read_unsigned
read_unsigned-Shorter [] = unfold has_hex_prefix in tt
read_unsigned-Shorter (c ∷ s) = ground (arith, length-read_hex (c ∷ s), length-read_plain c s)

with_sign-Shorter :
    (negative : Bool) (r : Option (ℕ × Bytes)) (s : Bytes)
    → Shorter r s
    → Shorter (with_sign negative r) s
unfolding with_sign
with_sign-Shorter negative none s h = tt
with_sign-Shorter negative (some (n, rest)) s h = h

pub Shorter-cons {ℓ} :
    {A : Type ℓ} (r : Option (A × Bytes)) (c : ℕ) (s : Bytes) → Shorter r s → Shorter r (c ∷ s)
Shorter-cons none c s h = tt
Shorter-cons (some (n, rest)) c s h = omega arith

pub strtoll-Shorter : (s : Bytes) → Shorter (strtoll s) s
unfolding strtoll
strtoll-Shorter [] = tt
strtoll-Shorter (c ∷ cs) =
    let tail = read_unsigned-Shorter cs in
    let minus = Shorter-cons _ c cs (with_sign-Shorter true _ cs tail) in
    let plus = Shorter-cons _ c cs (with_sign-Shorter false _ cs tail) in
    let bare = with_sign-Shorter false _ (c ∷ cs) (read_unsigned-Shorter (c ∷ cs)) in
    elim (Bool-cases (c == b'-')) [
      | inl m ↦ rw m minus
      | inr n ↦ rw n (elim (Bool-cases (c == b'+')) [ inl p ↦ rw p plus | inr q ↦ rw q bare ])
    ]

-- A number that `parse_int` reads takes at least one byte, so the loops that call it end.
pub parse_int-Shorter : (s : Bytes) → Shorter (parse_int s) s
unfolding parse_int
parse_int-Shorter s = lengthen (strtoll (ltrim s)) (strtoll-Shorter (ltrim s))
  where
    lengthen : (r : Option (ℤ × Bytes)) → Shorter r (ltrim s) → Shorter r s
    lengthen none h = tt
    lengthen (some (n, rest)) h = omega (arith, length-ltrim s)

pub length-parse_int :
    (s : Bytes) {v : ℤ} {rest : Bytes} → parse_int s ≡ some (v, rest) → length rest < length s
length-parse_int s {v} {rest} e = subst (λ r. Shorter r s) e (parse_int-Shorter s)
