-- ===== src/Data/Strings.antt =====
-- Quoted text is read back by `emit_ascii`.
use nyxstone_tricore_gcc.Base.{
  ℕ, zero, suc, ◌<◌, ◌≡◌, refl, sym, ap, subst, ◌∙◌, inl, inr, Bool, true, false, ◌||◌, Option,
  none, some, List, [], ◌∷◌, ◌++◌, append-nil, append_assoc, arith, ◌==◌, if◌then◌else◌, Bool-cases,
  Option-cases, length, length-append, Bytes, codes, to_unsigned,
}
use nyxstone_tricore_gcc.Text.{ltrim}
use nyxstone_tricore_gcc.Text.Trim.{length-ltrim}
use nyxstone_tricore_gcc.Literal.Progress.{Shorter, Shorter-cons}
use nyxstone_tricore_gcc.Driver.{GlueCall, emit_bytes, Driver, directive_error}
use nyxstone_tricore_gcc.Data.{
  le_bytes, emit_word, skip_comma, unescape, push_byte, read_string, emit_string, ascii_loop,
  emit_ascii,
}
use nyxstone_tricore_gcc.Data.IntList.{length-skip_comma, Bytes-cases}

-- A string between quotes, with a backslash before each quote and backslash.
unfoldable pub escaped_text : Bytes → Bytes
escaped_text [] = b'"' ∷ []
escaped_text (c ∷ cs) =
    if c == b'"' || c == b'\\' then b'\\' ∷ c ∷ escaped_text cs else c ∷ escaped_text cs

unfoldable pub quoted : Bytes → Bytes
unfolding escaped_text
quoted s = b'"' ∷ escaped_text s

-- Quoted strings, each with a comma and a space behind it, and the last with nothing.
unfoldable pub quoted_list : List Bytes → Bytes
unfolding quoted
quoted_list [] = []
quoted_list (s ∷ []) = quoted s
quoted_list (s ∷ t ∷ ss) = quoted s ++ b',' ∷ b' ' ∷ quoted_list (t ∷ ss)

abbrev emit_strings : Bool → List Bytes → Driver → Driver
emit_strings z [] d = d
emit_strings z (s ∷ ss) d = emit_strings z ss (emit_string z s d)

read_string-plain :
    (c : ℕ) (cs : Bytes)
    → (c == b'"' || c == b'\\') ≡ false
    → read_string (c ∷ cs) ≡ push_byte c (read_string cs)
unfolding read_string
read_string-plain c [] h = ground arith
read_string-plain c (d ∷ cs) h = ground arith

unescape-quoted : (c : ℕ) → (c == b'"' || c == b'\\') ≡ true → unescape c ≡ c
unfolding unescape
unescape-quoted c h = ground arith

read_string-escape :
    (c : ℕ) (cs : Bytes)
    → (c == b'"' || c == b'\\') ≡ true
    → read_string (b'\\' ∷ c ∷ cs) ≡ push_byte c (read_string cs)
read_string-escape c cs h =
    unfold read_string in ap (λ k. push_byte k (read_string cs)) (unescape-quoted c h)

read_string-escaped_text : (s rest : Bytes) → read_string (escaped_text s ++ rest) ≡ some (s, rest)
unfolding escaped_text
read_string-escaped_text [] [] = unfold read_string in refl
read_string-escaped_text [] (c ∷ rest) = unfold read_string in refl
read_string-escaped_text (c ∷ s) rest = elim (Bool-cases (c == b'"' || c == b'\\')) [
  | inl e ↦ rw e (
      read_string-escape c (escaped_text s ++ rest) e
      ∙ ap (push_byte c) (read_string-escaped_text s rest))
  | inr n ↦ rw n (
      read_string-plain c (escaped_text s ++ rest) n
      ∙ ap (push_byte c) (read_string-escaped_text s rest))
]

push_byte-Shorter :
    (b c : ℕ) (r : Option (Bytes × Bytes)) (s : Bytes)
    → Shorter r s
    → Shorter (push_byte b r) (c ∷ s)
push_byte-Shorter b c none s h = tt
push_byte-Shorter b c (some (out, rest)) s h = omega arith

read_string-Shorter : (s : Bytes) → Shorter (read_string s) s
unfolding read_string
read_string-Shorter [] = tt
read_string-Shorter (c ∷ []) = ground arith
read_string-Shorter (c ∷ e ∷ s) =
    let plain = push_byte-Shorter c c (read_string (e ∷ s)) (e ∷ s) (read_string-Shorter (e ∷ s)) in
    let escaped = push_byte-Shorter (unescape e) e (read_string s) s (read_string-Shorter s) in
    let longer = Shorter-cons (push_byte (unescape e) (read_string s)) c (e ∷ s) escaped in
    elim (Bool-cases (c == b'"')) [
      | inl q ↦ rw q (omega arith)
      | inr n ↦ rw n (elim (Bool-cases (c == b'\\')) [ inl b ↦ rw b longer | inr m ↦ rw m plain ])
    ]

length-read_string :
    (s : Bytes) {out rest : Bytes} → read_string s ≡ some (out, rest) → length rest < length s
length-read_string s e = subst (λ r. Shorter r s) e (read_string-Shorter s)

-- The loop of `emit_ascii` ends, with one round for each byte and one more.
pub ascii_loop_total :
    (fuel : ℕ) (name args : Bytes) (z any : Bool) (p : Bytes) (d : Driver)
    → length p < fuel
    → (d' : Driver) × (ascii_loop fuel name args z any p d ≡ some d')
unfolding ascii_loop
ascii_loop_total zero name args z any p d h = absurd (omega arith)
ascii_loop_total (suc fuel) name args z any p d h = elim (Bytes-cases (ltrim p)) [
  | inl e ↦ (
    if any then d else directive_error (name ++ codes ": expected a quoted string") d,
    ground arith,
  )
  | inr (c, cs, e) ↦ elim (Bool-cases (c == b'"')) [
    | inr n ↦ (
      directive_error (name ++ (codes ": expected a quoted string, got '" ++ (args ++ codes "'")))
          d,
      ground arith,
    )
    | inl q ↦ elim (Option-cases (read_string cs)) [
      | inl r ↦ (directive_error (name ++ codes ": unterminated string") d, ground arith)
      | inr ((out, rest), r) ↦
          let fits : length (skip_comma (ltrim rest)) < fuel = omega (
            arith,
            length-skip_comma (ltrim rest),
            length-ltrim rest,
            length-read_string cs r,
            length-ltrim p,
            ap length e,
          ) in
          let (d', onward) =
            ascii_loop_total fuel name args z true (skip_comma (ltrim rest)) (emit_string z out d)
              fits in
          (d', ground (arith, onward))
    ]
  ]
]

module _ (name args : Bytes) (z : Bool) where
  ascii_loop-quoted :
      (fuel : ℕ) (any : Bool) (s rest : Bytes) (d : Driver)
      → ascii_loop (suc fuel) name args z any (quoted s ++ rest) d
        ≡ ascii_loop fuel name args z true (skip_comma (ltrim rest)) (emit_string z s d)
  unfolding ascii_loop quoted
  ascii_loop-quoted fuel any s rest d = rw (read_string-escaped_text s rest)

  ascii_loop-space :
      (fuel : ℕ) (any : Bool) (p : Bytes) (d : Driver)
      → ascii_loop fuel name args z any (b' ' ∷ p) d ≡ ascii_loop fuel name args z any p d
  unfolding ascii_loop
  ascii_loop-space zero any p d = refl
  ascii_loop-space (suc fuel) any p d = refl

  ascii_loop-end :
      (fuel : ℕ) (d : Driver)
      → ascii_loop (suc fuel) name args z true (skip_comma (ltrim [])) d ≡ some d
  unfolding ascii_loop
  ascii_loop-end fuel d = refl

  ascii_loop-separator :
      (fuel : ℕ) (p : Bytes) (d : Driver)
      → ascii_loop fuel name args z true (skip_comma (ltrim (b',' ∷ b' ' ∷ p))) d
        ≡ ascii_loop fuel name args z true p d
  ascii_loop-separator fuel p d = unfold ltrim skip_comma in ascii_loop-space fuel true p d

  ascii_loop-quoted_list :
      (fuel : ℕ) (any : Bool) (s : Bytes) (ss : List Bytes) (d : Driver)
      → length (quoted_list (s ∷ ss)) < fuel
      → ascii_loop fuel name args z any (quoted_list (s ∷ ss)) d ≡ some (emit_strings z (s ∷ ss) d)
  unfolding quoted_list
  ascii_loop-quoted_list zero any s ss d h = absurd (omega arith)
  ascii_loop-quoted_list (suc zero) any s [] d h = absurd (omega arith)
  ascii_loop-quoted_list (suc (suc fuel)) any s [] d h =
      ap (λ p. ascii_loop (suc (suc fuel)) name args z any p d) (sym (append-nil (quoted s)))
      ∙ ascii_loop-quoted (suc fuel) any s [] d
      ∙ ascii_loop-end fuel (emit_string z s d)
  ascii_loop-quoted_list (suc fuel) any s (t ∷ ss) d h =
      let separated = length-append (quoted s) (b',' ∷ b' ' ∷ quoted_list (t ∷ ss)) in
      ascii_loop-quoted fuel any s (b',' ∷ b' ' ∷ quoted_list (t ∷ ss)) d
      ∙ ascii_loop-separator fuel (quoted_list (t ∷ ss)) (emit_string z s d)
      ∙ ascii_loop-quoted_list fuel true t ss (emit_string z s d) (omega (arith, separated))

-- What the glue is to be given for the strings: the bytes of each, and a byte 0 behind each one if
-- strings end with a NUL.
abbrev pub string_calls : Bool → List Bytes → List GlueCall
string_calls z [] = []
string_calls true (s ∷ ss) = emit_bytes s ∷ emit_bytes (0 ∷ []) ∷ string_calls true ss
string_calls false (s ∷ ss) = emit_bytes s ∷ string_calls false ss

emit_strings-calls :
    (z : Bool) (ss : List Bytes) (d : Driver)
    → emit_strings z ss d ≡ record d { calls = d.calls ++ string_calls z ss }
unfolding emit_string emit_word le_bytes to_unsigned
emit_strings-calls z [] d = ap (λ cs. record d { calls = cs }) (sym (append-nil d.calls))
emit_strings-calls true (s ∷ ss) d =
    emit_strings-calls true ss (emit_string true s d)
    ∙ ap (λ cs. record d { calls = cs })
        (append_assoc (d.calls ++ emit_bytes s ∷ []) (emit_bytes (0 ∷ []) ∷ [])
            (string_calls true ss)
          ∙ append_assoc d.calls (emit_bytes s ∷ []) (emit_bytes (0 ∷ []) ∷ string_calls true ss))
emit_strings-calls false (s ∷ ss) d =
    emit_strings-calls false ss (emit_string false s d)
    ∙ ap (λ cs. record d { calls = cs })
        (append_assoc d.calls (emit_bytes s ∷ []) (string_calls false ss))

-- `emit_ascii` on one or more strings, quoted with a backslash before each quote and backslash and
-- separated by commas, hands the glue exactly the bytes of each string, whatever they are, in order,
-- with a NUL behind each one for `.asciz` and `.string`, and reports no error.
pub emit_ascii-quoted_list :
    (name : Bytes) (z : Bool) (s : Bytes) (ss : List Bytes) (d : Driver)
    → emit_ascii name (quoted_list (s ∷ ss)) z d
      ≡ record d { calls = d.calls ++ string_calls z (s ∷ ss) }
unfolding emit_ascii
emit_ascii-quoted_list name z s ss d =
    rw
      (ascii_loop-quoted_list name (quoted_list (s ∷ ss)) z (suc (length (quoted_list (s ∷ ss))))
        false s ss d (omega arith))
      (emit_strings-calls z (s ∷ ss) d)
