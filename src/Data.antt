-- ===== src/Data.antt =====
-- src/nyxstone.cpp, the data directives: integers, argument lists and strings.
pub mod Words
pub mod IntList
pub mod Local
pub mod Strings
use nyxstone_tricore_gcc.Base.{
  ℕ, zero, suc, ◌*◌, ◌/◌, ◌%◌, Bool, true, false, Option, none, some, List, [], ◌∷◌, ◌++◌, ◌==◌,
  if◌then◌else◌, length, is_empty, Bytes, codes, ℤ, pos, to_unsigned,
}
use nyxstone_tricore_gcc.Text.{ltrim}
use nyxstone_tricore_gcc.Literal.{parse_int}
use nyxstone_tricore_gcc.Driver.{emit_bytes, Driver, glue, directive_error}

-- The bytes of `emit_u8`, `emit_u16`, `emit_u32` and `emit_u64`: lowest byte first.
unfoldable pub le_bytes : ℕ → ℕ → Bytes
le_bytes zero v = []
le_bytes (suc n) v = v % 256 ∷ le_bytes n (v / 256)

-- The cast to `uintN_t` and the call of `emit_uN`, for a width of 1, 2, 4 or 8 bytes.
unfoldable pub emit_word : ℕ → ℤ → Driver → Driver
unfolding le_bytes to_unsigned
emit_word width v d = glue (emit_bytes (le_bytes width (to_unsigned (8 * width) v))) d

-- `if (p < end && *p == ',') ++p`
unfoldable pub skip_comma : Bytes → Bytes
skip_comma [] = []
skip_comma (c ∷ cs) = if c == b',' then cs else c ∷ cs

-- The loop of `emit_int_list`; `none` if the fuel runs out.
unfoldable pub emit_int_loop : ℕ → ℕ → Bytes → Driver → Option Driver
unfolding emit_word skip_comma ltrim
emit_int_loop zero width p d = none
emit_int_loop (suc fuel) width [] d = some d
emit_int_loop (suc fuel) width (c ∷ cs) d = elim (parse_int (c ∷ cs)) [
  | none ↦ some d
  | some (v, next) ↦ emit_int_loop fuel width (skip_comma (ltrim next)) (emit_word width v d)
]

abbrev pub get_or {ℓ} : {A : Type ℓ} → Option A → A → A
get_or none a = a
get_or (some b) a = b

-- Each round takes a byte, so the fuel is enough: `emit_int_loop_total` in Data.IntList.
unfoldable pub emit_int_list : Bytes → ℕ → Driver → Driver
unfolding emit_int_loop
emit_int_list args width d = get_or (emit_int_loop (suc (length args)) width args d) d

-- The loop of `all_int_literals`; `none` if the fuel runs out.
unfoldable pub literal_loop : ℕ → Bytes → Option Bool
unfolding ltrim
literal_loop zero p = none
literal_loop (suc fuel) p = elim (ltrim p) [
  | [] ↦ some true
  | c ∷ cs ↦ elim (parse_int (c ∷ cs)) [
    | none ↦ some false
    | some (v, next) ↦ elim (ltrim next) [
      | [] ↦ some true
      | x ∷ xs ↦ if x == b',' then literal_loop fuel xs else some false
    ]
  ]
]

unfoldable pub all_int_literals : Bytes → Bool
unfolding literal_loop
all_int_literals args = get_or (literal_loop (suc (length args)) args) false

abbrev push_value : ℤ → Option (List ℤ) → Option (List ℤ)
push_value v none = none
push_value v (some vs) = some (v ∷ vs)

-- The values that are written to `out`, at most `max_args`; their count is the result. `none`
-- stands for -1, where no caller looks at `out`.
unfoldable pub parse_int_args : ℕ → Bytes → Option (List ℤ)
unfolding ltrim
parse_int_args zero p = if is_empty (ltrim p) then some [] else none
parse_int_args (suc max_args) p = elim (ltrim p) [
  | [] ↦ some []
  | c ∷ cs ↦ elim (parse_int (c ∷ cs)) [
    | none ↦ none
    | some (v, next) ↦ elim (ltrim next) [
      | [] ↦ some (v ∷ [])
      | x ∷ xs ↦ if x == b',' then push_value v (parse_int_args max_args xs) else none
    ]
  ]
]

-- The `switch` on the byte behind a backslash.
unfoldable pub unescape : ℕ → ℕ
unescape c =
    if c == b'n'
    then b'\n'
    else if c == b't'
    then b'\t'
    else if c == b'r'
    then b'\r'
    else if c == b'0'
    then 0
    else c

abbrev pub push_byte : ℕ → Option (Bytes × Bytes) → Option (Bytes × Bytes)
push_byte c none = none
push_byte c (some (out, rest)) = some (c ∷ out, rest)

-- The inner loop of `emit_ascii`, from behind the opening quote: the string, and the text behind its
-- closing quote; `none` if there is none.
unfoldable pub read_string : Bytes → Option (Bytes × Bytes)
unfolding unescape
read_string [] = none
read_string (c ∷ []) = if c == b'"' then some ([], []) else none
read_string (c ∷ e ∷ cs) =
    let escaped = push_byte (unescape e) (read_string cs) in
    let plain = push_byte c (read_string (e ∷ cs)) in
    if c == b'"' then some ([], e ∷ cs) else if c == b'\\' then escaped else plain

-- One string of the list: its bytes, and a NUL for `.asciz` and `.string`.
unfoldable pub emit_string : Bool → Bytes → Driver → Driver
unfolding emit_word
emit_string zero_term out d =
    let d' = glue (emit_bytes out) d in if zero_term then emit_word 1 (pos 0) d' else d'

-- The outer loop of `emit_ascii` and the check behind it; `any` says that a string was seen, and
-- `none` that the fuel runs out.
unfoldable pub ascii_loop : ℕ → Bytes → Bytes → Bool → Bool → Bytes → Driver → Option Driver
unfolding ltrim emit_string skip_comma read_string directive_error
ascii_loop zero name args zero_term any p d = none
ascii_loop (suc fuel) name args zero_term any p d = elim (ltrim p) [
  | [] ↦ some (if any then d else directive_error (name ++ codes ": expected a quoted string") d)
  | c ∷ cs ↦
      if c == b'"'
      then elim (read_string cs) [
        | none ↦ some (directive_error (name ++ codes ": unterminated string") d)
        | some (out, rest) ↦
            ascii_loop fuel name args zero_term true (skip_comma (ltrim rest))
              (emit_string zero_term out d)
      ]
      else some (
          directive_error
            (name ++ (codes ": expected a quoted string, got '" ++ (args ++ codes "'"))) d)
]

unfoldable pub emit_ascii : Bytes → Bytes → Bool → Driver → Driver
unfolding ascii_loop
emit_ascii name args zero_term d =
    get_or (ascii_loop (suc (length args)) name args zero_term false args d) d
