-- ===== src/Directive.antt =====
-- src/nyxstone.cpp, `handle_directive`.
pub mod Alignment
use nyxstone_tricore_gcc.Base.{
  ℕ, zero, suc, ◌-◌, ◌^◌, bit_and, Bool, true, false, not, ◌&&◌, ◌||◌, Option, none, some, List, [],
  ◌∷◌, ◌++◌, ltb, ◌==◌, if◌then◌else◌, length, is_empty, take, replicate, Bytes, codes, bytes_eq,
  one_of, c_str, ℤ, pos, negsuc, to_unsigned,
}
use nyxstone_tricore_gcc.Text.{is_space, ltrim, rtrim, first_word, after_word, before, behind}
use nyxstone_tricore_gcc.Driver.{
  set_sym, emit_bytes, emit_cons, align, org, Driver, glue, directive_error, violate,
}
use nyxstone_tricore_gcc.Data.{emit_int_list, all_int_literals, parse_int_args, emit_ascii}

abbrev pub section_switches : List Bytes
section_switches =
    codes ".data"
    ∷ codes ".bss"
    ∷ codes ".rodata"
    ∷ codes ".sdata"
    ∷ codes ".sbss"
    ∷ codes ".tdata"
    ∷ codes ".tbss"
    ∷ codes ".pushsection"
    ∷ codes ".previous"
    ∷ []

abbrev metadata_directives : List Bytes
metadata_directives =
    codes ".global"
    ∷ codes ".globl"
    ∷ codes ".local"
    ∷ codes ".weak"
    ∷ codes ".type"
    ∷ codes ".size"
    ∷ codes ".file"
    ∷ codes ".ident"
    ∷ codes ".syntax"
    ∷ codes ".cpu"
    ∷ codes ".arch"
    ∷ codes ".extern"
    ∷ codes ".end"
    ∷ []

-- The branches of the ladder of comparisons with `d`.
pub data Kind : Type 0 where
  data_list : ℕ → Kind
  ascii : Bool → Kind
  -- the flag is `d == ".zero"`
  fill : Bool → Kind
  origin : Kind
  -- the flag is `d == ".balign"`
  alignment : Bool → Kind
  equate : Kind
  text_section named_section other_section metadata unknown : Kind

unfoldable pub kind_of : Bytes → Kind
unfolding one_of
kind_of d =
    if one_of d (codes ".byte" ∷ [])
    then data_list 1
    else if one_of d (codes ".half" ∷ codes ".hword" ∷ codes ".short" ∷ codes ".2byte" ∷ [])
    then data_list 2
    else if one_of d (codes ".word" ∷ codes ".int" ∷ codes ".long" ∷ codes ".4byte" ∷ [])
    then data_list 4
    else if one_of d (codes ".quad" ∷ codes ".8byte" ∷ [])
    then data_list 8
    else if one_of d (codes ".ascii" ∷ [])
    then ascii false
    else if one_of d (codes ".asciz" ∷ codes ".string" ∷ [])
    then ascii true
    else if one_of d (codes ".skip" ∷ codes ".space" ∷ [])
    then fill false
    else if one_of d (codes ".zero" ∷ [])
    then fill true
    else if one_of d (codes ".org" ∷ [])
    then origin
    else if one_of d (codes ".align" ∷ codes ".p2align" ∷ [])
    then alignment false
    else if one_of d (codes ".balign" ∷ [])
    then alignment true
    else if one_of d (codes ".equ" ∷ codes ".set" ∷ [])
    then equate
    else if one_of d (codes ".text" ∷ [])
    then text_section
    else if one_of d (codes ".section" ∷ [])
    then named_section
    else if one_of d section_switches
    then other_section
    else if one_of d metadata_directives
    then metadata
    else unknown

-- `vals[i]`, with the caller's default 0.
abbrev arg : ℕ → List ℤ → ℤ
arg i [] = pos 0
arg zero (v ∷ vs) = v
arg (suc i) (v ∷ vs) = arg i vs

-- `d + ": expected ...', got '" + args + "'"`
abbrev expected : Bytes → Bytes → Bytes → Bytes
expected d what args = d ++ (what ++ (codes ", got '" ++ (args ++ codes "'")))

-- `static_cast<int>`: the value that the low 32 bits stand for.
unfoldable pub to_int32 : ℤ → ℤ
unfolding to_unsigned
to_int32 v = let w = to_unsigned 32 v in if ltb w (2 ^ 31) then pos w else negsuc (2 ^ 32 - 1 - w)

-- What follows on the operands read: `none` stands for a count of -1.
unfoldable pub fill_frag : Bytes → Bytes → Option (List ℤ) → Driver → Driver
unfolding to_unsigned directive_error
fill_frag d args none drv =
    directive_error (expected d (codes ": expected a size operand") args) drv
fill_frag d args (some []) drv =
    directive_error (expected d (codes ": expected a size operand") args) drv
fill_frag d args (some (negsuc n ∷ vs)) drv = directive_error (d ++ codes ": negative size") drv
fill_frag d args (some (pos n ∷ vs)) drv =
    if n == 0 then drv else glue (emit_bytes (replicate n (to_unsigned 8 (arg 0 vs)))) drv

-- `.skip` and `.space` take a size and a fill byte, `.zero` a size alone.
unfoldable pub handle_fill : Bytes → Bytes → Bool → Driver → Driver
unfolding parse_int_args fill_frag
handle_fill d args zero_only drv =
    fill_frag d args (parse_int_args (if zero_only then 1 else 2) args) drv

unfoldable pub org_frag : Bytes → Bytes → Option (List ℤ) → Driver → Driver
unfolding to_int32 directive_error
org_frag d args none drv =
    directive_error (expected d (codes ": expected an offset operand") args) drv
org_frag d args (some []) drv =
    directive_error (expected d (codes ": expected an offset operand") args) drv
org_frag d args (some (negsuc n ∷ vs)) drv = directive_error (d ++ codes ": negative offset") drv
org_frag d args (some (pos n ∷ vs)) drv = glue (org n (to_int32 (arg 0 vs))) drv

unfoldable pub handle_org : Bytes → Bytes → Driver → Driver
unfolding parse_int_args org_frag
handle_org d args drv = org_frag d args (parse_int_args 2 args) drv

-- `while ((int64_t(1) << p2) < b) ++p2`. An operand is below `2 ^ 63`, so 63 rounds are enough.
unfoldable pub log2_loop : ℕ → ℕ → ℕ → ℕ
log2_loop zero p2 b = p2
log2_loop (suc fuel) p2 b = if ltb (2 ^ p2) b then log2_loop fuel (suc p2) b else p2

-- The exponent of the boundary, or the text of the error.
pub data Exponent : Type 0 where
  exponent : ℕ → Exponent
  refused : Bytes → Exponent

unfoldable pub alignment_exponent : Bool → ℤ → Exponent
alignment_exponent true (negsuc n) = refused (codes ": alignment is not a power of 2")
alignment_exponent true (pos b) =
    if b == 0 || not (bit_and b (b - 1) == 0)
    then refused (codes ": alignment is not a power of 2")
    else exponent (log2_loop 63 0 b)
alignment_exponent false (negsuc n) = refused (codes ": alignment exponent out of range (0..30)")
alignment_exponent false (pos p) =
    if ltb 30 p then refused (codes ": alignment exponent out of range (0..30)") else exponent p

-- `(n_args >= 3 && vals[2] > 0) ? unsigned(vals[2]) : 0`, of the values behind the first two.
unfoldable pub max_skip : List ℤ → ℕ
unfolding to_unsigned
max_skip (pos n ∷ vs) = to_unsigned 32 (pos n)
max_skip _ = 0

unfoldable pub align_frag : Bytes → Exponent → List ℤ → Driver → Driver
unfolding directive_error to_int32 max_skip
align_frag d (refused why) vs drv = directive_error (d ++ why) drv
align_frag d (exponent p2) [] drv = glue (align p2 (pos 0) 0) drv
align_frag d (exponent p2) (f ∷ vs) drv = glue (align p2 (to_int32 f) (max_skip vs)) drv

unfoldable pub checked_align : Bytes → Bytes → Bool → Option (List ℤ) → Driver → Driver
unfolding alignment_exponent log2_loop align_frag
checked_align d args bytes none drv =
    directive_error (expected d (codes ": expected an alignment operand") args) drv
checked_align d args bytes (some []) drv =
    directive_error (expected d (codes ": expected an alignment operand") args) drv
checked_align d args bytes (some (v ∷ vs)) drv = align_frag d (alignment_exponent bytes v) vs drv

unfoldable pub handle_alignment : Bytes → Bytes → Bool → Driver → Driver
unfolding parse_int_args checked_align
handle_alignment d args bytes drv = checked_align d args bytes (parse_int_args 3 args) drv

unfoldable pub handle_equate : Bytes → Bytes → Driver → Driver
unfolding ltrim rtrim before behind c_str directive_error
handle_equate d args drv =
    let name = rtrim (before b',' args) in
    let expr = rtrim (ltrim (behind b',' args)) in
    if is_empty name || is_empty expr
    then directive_error (expected d (codes ": expected 'name, expression'") args) drv
    else glue (set_sym (c_str name) (c_str expr)) drv

-- The section's name: up to a space or a comma.
unfoldable pub section_name : Bytes → Bytes
unfolding is_space
section_name [] = []
section_name (c ∷ cs) = if is_space c || c == b',' then [] else c ∷ section_name cs

unfoldable pub is_text_section : Bytes → Bool
unfolding bytes_eq
is_text_section s =
    bytes_eq s (codes ".text") || (ltb 5 (length s) && bytes_eq (take 6 s) (codes ".text."))

unfoldable pub handle_kind : Kind → Bytes → Bytes → Driver → Bool × Driver
unfolding emit_int_list all_int_literals emit_ascii handle_fill handle_org handle_alignment
    handle_equate
handle_kind (data_list w) d args drv = (
  true,
  if all_int_literals args then emit_int_list args w drv else glue (emit_cons (c_str args) w) drv,
)
handle_kind (ascii zero_term) d args drv = (true, emit_ascii d args zero_term drv)
handle_kind (fill zero_only) d args drv = (true, handle_fill d args zero_only drv)
handle_kind origin d args drv = (true, handle_org d args drv)
handle_kind (alignment bytes) d args drv = (true, handle_alignment d args bytes drv)
handle_kind equate d args drv = (true, handle_equate d args drv)
handle_kind text_section d args drv = (true, drv)
handle_kind named_section d args drv =
    (true, if is_text_section (section_name (ltrim args)) then drv else violate drv)
handle_kind other_section d args drv = (true, violate drv)
handle_kind metadata d args drv = (true, drv)
handle_kind unknown d args drv = (false, drv)

-- The directive and its operands: `line` up to its first space, and the rest, trimmed.
abbrev pub operands : Bytes → Bytes
operands line = rtrim (ltrim (after_word line))

unfoldable pub handle_directive : Bytes → Driver → Bool × Driver
unfolding handle_kind kind_of first_word after_word
handle_directive line drv =
    handle_kind (kind_of (first_word line)) (first_word line) (operands line) drv
