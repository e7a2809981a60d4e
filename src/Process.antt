-- ===== src/Process.antt =====
-- src/nyxstone.cpp, the lambdas `process` and `run` of `do_assemble`.
pub mod Directives
pub mod Labels
pub mod Local
use nyxstone_tricore_gcc.Base.{
  ℕ, zero, suc, ◌-◌, ◌%◌, ◌^◌, min, Bool, true, false, ◌&&◌, ◌||◌, Option, none, some, List, [],
  ◌∷◌, ◌++◌, ◌==◌, if◌then◌else◌, length, is_empty, Bytes, codes, c_str,
}
use nyxstone_tricore_gcc.Text.{is_digit, is_alnum, ltrim, rtrim, first_word}
use nyxstone_tricore_gcc.Literal.{digit_value, read_digits}
use nyxstone_tricore_gcc.Driver.{
  colon, fb_label, md_assemble, Driver, cleared, glue, directive_error,
}
use nyxstone_tricore_gcc.Data.{get_or}
use nyxstone_tricore_gcc.Directive.{handle_directive}
use nyxstone_tricore_gcc.Source.BlockComments.{strip_block_comments}
use nyxstone_tricore_gcc.Source.LineComments.{strip_comment}
use nyxstone_tricore_gcc.Source.Statements.{statements}

-- The bytes of a label's name.
unfoldable pub is_label_byte : ℕ → Bool
unfolding is_alnum
is_label_byte c = is_alnum c || c == b'_' || c == b'.' || c == b'$'

-- The scan with `cp`: the name, and the line from `cp` on.
unfoldable pub label_span : Bytes → Bytes × Bytes
unfolding is_label_byte
label_span [] = ([], [])
label_span (c ∷ cs) =
    let (name, rest) = label_span cs in if is_label_byte c then (c ∷ name, rest) else ([], c ∷ cs)

unfoldable pub all_digits : Bytes → Bool
unfolding is_digit
all_digits [] = true
all_digits (c ∷ cs) = is_digit c && all_digits cs

unfoldable pub as_label : Bytes → Bytes → Option (Bytes × Bytes)
as_label [] rest = none
as_label (n ∷ name) [] = none
as_label (n ∷ name) (c ∷ rest) = if c == b':' then some (n ∷ name, rest) else none

-- The name and the text behind the colon; `none` where the loop breaks.
unfoldable pub take_label : Bytes → Option (Bytes × Bytes)
unfolding label_span as_label
take_label line = as_label (label_span line).0 (label_span line).1

-- `static_cast<unsigned int>(strtoul(name, nullptr, 10))`
unfoldable pub label_number : Bytes → ℕ
unfolding read_digits digit_value
label_number name = min (read_digits 10 0 name).0 (2 ^ 64 - 1) % 2 ^ 32

unfoldable pub define_label : Bytes → Driver → Driver
unfolding all_digits label_number
define_label name d =
    if all_digits name then glue (fb_label (label_number name)) d else glue (colon name) d

-- The loop over the labels in front of a statement. The text that is left is empty where the source
-- returns behind a last label; `none` if the fuel runs out.
unfoldable pub strip_labels : ℕ → Bytes → Driver → Option (Bytes × Driver)
unfolding take_label define_label ltrim
strip_labels zero line d = none
strip_labels (suc fuel) line d = elim (take_label line) [
  | none ↦ some (line, d)
  | some (name, rest) ↦ strip_labels fuel (ltrim rest) (define_label name d)
]

unfoldable pub check_supported : Bytes → Bool × Driver → Driver
check_supported line (true, d) = d
check_supported line (false, d) =
    directive_error (codes "unsupported directive '" ++ (first_word line ++ codes "'")) d

-- The statement behind its labels.
unfoldable pub dispatch : Bytes → Driver → Driver
unfolding check_supported handle_directive c_str
dispatch [] d = d
dispatch (c ∷ cs) d =
    if c == b'.'
    then check_supported (c ∷ cs) (handle_directive (c ∷ cs) d)
    else glue (md_assemble (c_str (c ∷ cs))) d

-- The statement with its comment and the spaces around it cut off.
unfoldable pub clean : Bytes → Bytes
unfolding ltrim rtrim strip_comment
clean line = rtrim (strip_comment (ltrim line))

-- What is left of the statement once its comment and outer spaces are cut off. Each label takes two
-- bytes or more, so the fuel is enough: `strip_labels_total` in Process.Labels.
unfoldable pub process_clean : Bytes → Driver → Driver
process_clean l d =
    let (body, d') = get_or (strip_labels (suc (length l)) l d) (l, d) in
    if is_empty l then d else dispatch body d'

unfoldable pub process : Bytes → Driver → Driver
unfolding process_clean strip_labels dispatch clean
process line d = process_clean (clean line) d

unfoldable pub process_all : List Bytes → Driver → Driver
unfolding process
process_all [] d = d
process_all (s ∷ ss) d = process_all ss (process s d)

unfoldable pub run : Bytes → Driver → Driver
unfolding process_all statements
run text d = process_all (statements text) d

-- `run(strip_block_comments(source))` on the cleared globals.
unfoldable pub read_source : Bytes → Driver
unfolding run strip_block_comments
read_source source = run (strip_block_comments source) cleared
