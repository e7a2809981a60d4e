-- ===== src/Tests/Reading.antt =====
-- Runs of the reading side on concrete inputs, and its theorems at concrete inputs.
use nyxstone_tricore_gcc.Base.{
  ◌^◌, ◌≡◌, refl, ◌↔◌, inl, inr, true, false, some, List, [], ◌∷◌, arith, length, Bytes, codes, ℤ,
  pos, negsuc, to_unsigned,
}
use nyxstone_tricore_gcc.Text.{is_space, is_digit, is_alnum}
use nyxstone_tricore_gcc.Literal.{parse_int}
use nyxstone_tricore_gcc.Literal.Decimal.{print_int, parse_int-print_int}
use nyxstone_tricore_gcc.Driver.{colon, fb_label, md_assemble, emit_bytes, cleared, glue}
use nyxstone_tricore_gcc.Driver.Local.{extend}
use nyxstone_tricore_gcc.Data.{
  emit_word, emit_int_list, all_int_literals, parse_int_args, emit_ascii,
}
use nyxstone_tricore_gcc.Data.Words.{value_of, emit_word-value}
use nyxstone_tricore_gcc.Data.IntList.{emit_words, emit_int_list-parse_int_args}
use nyxstone_tricore_gcc.Data.Strings.{quoted_list, emit_ascii-quoted_list}
use nyxstone_tricore_gcc.Directive.{exponent, alignment_exponent}
use nyxstone_tricore_gcc.Directive.Alignment.{alignment_exponent-power}
use nyxstone_tricore_gcc.Process.{
  is_label_byte, take_label, define_label, dispatch, clean, process, run,
}
use nyxstone_tricore_gcc.Process.Local.{run-extend}
use nyxstone_tricore_gcc.Process.Labels.{Label, define_all, process-labelled}
use nyxstone_tricore_gcc.Source.BlockComments.Segments.{
  plain, escape, Segment, byte, string, block, strip_block_comments-written,
}
use nyxstone_tricore_gcc.Source.BlockComments.{strip_block_comments}
use nyxstone_tricore_gcc.Source.Statements.{statements}
use nyxstone_tricore_gcc.Source.Statements.Grammar.{
  plain_byte, quoted_bytes, unclosed, Statement, statements-source_text,
}
use nyxstone_tricore_gcc.Decoder.{dis_print_address}
use nyxstone_tricore_gcc.Decoder.Addresses.{parse_int-dis_print_address}

run-extend_example :
    run (codes ".byte 1") (glue (emit_bytes (9 ∷ [])) cleared)
    ≡ extend (glue (emit_bytes (9 ∷ [])) cleared) (run (codes ".byte 1") cleared)
run-extend_example = run-extend (codes ".byte 1") (glue (emit_bytes (9 ∷ [])) cleared)

abbrev two_labels : List Label
two_labels =
    record { name = codes "1"; gap = [] } ∷ record { name = codes "foo"; gap = codes " " } ∷ []

process-labelled_example :
    process (codes " 1:foo: nop # end") cleared
    ≡ dispatch (codes "nop") (define_all two_labels cleared)
unfolding clean take_label is_label_byte is_alnum is_digit is_space
process-labelled_example =
    process-labelled (codes " 1:foo: nop # end") two_labels (codes "nop") cleared refl
      ((((λ h. cc), (refl, tt)), tt), ((((λ h. cc), (refl, (refl, (refl, tt)))), (refl, tt)), tt))
      (refl, refl)

labelled_calls :
    (dispatch (codes "nop") (define_all two_labels cleared)).calls
    ≡ fb_label 1 ∷ colon (codes "foo") ∷ md_assemble (codes "nop") ∷ []
unfolding dispatch define_label
labelled_calls = refl

abbrev two_statements : List Statement
two_statements =
    record {
      atoms = quoted_bytes (plain b'a' ∷ escape b'"' ∷ plain b';' ∷ []) ∷ [];
      ended_by = b';';
    }
    ∷ record { atoms = plain_byte b'n' ∷ plain_byte b'o' ∷ plain_byte b'p' ∷ []; ended_by = b'\n' }
    ∷ []

statements-source_text_example :
    statements (codes "\"a\\\";\";nop\nr\"") ≡ codes "\"a\\\";\"" ∷ codes "nop" ∷ codes "r\"" ∷ []
statements-source_text_example =
    statements-source_text two_statements (plain_byte b'r' ∷ []) (unclosed [] false)
      (
        (
          (
            ((λ h. omega arith), (λ h. omega arith), ((λ h. omega arith), (λ h. omega arith), tt)),
            tt,
          ),
          inr refl,
        ),
        (
          (
            (
              (λ h. omega arith),
              (λ h. omega arith),
              (λ h. omega arith),
              (
                (λ h. omega arith),
                (λ h. omega arith),
                (λ h. omega arith),
                ((λ h. omega arith), (λ h. omega arith), (λ h. omega arith), tt),
              ),
            ),
            inl refl,
          ),
          tt,
        ),
      )
      ((λ h. omega arith), (λ h. omega arith), (λ h. omega arith), tt) tt

abbrev segments : List Segment
segments =
    byte b'a' ∷ block (codes " b ") ∷ string (plain b'/' ∷ plain b'*' ∷ escape b'"' ∷ []) ∷ []

strip_block_comments-written_example :
    strip_block_comments (codes "a/* b */\"/*\\\"\"") ≡ codes "a \"/*\\\"\""
strip_block_comments-written_example = strip_block_comments-written segments (
  (λ h. cc),
  refl,
  ((refl, (refl, (refl, tt))), (((λ h. cc), (λ h. cc), ((λ h. cc), (λ h. cc), tt)), tt)),
)

emit_int_list-parse_int_args_example :
    (vs : List ℤ) × (parse_int_args 6 (codes "1, -2") ≡ some vs)
    × (emit_int_list (codes "1, -2") 2 cleared ≡ emit_words 2 vs cleared)
unfolding all_int_literals parse_int parse_int_args
emit_int_list-parse_int_args_example = emit_int_list-parse_int_args (codes "1, -2") 2 cleared refl

emit_word-value_example :
    (bs : Bytes) × (emit_word 4 (negsuc 1) cleared ≡ glue (emit_bytes bs) cleared)
    × (length bs ≡ 4)
    × (value_of bs ≡ to_unsigned 32 (negsuc 1))
emit_word-value_example = emit_word-value 4 (negsuc 1) cleared

emit_ascii-quoted_list_example :
    emit_ascii (codes ".asciz") (codes "\"a\", \"b\\\"\"") true cleared ≡ record cleared {
      calls =
          emit_bytes (codes "a")
          ∷ emit_bytes (0 ∷ [])
          ∷ emit_bytes (codes "b\"")
          ∷ emit_bytes (0 ∷ [])
          ∷ [];
    }
unfolding quoted_list
emit_ascii-quoted_list_example =
    emit_ascii-quoted_list (codes ".asciz") true (codes "a") (codes "b\"" ∷ []) cleared

alignment_exponent-power_example :
    (alignment_exponent true (pos 16) ≡ exponent 4) ↔ (◌≡◌ {A = ℤ} (pos 16) (pos (2 ^ 4)))
alignment_exponent-power_example = alignment_exponent-power (pos 16) 4 (omega arith)

parse_int-print_int_example : parse_int (codes "  -12, 3") ≡ some (negsuc 11, codes ", 3")
unfolding is_space print_int
parse_int-print_int_example =
    parse_int-print_int (codes "  ") (negsuc 11) (codes ", 3") (refl, (refl, tt)) (omega arith)
      (omega arith)

parse_int-dis_print_address_example : parse_int (codes " 0xfffffffe") ≡ some (pos 0xfffffffe, [])
unfolding is_space dis_print_address
parse_int-dis_print_address_example =
    parse_int-dis_print_address (codes " ") 0xfffffffffffffffe [] (refl, tt) tt
