-- ===== src/Tests.antt =====
-- Test data, runs on concrete inputs, and the theorems at concrete inputs.
mod Sections
mod Encode
mod GlueLayer
mod Handle
mod Elements
mod Linked
mod Interface
mod Reading
use nyxstone_tricore_gcc.Base.{
  ℕ, ◌≡◌, refl, inl, true, false, none, some, List, [], ◌∷◌, ◌++◌, map, arith, Bytes, codes, one_of,
  pos,
}
use nyxstone_tricore_gcc.Text.{is_space, is_digit, is_alnum, first_word}
use nyxstone_tricore_gcc.Literal.{parse_int}
use nyxstone_tricore_gcc.Driver.{GlueCall, emit_bytes}
use nyxstone_tricore_gcc.Process.{is_label_byte, take_label, clean}
use nyxstone_tricore_gcc.Source.BlockComments.{strip_block_comments}
use nyxstone_tricore_gcc.Source.Statements.{statements}
use nyxstone_tricore_gcc.Expected.{Expected, value}
use nyxstone_tricore_gcc.Glue.{Glue}
use nyxstone_tricore_gcc.Decoder.{printed_text, PrintInsn, disasm_one}
use nyxstone_tricore_gcc.Disassemble.{Instruction, disassemble_loop, do_disassemble}
use nyxstone_tricore_gcc.Disassemble.Cover.{
  StaysInside, all_bytes, IsConsecutive, disassemble_loop_total, Covers, do_disassemble-Covers,
}
use nyxstone_tricore_gcc.Assemble.{LabelDefinition, do_assemble}
use nyxstone_tricore_gcc.Assemble.Checks.{Succeeds, do_assemble-Succeeds}
use nyxstone_tricore_gcc.Assemble.TextOnly.{HasLeaving, do_assemble-LeavesText}
use nyxstone_tricore_gcc.Api.{
  AssembleWithRelocsResult, assemble, assemble_to_instructions, assemble_with_relocs,
}
use nyxstone_tricore_gcc.Api.Agree.{assemble_to_instructions-assemble}
use nyxstone_tricore_gcc.Api.Relocations.{
  AllReported, without_hint, assemble_with_relocs-AllReported, assemble_with_relocs-labels,
}
use nyxstone_tricore_gcc.CAbi.Convert.{has_addend}

-- A glue layer whose state is the bytes emitted so far; one relocation stands at offset 0.
abbrev toy_perform : GlueCall → Bytes → Bytes
toy_perform (emit_bytes bs) s = s ++ bs
toy_perform _ s = s

abbrev pub toy : Glue
toy = record {
  State = Bytes;
  reset = λ s. [];
  begin_capture = λ s. s;
  end_capture = λ s. ([], s);
  perform = toy_perform;
  define_abs = λ n a s. s;
  had_errors = λ s. 0;
  resolve_text_fixups = λ a s. (0, s);
  unsupported_reloc = λ s. none;
  collect_relocs = λ s.
      record {
        offset = 0;
        addend = pos 4;
        has_addend = true;
        symbol_name = some (codes "foo");
        reloc_type = 3;
      }
      ∷ [];
  extract_text_bytes = λ s. s;
}

-- A decoder whose instructions have two bytes, or one at the end.
abbrev pub toy_insn : PrintInsn
toy_insn [] a = (pos 0, [])
toy_insn (c ∷ []) a = (pos 1, printed_text (codes "half") ∷ [])
toy_insn (c ∷ d ∷ cs) a = (pos 2, printed_text (codes "nop") ∷ printed_text (codes " <foo>") ∷ [])

toy_insn-StaysInside : StaysInside toy_insn
unfolding disasm_one
toy_insn-StaysInside [] a = omega arith
toy_insn-StaysInside (c ∷ []) a = omega arith
toy_insn-StaysInside (c ∷ d ∷ cs) a = omega arith

abbrev source : Bytes
source = codes "foo: .byte 1, 0x2 # data\n .half -1"

abbrev foo : LabelDefinition
foo = record { name = codes "foo"; address = 16 }

read :
    (do_assemble toy source 0 [] false []).0
    ≡ value (record { bytes = 1 ∷ 2 ∷ 255 ∷ 255 ∷ []; relocations = [] })
unfolding do_assemble parse_int
read = refl

do_assemble-Succeeds_example :
    Succeeds toy source 0 [] false [] (record { bytes = 1 ∷ 2 ∷ 255 ∷ 255 ∷ []; relocations = [] })
do_assemble-Succeeds_example =
    (do_assemble-Succeeds toy source 0 [] false []
        (record { bytes = 1 ∷ 2 ∷ 255 ∷ 255 ∷ []; relocations = [] })).0
      read

-- A source that leaves the text section behind a label and a comment.
abbrev pub leaving : Bytes
leaving = codes "nop\nfoo: .data # here\n.byte 1"

pub leaving-HasLeaving : HasLeaving (statements (strip_block_comments leaving))
unfolding strip_block_comments statements clean take_label is_label_byte is_alnum is_digit is_space
    first_word one_of
leaving-HasLeaving = record {
  earlier = codes "nop" ∷ [];
  line = codes "foo: .data # here";
  later = codes ".byte 1" ∷ [];
  among = refl;
  labels = record { name = codes "foo"; gap = codes " " } ∷ [];
  body = codes ".data";
  is_labelled = refl;
  labels_valid = ((((λ h. cc), (refl, (refl, (refl, tt)))), (refl, tt)), tt);
  body_valid = (refl, refl);
  leaves = inl refl;
}

do_assemble-LeavesText_example :
    ¬ ((do_assemble toy leaving 0 [] false []).0 ≡ value (record { bytes = []; relocations = [] }))
do_assemble-LeavesText_example =
    do_assemble-LeavesText toy leaving 0 [] false [] (record { bytes = []; relocations = [] })
      leaving-HasLeaving

abbrev three_bytes : Bytes
three_bytes = 1 ∷ 2 ∷ 3 ∷ []

abbrev two_instructions : List Instruction
two_instructions =
    record { address = 8; assembly = codes "nop"; bytes = 1 ∷ 2 ∷ [] }
    ∷ record { address = 10; assembly = codes "half"; bytes = 3 ∷ [] }
    ∷ []

disassembled : do_disassemble toy_insn three_bytes 8 0 ≡ value two_instructions
unfolding do_disassemble
disassembled = refl

do_disassemble-Covers_example : Covers toy_insn 8 0 0 0 three_bytes two_instructions
do_disassemble-Covers_example =
    do_disassemble-Covers toy_insn three_bytes 8 0 toy_insn-StaysInside disassembled

disassemble_loop_total_example :
    (r : Expected (List Instruction)) × (disassemble_loop toy_insn 8 0 3 0 0 three_bytes ≡ some r)
disassemble_loop_total_example = disassemble_loop_total toy_insn 8 0 3 0 0 three_bytes (omega arith)

assembled_to_instructions :
    (assemble_to_instructions toy toy_insn (codes ".byte 1, 2, 3") 8 [] []).0
    ≡ value two_instructions
unfolding assemble_to_instructions parse_int do_assemble do_disassemble
assembled_to_instructions = refl

assemble_to_instructions-assemble_example :
    ((assemble toy toy_insn (codes ".byte 1, 2, 3") 8 [] []).0 ≡ value (all_bytes two_instructions))
    × ((assemble toy toy_insn (codes ".byte 1, 2, 3") 8 [] []).1
        ≡ (assemble_to_instructions toy toy_insn (codes ".byte 1, 2, 3") 8 [] []).1)
    × IsConsecutive 8 0 two_instructions
assemble_to_instructions-assemble_example =
    assemble_to_instructions-assemble toy toy_insn (codes ".byte 1, 2, 3") 8 [] []
      toy_insn-StaysInside assembled_to_instructions

abbrev with_reloc : ℕ → AssembleWithRelocsResult
with_reloc hint = record {
  bytes = 1 ∷ [];
  relocations =
      record {
        offset = 8;
        addend = some (pos 4);
        symbol = record { name = codes "foo"; address = hint };
        relocation_type = 3;
      }
      ∷ [];
}

assembled_with_relocs :
    (assemble_with_relocs toy toy_insn (codes ".byte 1") 8 (foo ∷ []) []).0 ≡ value (with_reloc 16)
unfolding assemble_with_relocs parse_int do_assemble
assembled_with_relocs = refl

assemble_with_relocs-AllReported_example :
    AllReported 8
      (foo ∷ [])
      (toy.collect_relocs (assemble_with_relocs toy toy_insn (codes ".byte 1") 8 (foo ∷ []) []).1)
      (with_reloc 16).relocations
assemble_with_relocs-AllReported_example =
    assemble_with_relocs-AllReported toy toy_insn (codes ".byte 1") 8 [] (foo ∷ [])
      assembled_with_relocs

assemble_with_relocs-labels_example :
    ((assemble_with_relocs toy toy_insn (codes ".byte 1") 8 [] []).1
      ≡ (assemble_with_relocs toy toy_insn (codes ".byte 1") 8 (foo ∷ []) []).1)
    × (q : AssembleWithRelocsResult) × ((assemble_with_relocs toy toy_insn
          (codes ".byte 1")
          8
          []
          []).0
        ≡ value q)
    × (q.bytes ≡ 1 ∷ [])
    × (map without_hint q.relocations ≡ map without_hint (with_reloc 16).relocations)
assemble_with_relocs-labels_example =
    assemble_with_relocs-labels toy toy_insn (codes ".byte 1") 8 [] (foo ∷ []) []
      assembled_with_relocs
