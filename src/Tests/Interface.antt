-- ===== src/Tests/Interface.antt =====
-- Runs of the C interface on concrete inputs, and its theorems at concrete inputs.
use nyxstone_tricore_gcc.Base.{
  ℕ, ◌≡◌, refl, ◌↔◌, Bool, true, none, some, List, [], ◌∷◌, ◌==◌, codes,
}
use nyxstone_tricore_gcc.Literal.{parse_int}
use nyxstone_tricore_gcc.Process.{read_source}
use nyxstone_tricore_gcc.Disassemble.{do_disassemble}
use nyxstone_tricore_gcc.Assemble.{do_assemble}
use nyxstone_tricore_gcc.Api.{
  disassemble_to_instructions, disassemble, assemble, assemble_to_instructions,
  assemble_with_relocs, assemble_to_instructions_with_relocs,
}
use nyxstone_tricore_gcc.CAbi.Store.{Store}
use nyxstone_tricore_gcc.CAbi.Entry.{err_section_violation, err_alloc, Out, bytes_out, text_out}
use nyxstone_tricore_gcc.CAbi.Calls.{
  AssembleArgs, DisassembleArgs, lacks_argument, lacks_input, source_of, labels_of, input_of,
  no_bytes, no_array, nyxstone_assemble, nyxstone_assemble_to_instructions,
  nyxstone_assemble_with_relocs, nyxstone_assemble_to_instructions_with_relocs,
  nyxstone_disassemble, nyxstone_disassemble_to_instructions,
}
use nyxstone_tricore_gcc.CAbi.Answers.{IsRejected}
use nyxstone_tricore_gcc.CAbi.Memory.{
  LacksArgument, KeepsContract, assemble_calls-KeepsContract, disassemble_calls-KeepsContract,
  assemble_calls-IsRejected,
}
use nyxstone_tricore_gcc.CAbi.Violation.{assemble_calls-LeavesText}
use nyxstone_tricore_gcc.CAbi.Content.{HoldsBytes}
use nyxstone_tricore_gcc.CAbi.Elements.{HoldsInstructions}
use nyxstone_tricore_gcc.CAbi.Owned.{GivesText, GivesBytesRelocs, GivesInstructionsRelocs}
use nyxstone_tricore_gcc.Tests.{toy, toy_insn, leaving, leaving-HasLeaving}

abbrev pub empty_store : Store
empty_store = record { live = λ q. none; calls = 0 }

-- The second allocation fails.
abbrev second_fails : ℕ → Bool
second_fails n = n == 1

abbrev pub three_bytes : AssembleArgs
three_bytes = record {
  handle = true;
  slots = true;
  err = true;
  source = some (codes ".byte 1, 2, 3");
  src_len = 13;
  address = 8;
  labels = none;
  labels_len = 0;
}

abbrev no_source : AssembleArgs
no_source = record three_bytes { source = none }

abbrev leaving_args : AssembleArgs
leaving_args = record three_bytes { source = some leaving; src_len = 100 }

abbrev input : DisassembleArgs
input = record {
  handle = true;
  slots = true;
  err = true;
  bytes = some (1 ∷ 2 ∷ 3 ∷ []);
  bytes_len = 3;
  address = 8;
  count = 0;
}

-- What the caller had in the out-parameters.
abbrev pub left_over : List Out
left_over = bytes_out (some 77) 5 ∷ []

text_failed :
    (nyxstone_assemble_to_instructions second_fails toy toy_insn
      (λ x. none)
      three_bytes
      left_over
      []
      empty_store).0.status
    ≡ err_alloc
unfolding nyxstone_assemble_to_instructions parse_int do_assemble do_disassemble
text_failed = refl

bytes_given_back :
    (nyxstone_assemble second_fails toy toy_insn
      (λ x. none)
      three_bytes
      left_over
      []
      empty_store).0.outs
    ≡ bytes_out (some 0) 3 ∷ []
unfolding nyxstone_assemble parse_int do_assemble
bytes_given_back = refl

assemble_calls-KeepsContract_example :
    KeepsContract HoldsBytes
      (assemble toy toy_insn (source_of three_bytes) 8 (labels_of three_bytes) []).0
      (no_bytes ∷ [])
      empty_store
      (nyxstone_assemble second_fails toy toy_insn
        (λ x. none)
        three_bytes
        left_over
        []
        empty_store).0
    × KeepsContract
        (HoldsInstructions second_fails)
        (assemble_to_instructions toy toy_insn
          (source_of three_bytes)
          8
          (labels_of three_bytes)
          []).0
        (no_array ∷ [])
        empty_store
        (nyxstone_assemble_to_instructions second_fails toy toy_insn
          (λ x. none)
          three_bytes
          left_over
          []
          empty_store).0
    × KeepsContract GivesBytesRelocs
        (assemble_with_relocs toy toy_insn (source_of three_bytes) 8 (labels_of three_bytes) []).0
        (no_bytes ∷ no_array ∷ [])
        empty_store
        (nyxstone_assemble_with_relocs second_fails toy toy_insn
          (λ x. none)
          three_bytes
          left_over
          []
          empty_store).0
    × KeepsContract GivesInstructionsRelocs
        (assemble_to_instructions_with_relocs toy toy_insn
          (source_of three_bytes)
          8
          (labels_of three_bytes)
          []).0
        (no_array ∷ no_array ∷ [])
        empty_store
        (nyxstone_assemble_to_instructions_with_relocs second_fails toy toy_insn
          (λ x. none)
          three_bytes
          left_over
          []
          empty_store).0
unfolding lacks_argument
assemble_calls-KeepsContract_example =
    assemble_calls-KeepsContract second_fails toy toy_insn (λ x. none) left_over [] empty_store
      (λ q h. refl) three_bytes refl

disassemble_calls-KeepsContract_example :
    KeepsContract GivesText
      (disassemble toy_insn (input_of input) 8 0)
      (text_out none ∷ [])
      empty_store
      (nyxstone_disassemble second_fails toy toy_insn (λ x. none) input left_over [] empty_store).0
    × KeepsContract
        (HoldsInstructions second_fails)
        (disassemble_to_instructions toy_insn (input_of input) 8 0)
        (no_array ∷ [])
        empty_store
        (nyxstone_disassemble_to_instructions second_fails toy toy_insn
          (λ x. none)
          input
          left_over
          []
          empty_store).0
unfolding lacks_input
disassemble_calls-KeepsContract_example =
    disassemble_calls-KeepsContract second_fails toy toy_insn (λ x. none) left_over [] empty_store
      (λ q h. refl) input refl

assemble_calls-IsRejected_example :
    ((IsRejected left_over empty_store
          (nyxstone_assemble second_fails toy toy_insn
            (λ x. none)
            no_source
            left_over
            []
            empty_store).0
        × ((nyxstone_assemble second_fails toy toy_insn
              (λ x. none)
              no_source
              left_over
              []
              empty_store).1
            ≡ []))
      ↔ LacksArgument no_source)
    × ((IsRejected left_over empty_store
            (nyxstone_assemble_to_instructions second_fails toy toy_insn
              (λ x. none)
              no_source
              left_over
              []
              empty_store).0
          × ((nyxstone_assemble_to_instructions second_fails toy toy_insn
                (λ x. none)
                no_source
                left_over
                []
                empty_store).1
              ≡ []))
        ↔ LacksArgument no_source)
    × ((IsRejected left_over empty_store
            (nyxstone_assemble_with_relocs second_fails toy toy_insn
              (λ x. none)
              no_source
              left_over
              []
              empty_store).0
          × ((nyxstone_assemble_with_relocs second_fails toy toy_insn
                (λ x. none)
                no_source
                left_over
                []
                empty_store).1
              ≡ []))
        ↔ LacksArgument no_source)
    × ((IsRejected left_over empty_store
            (nyxstone_assemble_to_instructions_with_relocs second_fails toy toy_insn
              (λ x. none)
              no_source
              left_over
              []
              empty_store).0
          × ((nyxstone_assemble_to_instructions_with_relocs second_fails toy toy_insn
                (λ x. none)
                no_source
                left_over
                []
                empty_store).1
              ≡ []))
        ↔ LacksArgument no_source)
assemble_calls-IsRejected_example =
    assemble_calls-IsRejected second_fails toy toy_insn (λ x. none) left_over [] empty_store
      (λ q h. refl) no_source

assemble_calls-LeavesText_example :
    ((nyxstone_assemble second_fails toy toy_insn
        (λ x. none)
        leaving_args
        left_over
        []
        empty_store).0.status
      ≡ err_section_violation)
    × ((nyxstone_assemble_to_instructions second_fails toy toy_insn
          (λ x. none)
          leaving_args
          left_over
          []
          empty_store).0.status
        ≡ err_section_violation)
    × ((nyxstone_assemble_with_relocs second_fails toy toy_insn
          (λ x. none)
          leaving_args
          left_over
          []
          empty_store).0.status
        ≡ err_section_violation)
    × ((nyxstone_assemble_to_instructions_with_relocs second_fails toy toy_insn
          (λ x. none)
          leaving_args
          left_over
          []
          empty_store).0.status
        ≡ err_section_violation)
unfolding lacks_argument read_source parse_int
assemble_calls-LeavesText_example =
    assemble_calls-LeavesText second_fails toy toy_insn (λ x. none) leaving_args left_over []
      empty_store refl refl refl leaving-HasLeaving
