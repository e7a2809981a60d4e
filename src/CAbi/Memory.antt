-- ===== src/CAbi/Memory.antt =====
-- Every entry point keeps its contract on memory and out-parameters.
use nyxstone_tricore_gcc.Base.{
  ℕ, ◌<◌, ◌≡◌, refl, ◌≢◌, ◌↔◌, ◌⊎◌, Bool, true, false, Option, none, some, List, [], ◌∷◌, arith,
  Bytes,
}
use nyxstone_tricore_gcc.Expected.{Expected}
use nyxstone_tricore_gcc.Glue.{Glue}
use nyxstone_tricore_gcc.Decoder.{PrintInsn}
use nyxstone_tricore_gcc.Assemble.{LabelDefinition}
use nyxstone_tricore_gcc.Api.{
  disassemble_to_instructions, disassemble, assemble, assemble_to_instructions,
  assemble_with_relocs, assemble_to_instructions_with_relocs,
}
use nyxstone_tricore_gcc.CAbi.Store.{Store, free, free_array}
use nyxstone_tricore_gcc.CAbi.Entry.{
  Status, status_ok, err_disasm_failed, Out, text_out, classify_assemble_error, Attempt, Answer,
  release_all, give_bytes, give_instructions, give_text, give_bytes_relocs,
  give_instructions_relocs,
}
use nyxstone_tricore_gcc.CAbi.Calls.{
  AssembleArgs, DisassembleArgs, lacks_argument, lacks_input, source_of, labels_of, input_of,
  no_bytes, no_array, entry, attempted, nyxstone_assemble, nyxstone_assemble_to_instructions,
  nyxstone_assemble_with_relocs, nyxstone_assemble_to_instructions_with_relocs,
  nyxstone_disassemble, nyxstone_disassemble_to_instructions,
}
use nyxstone_tricore_gcc.CAbi.Balance.{IsValid}
use nyxstone_tricore_gcc.CAbi.Contract.{
  Gives, give_bytes-Gives, give_text-Gives, give_instructions-Gives, give_bytes_relocs-Gives,
  give_instructions_relocs-Gives,
}
use nyxstone_tricore_gcc.CAbi.Answers.{
  KeepsMemory, IsRejected, entry-KeepsMemory, entry-IsRejected_iff, classify-fails,
  classify-not_null_arg,
}
use nyxstone_tricore_gcc.CAbi.Content.{HoldsBytes, give_bytes-HoldsBytes}
use nyxstone_tricore_gcc.CAbi.Elements.{HoldsInstructions, give_instructions-HoldsInstructions}
use nyxstone_tricore_gcc.CAbi.Owned.{GivesText, GivesBytesRelocs, GivesInstructionsRelocs}
use nyxstone_tricore_gcc.CAbi.Whole.{
  give_text-GivesText, give_bytes_relocs-Gives_both, give_instructions_relocs-Gives_both, GivesAll,
  entry-GivesAll,
}

-- What the four functions that assemble must be given.
abbrev pub LacksArgument : AssembleArgs → Type 0
LacksArgument a =
    (a.handle ≡ false)
    ⊎ ((a.source ≡ none) ⊎ ((a.slots ≡ false) ⊎ ((a.labels ≡ none) × (0 < a.labels_len))))

Lacks_iff : (a : AssembleArgs) {P : Type 0} → (P ↔ (lacks_argument a ≡ true)) → P ↔ LacksArgument a
Lacks_iff a (f, g) = (λ p. told a (f p), λ l. g (tested a l))
  where
    told : (b : AssembleArgs) → lacks_argument b ≡ true → LacksArgument b
    told b h = unfold lacks_argument in ground arith

    tested : (b : AssembleArgs) → LacksArgument b → lacks_argument b ≡ true
    tested b l = unfold lacks_argument in ground arith

-- The contract of an entry point on memory, out-parameters and results.
pub record KeepsContract {A : Type 0} (Holds : A → List Out → Store → Type 0) (result : Expected A)
    (zeroed : List Out) (s : Store) (a : Answer) : Type 0 where
  pub memory : KeepsMemory zeroed s a
  pub all_given : a.status ≡ status_ok → GivesAll Holds result a

module _ (fails : ℕ → Bool) (g : Glue) (print_insn : PrintInsn)
    (exception : g.State → Option (Option Bytes × g.State)) (prior : List Out) (x : g.State)
    (s : Store) (valid : IsValid s) where
  abbrev assemble_run :
      {A : Type 0}
      → (Bytes → ℕ → List LabelDefinition → g.State → Expected A × g.State)
      → AssembleArgs
      → Attempt A × g.State
  assemble_run method a =
      attempted fails g print_insn exception x (method (source_of a) a.address (labels_of a) x)

  entry_kept :
      {A : Type 0} (err : Bool) (fail : Bytes → Status)
      (give : A → Store → Option (List Out) × Store) (zeroed : List Out)
      → ((m : Bytes) → fail m ≢ status_ok)
      → ((u : Store) → release_all zeroed u ≡ u)
      → Gives fails give
      → (Holds : A → List Out → Store → Type 0)
      → ((v : A) (t : Store) (outs : List Out) (u : Store)
          → IsValid t
          → give v t ≡ (some outs, u)
          → Holds v outs u)
      → (lacks : Bool) (r : Expected A × g.State) → lacks ≡ false
      → KeepsContract Holds r.0 zeroed s
          (entry fails lacks err fail give zeroed prior
            (attempted fails g print_insn exception x r)
            x
            s).0
  entry_kept err fail give zeroed bad empty gives Holds holds lacks r l = record {
    memory =
        entry-KeepsMemory fails err fail give zeroed bad empty gives lacks prior
          (attempted fails g print_insn exception x r) x s valid l;
    all_given =
        entry-GivesAll fails err fail give zeroed bad Holds holds g print_insn exception x lacks
          prior r s valid l;
  }

  -- On a memory without blocks that were never given, whichever allocations fail and whether or not
  -- the C++ method throws: a call of one of the four functions that assemble, with all its arguments,
  -- keeps the contract. If the caller frees the outputs, the last one first, and the message, every
  -- block of memory is as it was; without success every output is NULL and 0; with success there is
  -- no message, the C++ method returned a value, and all of its parts are given: the bytes in a
  -- block with their count, an array with an element for each instruction, in order, and an array
  -- with an element for each relocation, in order; bytes and relocations are NULL only if there are
  -- none.
  pub assemble_calls-KeepsContract :
      (a : AssembleArgs)
      → lacks_argument a ≡ false
      → KeepsContract HoldsBytes
          (assemble g print_insn (source_of a) a.address (labels_of a) x).0
          (no_bytes ∷ [])
          s
          (nyxstone_assemble fails g print_insn exception a prior x s).0
        × KeepsContract
            (HoldsInstructions fails)
            (assemble_to_instructions g print_insn (source_of a) a.address (labels_of a) x).0
            (no_array ∷ [])
            s
            (nyxstone_assemble_to_instructions fails g print_insn exception a prior x s).0
        × KeepsContract GivesBytesRelocs
            (assemble_with_relocs g print_insn (source_of a) a.address (labels_of a) x).0
            (no_bytes ∷ no_array ∷ [])
            s
            (nyxstone_assemble_with_relocs fails g print_insn exception a prior x s).0
        × KeepsContract GivesInstructionsRelocs
            (assemble_to_instructions_with_relocs g print_insn
              (source_of a)
              a.address
              (labels_of a)
              x).0
            (no_array ∷ no_array ∷ [])
            s
            (nyxstone_assemble_to_instructions_with_relocs fails g print_insn exception a prior x
              s).0
  unfolding nyxstone_assemble nyxstone_assemble_to_instructions nyxstone_assemble_with_relocs
      nyxstone_assemble_to_instructions_with_relocs
  assemble_calls-KeepsContract a h = (
    entry_kept a.err classify_assemble_error (give_bytes fails) (no_bytes ∷ []) classify-fails
        (λ u. unfold release_all free in refl) (give_bytes-Gives fails) HoldsBytes
        (λ v t outs u ok e. give_bytes-HoldsBytes fails v t e) (lacks_argument a)
        (assemble g print_insn (source_of a) a.address (labels_of a) x) h,
    entry_kept a.err classify_assemble_error (give_instructions fails) (no_array ∷ [])
        classify-fails (λ u. unfold release_all free_array in refl) (give_instructions-Gives fails)
        (HoldsInstructions fails)
        (λ v t outs u ok. give_instructions-HoldsInstructions fails v t outs u) (lacks_argument a)
        (assemble_to_instructions g print_insn (source_of a) a.address (labels_of a) x) h,
    entry_kept a.err classify_assemble_error (give_bytes_relocs fails) (no_bytes ∷ no_array ∷ [])
        classify-fails (λ u. unfold release_all free free_array in refl)
        (give_bytes_relocs-Gives fails) GivesBytesRelocs (give_bytes_relocs-Gives_both fails)
        (lacks_argument a)
        (assemble_with_relocs g print_insn (source_of a) a.address (labels_of a) x) h,
    entry_kept a.err classify_assemble_error (give_instructions_relocs fails)
        (no_array ∷ no_array ∷ []) classify-fails (λ u. unfold release_all free_array in refl)
        (give_instructions_relocs-Gives fails) GivesInstructionsRelocs
        (give_instructions_relocs-Gives_both fails) (lacks_argument a)
        (assemble_to_instructions_with_relocs g print_insn (source_of a) a.address (labels_of a) x)
        h,
  )

  -- On a memory without blocks that were never given, whichever allocations fail and whether or not
  -- the C++ method throws: a call of one of the two functions that disassemble, with all its
  -- arguments, keeps the contract. If the caller frees the output and the message, every block of
  -- memory is as it was; without success the output is NULL and 0; with success there is no message,
  -- the C++ method returned a value, and it is given: the text with its NUL in a block, or an array
  -- with an element for each instruction, in order, with its address, text and bytes.
  pub disassemble_calls-KeepsContract :
      (a : DisassembleArgs)
      → lacks_input a ≡ false
      → KeepsContract GivesText
          (disassemble print_insn (input_of a) a.address a.count)
          (text_out none ∷ [])
          s
          (nyxstone_disassemble fails g print_insn exception a prior x s).0
        × KeepsContract
            (HoldsInstructions fails)
            (disassemble_to_instructions print_insn (input_of a) a.address a.count)
            (no_array ∷ [])
            s
            (nyxstone_disassemble_to_instructions fails g print_insn exception a prior x s).0
  unfolding nyxstone_disassemble nyxstone_disassemble_to_instructions
  disassemble_calls-KeepsContract a h = (
    entry_kept a.err (λ m. err_disasm_failed) (give_text fails) (text_out none ∷ []) (λ m e. cc)
        (λ u. unfold release_all free in refl) (give_text-Gives fails) GivesText
        (λ v t outs u ok. give_text-GivesText fails v t outs u) (lacks_input a)
        (disassemble print_insn (input_of a) a.address a.count, x) h,
    entry_kept a.err (λ m. err_disasm_failed) (give_instructions fails) (no_array ∷ []) (λ m e. cc)
        (λ u. unfold release_all free_array in refl) (give_instructions-Gives fails)
        (HoldsInstructions fails)
        (λ v t outs u ok. give_instructions-HoldsInstructions fails v t outs u) (lacks_input a)
        (disassemble_to_instructions print_insn (input_of a) a.address a.count, x) h,
  )

  -- On a memory without blocks that were never given, and whichever allocations fail: a call of one
  -- of the four functions that assemble is rejected exactly if the handle, the source or a place for
  -- an output is NULL, or the labels are NULL and their count is not 0. Rejected means that it
  -- returns NYXSTONE_ERR_NULL_ARG, leaves the state of gas and, apart from the message, the memory
  -- as they were, and does not write to the other out-parameters, which keep what the caller had in
  -- them.
  pub assemble_calls-IsRejected :
      (a : AssembleArgs)
      → ((IsRejected prior s (nyxstone_assemble fails g print_insn exception a prior x s).0
            × ((nyxstone_assemble fails g print_insn exception a prior x s).1 ≡ x))
          ↔ LacksArgument a)
        × ((IsRejected prior s
                (nyxstone_assemble_to_instructions fails g print_insn exception a prior x s).0
              × ((nyxstone_assemble_to_instructions fails g print_insn exception a prior x s).1
                  ≡ x))
            ↔ LacksArgument a)
        × ((IsRejected prior s
                (nyxstone_assemble_with_relocs fails g print_insn exception a prior x s).0
              × ((nyxstone_assemble_with_relocs fails g print_insn exception a prior x s).1 ≡ x))
            ↔ LacksArgument a)
        × ((IsRejected prior s
                (nyxstone_assemble_to_instructions_with_relocs fails g print_insn exception a prior
                  x s).0
              × ((nyxstone_assemble_to_instructions_with_relocs fails g print_insn exception a prior
                    x s).1
                  ≡ x))
            ↔ LacksArgument a)
  unfolding nyxstone_assemble nyxstone_assemble_to_instructions nyxstone_assemble_with_relocs
      nyxstone_assemble_to_instructions_with_relocs
  assemble_calls-IsRejected a = (
    Lacks_iff a (
        entry-IsRejected_iff fails a.err classify_assemble_error (give_bytes fails) (no_bytes ∷ [])
          (lacks_argument a) prior (assemble_run (assemble g print_insn) a) x s valid
          classify-not_null_arg),
    Lacks_iff a (
        entry-IsRejected_iff fails a.err classify_assemble_error (give_instructions fails)
          (no_array ∷ []) (lacks_argument a) prior
          (assemble_run (assemble_to_instructions g print_insn) a) x s valid classify-not_null_arg),
    Lacks_iff a (
        entry-IsRejected_iff fails a.err classify_assemble_error (give_bytes_relocs fails)
          (no_bytes ∷ no_array ∷ []) (lacks_argument a) prior
          (assemble_run (assemble_with_relocs g print_insn) a) x s valid classify-not_null_arg),
    Lacks_iff a (
        entry-IsRejected_iff fails a.err classify_assemble_error (give_instructions_relocs fails)
          (no_array ∷ no_array ∷ []) (lacks_argument a) prior
          (assemble_run (assemble_to_instructions_with_relocs g print_insn) a) x s valid
          classify-not_null_arg),
  )
