-- ===== src/CAbi/Calls.antt =====
-- src/nyxstone_c.cpp, the functions that take a handle. The handle is a flag: not NULL. An exception
-- of the C++ class, and the state that it leaves, is a parameter.
-- The arguments of the functions that assemble; `slots` says that no out-parameter but `out_err` is
-- NULL, `err` that `out_err` is not.
use nyxstone_tricore_gcc.Base.{
  ℕ, Bool, true, false, not, ◌&&◌, ◌||◌, Option, none, some, List, [], ◌∷◌, ltb, if◌then◌else◌,
  take, Bytes, codes,
}
use nyxstone_tricore_gcc.Expected.{Expected}
use nyxstone_tricore_gcc.Glue.{Glue}
use nyxstone_tricore_gcc.Decoder.{PrintInsn}
use nyxstone_tricore_gcc.Assemble.{LabelDefinition}
use nyxstone_tricore_gcc.Api.{
  disassemble_to_instructions, disassemble, assemble, assemble_to_instructions,
  assemble_with_relocs, assemble_to_instructions_with_relocs,
}
use nyxstone_tricore_gcc.CAbi.Store.{Store}
use nyxstone_tricore_gcc.CAbi.Entry.{
  Status, err_null_arg, err_disasm_failed, Out, bytes_out, text_out, array_out,
  classify_assemble_error, LabelDef, to_label_vector, Attempt, returned, threw, Answer, failing,
  answered, give_bytes, give_instructions, give_text, give_bytes_relocs, give_instructions_relocs,
}

pub record AssembleArgs : Type 0 where
  pub handle : Bool
  pub slots : Bool
  pub err : Bool
  pub source : Option Bytes
  pub src_len : ℕ
  pub address : ℕ
  pub labels : Option (List LabelDef)
  pub labels_len : ℕ

pub record DisassembleArgs : Type 0 where
  pub handle : Bool
  pub slots : Bool
  pub err : Bool
  pub bytes : Option Bytes
  pub bytes_len : ℕ
  pub address : ℕ
  pub count : ℕ

abbrev pub is_null {ℓ} : {A : Type ℓ} → Option A → Bool
is_null none = true
is_null (some a) = false

abbrev pub list_or_empty {ℓ} : {A : Type ℓ} → Option (List A) → List A
list_or_empty none = []
list_or_empty (some l) = l

unfoldable pub lacks_argument : AssembleArgs → Bool
lacks_argument a =
    not a.handle || is_null a.source || not a.slots || is_null a.labels && ltb 0 a.labels_len

unfoldable pub lacks_input : DisassembleArgs → Bool
lacks_input a = not a.handle || not a.slots || is_null a.bytes && ltb 0 a.bytes_len

-- `std::string(source, src_len)`
abbrev pub source_of : AssembleArgs → Bytes
source_of a = take a.src_len (list_or_empty a.source)

abbrev pub labels_of : AssembleArgs → List LabelDefinition
labels_of a = to_label_vector (take a.labels_len (list_or_empty a.labels))

abbrev pub input_of : DisassembleArgs → Bytes
input_of a = take a.bytes_len (list_or_empty a.bytes)

abbrev pub no_bytes : Out
no_bytes = bytes_out none 0

abbrev pub no_array : Out
no_array = array_out none 0

module _ (fails : ℕ → Bool) where
  -- A call: the out-parameters as the caller left them are `prior`.
  unfoldable pub entry :
      {A S : Type 0}
      → Bool
      → Bool
      → (Bytes → Status)
      → (A → Store → Option (List Out) × Store)
      → List Out
      → List Out
      → Attempt A × S
      → S
      → Store
      → Answer × S
  unfolding failing answered
  entry lacks err fail give zeroed prior run g s =
      if lacks
      then (failing fails err_null_arg err (codes "null argument") prior s, g)
      else (answered fails err fail give zeroed run.0 s, run.1)

  module _ (glue : Glue) (print_insn : PrintInsn)
      (exception : glue.State → Option (Option Bytes × glue.State)) where
    open glue use {State}

    unfoldable pub attempted : {A : Type 0} → State → Expected A × State → Attempt A × State
    attempted g r = elim (exception g) [ none ↦ (returned r.0, r.1) | some (w, g') ↦ (threw w, g') ]

    abbrev assemble_call :
        {A : Type 0}
        → (A → Store → Option (List Out) × Store)
        → List Out
        → (Bytes → ℕ → List LabelDefinition → State → Expected A × State)
        → AssembleArgs
        → List Out
        → State
        → Store
        → Answer × State
    assemble_call give zeroed method a prior g s =
        entry (lacks_argument a) a.err classify_assemble_error give zeroed prior
          (attempted g (method (source_of a) a.address (labels_of a) g)) g s

    unfoldable pub nyxstone_assemble : AssembleArgs → List Out → State → Store → Answer × State
    unfolding entry lacks_argument attempted assemble give_bytes classify_assemble_error
        to_label_vector
    nyxstone_assemble = assemble_call (give_bytes fails) (no_bytes ∷ []) (assemble glue print_insn)

    unfoldable pub nyxstone_assemble_to_instructions :
        AssembleArgs → List Out → State → Store → Answer × State
    unfolding entry lacks_argument attempted assemble_to_instructions give_instructions
        classify_assemble_error to_label_vector
    nyxstone_assemble_to_instructions =
        assemble_call (give_instructions fails) (no_array ∷ [])
          (assemble_to_instructions glue print_insn)

    unfoldable pub nyxstone_assemble_with_relocs :
        AssembleArgs → List Out → State → Store → Answer × State
    unfolding entry lacks_argument attempted assemble_with_relocs give_bytes_relocs
        classify_assemble_error to_label_vector
    nyxstone_assemble_with_relocs =
        assemble_call (give_bytes_relocs fails) (no_bytes ∷ no_array ∷ [])
          (assemble_with_relocs glue print_insn)

    unfoldable pub nyxstone_assemble_to_instructions_with_relocs :
        AssembleArgs → List Out → State → Store → Answer × State
    unfolding entry lacks_argument attempted assemble_to_instructions_with_relocs
        give_instructions_relocs classify_assemble_error to_label_vector
    nyxstone_assemble_to_instructions_with_relocs =
        assemble_call (give_instructions_relocs fails) (no_array ∷ no_array ∷ [])
          (assemble_to_instructions_with_relocs glue print_insn)

    abbrev disassemble_call :
        {A : Type 0}
        → (A → Store → Option (List Out) × Store)
        → List Out
        → (Bytes → ℕ → ℕ → Expected A)
        → DisassembleArgs
        → List Out
        → State
        → Store
        → Answer × State
    disassemble_call give zeroed method a prior g s =
        entry (lacks_input a) a.err (λ m. err_disasm_failed) give zeroed prior
          (attempted g (method (input_of a) a.address a.count, g)) g s

    unfoldable pub nyxstone_disassemble :
        DisassembleArgs → List Out → State → Store → Answer × State
    unfolding entry lacks_input attempted disassemble give_text
    nyxstone_disassemble =
        disassemble_call (give_text fails) (text_out none ∷ []) (disassemble print_insn)

    unfoldable pub nyxstone_disassemble_to_instructions :
        DisassembleArgs → List Out → State → Store → Answer × State
    unfolding entry lacks_input attempted disassemble_to_instructions give_instructions
    nyxstone_disassemble_to_instructions =
        disassemble_call (give_instructions fails) (no_array ∷ [])
          (disassemble_to_instructions print_insn)
