-- ===== src/CAbi/Entry.antt =====
-- src/nyxstone_c.cpp, the entry points. A caller's out-parameters are a list of `Out`, in the order of
-- the C parameters; the handle holds no state of its own.
-- `nyxstone_status_t`
use nyxstone_tricore_gcc.Base.{
  ℕ, Bool, true, false, ◌||◌, Option, none, some, List, [], ◌∷◌, ◌++◌, if◌then◌else◌, length,
  is_empty, Bytes, codes, c_str,
}
use nyxstone_tricore_gcc.Text.{has_prefix}
use nyxstone_tricore_gcc.Expected.{Expected, value, error}
use nyxstone_tricore_gcc.Disassemble.{Instruction}
use nyxstone_tricore_gcc.Assemble.{LabelDefinition, RelocationInfo}
use nyxstone_tricore_gcc.Api.{AssembleWithRelocsResult, AssembleInstructionsWithRelocsResult}
use nyxstone_tricore_gcc.CAbi.Store.{chars, Store, malloc, free, free_array}
use nyxstone_tricore_gcc.CAbi.Convert.{dup_string, convert_instructions, convert_relocations}

pub data Status : Type 0 where
  status_ok : Status
  err_init : Status
  err_null_arg : Status
  err_assemble_failed : Status
  err_section_violation : Status
  err_disasm_failed : Status
  err_alloc : Status

-- A pointer with its length: to bytes, to a text (which has no length), or to an array.
pub data Out : Type 0 where
  bytes_out : Option ℕ → ℕ → Out
  text_out : Option ℕ → Out
  array_out : Option ℕ → ℕ → Out

-- `msg.find(phrase) != npos`
unfoldable pub contains : Bytes → Bytes → Bool
unfolding has_prefix
contains phrase [] = has_prefix phrase []
contains phrase (c ∷ s) = has_prefix phrase (c ∷ s) || contains phrase s

unfoldable pub classify_assemble_error : Bytes → Status
unfolding contains
classify_assemble_error msg =
    if contains (codes "only .text is allowed") msg
    then err_section_violation
    else err_assemble_failed

-- `nyxstone_label_def_t`
pub record LabelDef : Type 0 where
  pub name : Option Bytes
  pub address : ℕ

abbrev name_or_empty : Option Bytes → Bytes
name_or_empty none = []
name_or_empty (some n) = c_str n

unfoldable pub to_label_vector : List LabelDef → List LabelDefinition
unfolding c_str
to_label_vector [] = []
to_label_vector (l ∷ ls) =
    record { name = name_or_empty l.name; address = l.address } ∷ to_label_vector ls

-- How a method ends: with its result, or with an exception, whose `what()` is `none` if it is no
-- `std::exception`.
pub data Attempt {ℓ} (A : Type ℓ) : Type ℓ where
  returned : Expected A → Attempt A
  threw : Option Bytes → Attempt A

-- What an entry point leaves: its status, `*out_err`, the out-parameters and the memory.
pub record Answer : Type 0 where
  pub status : Status
  pub message : Option ℕ
  pub outs : List Out
  pub store : Store

abbrev pub what : Option Bytes → Bytes
what none = codes "unknown C++ exception"
what (some w) = c_str w

-- `nyxstone_free_bytes`, `nyxstone_free_string`, `nyxstone_free_instructions` and
-- `nyxstone_free_relocations` on what an entry point gave, the last one first.
unfoldable pub release : Out → Store → Store
unfolding free free_array
release (bytes_out p n) s = free p s
release (text_out p) s = free p s
release (array_out p n) s = free_array p n s

unfoldable pub release_all : List Out → Store → Store
unfolding release
release_all [] s = s
release_all (o ∷ os) s = release o (release_all os s)

module _ (fails : ℕ → Bool) where
  -- `set_err` behind `*out_err = nullptr`; the flag says that `out_err` is not NULL.
  unfoldable pub set_err : Bool → Bytes → Store → Option ℕ × Store
  unfolding dup_string
  set_err false text s = (none, s)
  set_err true text s = dup_string fails text s

  unfoldable pub failing : Status → Bool → Bytes → List Out → Store → Answer
  unfolding set_err
  failing status err text outs s =
      let (m, s') = set_err err text s in
      record { status = status; message = m; outs = outs; store = s' }

  abbrev pub given : Bool → List Out → Option (List Out) × Store → Answer
  given err zeroed (none, s) = failing err_alloc err (codes "out of memory") zeroed s
  given err zeroed (some outs, s) = record {
    status = status_ok;
    message = none;
    outs = outs;
    store = s;
  }

  -- The body behind the test for NULL arguments, with the out-parameters zeroed.
  unfoldable pub answered {ℓ} :
      {A : Type ℓ}
      → Bool
      → (Bytes → Status)
      → (A → Store → Option (List Out) × Store)
      → List Out
      → Attempt A
      → Store
      → Answer
  unfolding failing c_str
  answered err fail give zeroed (threw w) s = failing err_alloc err (what w) zeroed s
  answered err fail give zeroed (returned (error m)) s = failing (fail m) err m zeroed s
  answered err fail give zeroed (returned (value a)) s = given err zeroed (give a s)

  -- What the entry points do with a result.

  abbrev pub bytes_given : ℕ → Option ℕ × Store → Option (List Out) × Store
  bytes_given n (none, s) = (none, s)
  bytes_given n (some p, s) = (some (bytes_out (some p) n ∷ []), s)

  unfoldable pub give_bytes : Bytes → Store → Option (List Out) × Store
  unfolding malloc
  give_bytes bytes s =
      if is_empty bytes
      then (some (bytes_out none 0 ∷ []), s)
      else bytes_given (length bytes) (malloc fails (chars bytes) s)

  abbrev pub array_given : ℕ → Option ℕ × Store → Option (List Out) × Store
  array_given n (none, s) = (none, s)
  array_given n (some p, s) = (some (array_out (some p) n ∷ []), s)

  unfoldable pub give_instructions : List Instruction → Store → Option (List Out) × Store
  unfolding convert_instructions
  give_instructions v s = array_given (length v) (convert_instructions fails v s)

  abbrev pub text_given : Option ℕ × Store → Option (List Out) × Store
  text_given (none, s) = (none, s)
  text_given (some p, s) = (some (text_out (some p) ∷ []), s)

  unfoldable pub give_text : Bytes → Store → Option (List Out) × Store
  unfolding dup_string
  give_text text s = text_given (dup_string fails text s)

  unfoldable pub give_relocs : List RelocationInfo → Store → Option (List Out) × Store
  unfolding convert_relocations
  give_relocs v s =
      if is_empty v
      then (some (array_out none 0 ∷ []), s)
      else array_given (length v) (convert_relocations fails v s)

  -- The relocations behind a first output, which is freed if they fail.
  abbrev pub joined : List Out → Option (List Out) × Store → Option (List Out) × Store
  joined first (none, s) = (none, release_all first s)
  joined first (some relocs, s) = (some (first ++ relocs), s)

  abbrev pub then_relocs :
      List RelocationInfo → Option (List Out) × Store → Option (List Out) × Store
  then_relocs v (none, s) = (none, s)
  then_relocs v (some first, s) = joined first (give_relocs v s)

  unfoldable pub give_bytes_relocs : AssembleWithRelocsResult → Store → Option (List Out) × Store
  unfolding give_bytes give_relocs release_all
  give_bytes_relocs r s = then_relocs r.relocations (give_bytes r.bytes s)

  unfoldable pub give_instructions_relocs :
      AssembleInstructionsWithRelocsResult → Store → Option (List Out) × Store
  unfolding give_instructions give_relocs release_all
  give_instructions_relocs r s = then_relocs r.relocations (give_instructions r.instructions s)
