-- ===== src/Api.antt =====
-- src/nyxstone.cpp, the public methods of include/nyxstone/nyxstone.h.
pub mod Agree
pub mod Relocations
use nyxstone_tricore_gcc.Base.{
  ℕ, true, false, List, [], ◌∷◌, ◌++◌, ◌==◌, if◌then◌else◌, Bytes, codes,
}
use nyxstone_tricore_gcc.Expected.{Expected, value, error, ◌>>=◌}
use nyxstone_tricore_gcc.Glue.{Glue}
use nyxstone_tricore_gcc.Decoder.{PrintInsn}
use nyxstone_tricore_gcc.Disassemble.{Instruction, do_disassemble}
use nyxstone_tricore_gcc.Assemble.{LabelDefinition, RelocationInfo, AssembleCore, do_assemble}

pub record AssembleWithRelocsResult : Type 0 where
  pub bytes : Bytes
  pub relocations : List RelocationInfo

pub record AssembleInstructionsWithRelocsResult : Type 0 where
  pub instructions : List Instruction
  pub relocations : List RelocationInfo

abbrev pub as_relocs_result : AssembleCore → AssembleWithRelocsResult
as_relocs_result r = record { bytes = r.bytes; relocations = r.relocations }

-- The text of `disassemble`: a line for each instruction.
unfoldable pub listing : List Instruction → Bytes
listing [] = []
listing (i ∷ is) = i.assembly ++ b'\n' ∷ listing is

-- `create`; the parameter is what `nyxstone_glue_init_once` returns.
unfoldable pub create : ℕ → Expected (Unit {0})
create rc =
    if rc == 0
    then value tt
    else error
        (codes "NyxstoneTricoreGCC::create: libbfd init or elf32-tricore target lookup failed")

module _ (print_insn : PrintInsn) where
  unfoldable pub disassemble_to_instructions : Bytes → ℕ → ℕ → Expected (List Instruction)
  disassemble_to_instructions = do_disassemble print_insn

  unfoldable pub disassemble : Bytes → ℕ → ℕ → Expected Bytes
  unfolding listing
  disassemble bytes address count = do
    v ← do_disassemble print_insn bytes address count
    value (listing v)

module _ (g : Glue) (print_insn : PrintInsn) where
  open g use {State}

  unfoldable pub assemble : Bytes → ℕ → List LabelDefinition → State → Expected Bytes × State
  assemble source address labels s =
      let (r, s') = do_assemble g source address labels false s in ((do c ← r; value c.bytes), s')

  unfoldable pub assemble_to_instructions :
      Bytes → ℕ → List LabelDefinition → State → Expected (List Instruction) × State
  assemble_to_instructions source address labels s =
      let (r, s') = do_assemble g source address labels false s in
      ((do c ← r; do_disassemble print_insn c.bytes address 0), s')

  unfoldable pub assemble_with_relocs :
      Bytes → ℕ → List LabelDefinition → State → Expected AssembleWithRelocsResult × State
  assemble_with_relocs source address labels s =
      let (r, s') = do_assemble g source address labels true s in
      ((do c ← r; value (as_relocs_result c)), s')

  unfoldable pub assemble_to_instructions_with_relocs :
      Bytes
      → ℕ
      → List LabelDefinition
      → State
      → Expected AssembleInstructionsWithRelocsResult × State
  assemble_to_instructions_with_relocs source address labels s =
      let (r, s') = do_assemble g source address labels true s in
      (
        (do
          c ← r
          is ← do_disassemble print_insn c.bytes address 0
          value (record { instructions = is; relocations = c.relocations })),
        s',
      )
