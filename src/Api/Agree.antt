-- ===== src/Api/Agree.antt =====
-- How the results of the public methods agree with each other.
use nyxstone_tricore_gcc.Base.{ℕ, ◌≡◌, refl, sym, ap, ◌∙◌, false, List, ◌++◌, append-nil, Bytes}
use nyxstone_tricore_gcc.Expected.{value, ◌>>=◌, >>=-eq-value}
use nyxstone_tricore_gcc.Glue.{Glue}
use nyxstone_tricore_gcc.Decoder.{PrintInsn}
use nyxstone_tricore_gcc.Disassemble.{Instruction, do_disassemble}
use nyxstone_tricore_gcc.Disassemble.Cover.{
  StaysInside, all_bytes, IsConsecutive, do_disassemble-Covers,
}
use nyxstone_tricore_gcc.Assemble.{LabelDefinition, do_assemble}
use nyxstone_tricore_gcc.Api.{assemble, assemble_to_instructions}

module _ (g : Glue) (print_insn : PrintInsn) (source : Bytes) (address : ℕ)
    (labels : List LabelDefinition) (s : g.State) where
  -- If the decoder never consumes more bytes than it is given and `assemble_to_instructions` returns
  -- instructions, then `assemble` returns bytes from the same arguments and state and leaves the same
  -- state; the instructions' bytes in order are these bytes, each instruction has a byte or more, and
  -- they stand one behind the other from the address on.
  pub assemble_to_instructions-assemble :
      {is : List Instruction}
      → StaysInside print_insn
      → (assemble_to_instructions g print_insn source address labels s).0 ≡ value is
      → ((assemble g print_insn source address labels s).0 ≡ value (all_bytes is))
        × ((assemble g print_insn source address labels s).1
            ≡ (assemble_to_instructions g print_insn source address labels s).1)
        × IsConsecutive address 0 is
  unfolding assemble_to_instructions assemble
  assemble_to_instructions-assemble {is} inside h =
      let (c, ok, dis) =
        >>=-eq-value (do_assemble g source address labels false s).0
          (λ c. do_disassemble print_insn c.bytes address 0) h in
      let covers = do_disassemble-Covers print_insn c.bytes address 0 inside dis in
      let whole : all_bytes is ≡ c.bytes =
        sym (append-nil (all_bytes is))
        ∙ ap (λ t. all_bytes is ++ t) (sym (covers.whole refl))
        ∙ covers.covered in
      (ap (λ r. r >>= (λ c. value c.bytes)) ok ∙ ap value (sym whole), refl, covers.consecutive)
