-- ===== src/CAbi/Violation.antt =====
-- The status for a source that leaves the text section.
use nyxstone_tricore_gcc.Base.{ℕ, ◌≡◌, refl, Bool, true, false, Option, none, List, [], Bytes}
use nyxstone_tricore_gcc.Expected.{error}
use nyxstone_tricore_gcc.Glue.{Glue}
use nyxstone_tricore_gcc.Decoder.{PrintInsn}
use nyxstone_tricore_gcc.Assemble.{LabelDefinition, section_error, do_assemble}
use nyxstone_tricore_gcc.Assemble.TextOnly.{HasLeaving, read_source-leaves}
use nyxstone_tricore_gcc.Process.{read_source}
use nyxstone_tricore_gcc.Source.BlockComments.{strip_block_comments}
use nyxstone_tricore_gcc.Source.Statements.{statements}
use nyxstone_tricore_gcc.Api.{
  assemble, assemble_to_instructions, assemble_with_relocs, assemble_to_instructions_with_relocs,
}
use nyxstone_tricore_gcc.CAbi.Store.{Store}
use nyxstone_tricore_gcc.CAbi.Entry.{
  err_section_violation, Out, classify_assemble_error, failing, answered,
}
use nyxstone_tricore_gcc.CAbi.Calls.{
  AssembleArgs, lacks_argument, source_of, labels_of, attempted, nyxstone_assemble,
  nyxstone_assemble_to_instructions, nyxstone_assemble_with_relocs,
  nyxstone_assemble_to_instructions_with_relocs,
}

do_assemble-section_error :
    (g : Glue) (source : Bytes) (address : ℕ) (labels : List LabelDefinition) (with_relocs : Bool)
    (s : g.State)
    → (read_source source).directive_error ≡ []
    → (read_source source).section_violation ≡ true
    → (do_assemble g source address labels with_relocs s).0 ≡ error section_error
unfolding do_assemble
do_assemble-section_error g source address labels with_relocs s e v = rw (e, v) refl

-- If a call of one of the four functions that assemble has all its arguments, the C++ method does
-- not throw, reading the source reports no directive error, and a statement of the source, its
-- comments removed, has a body behind its labels that leaves the text section, then the call returns
-- NYXSTONE_ERR_SECTION_VIOLATION.
pub assemble_calls-LeavesText :
    (fails : ℕ → Bool) (g : Glue) (print_insn : PrintInsn)
    (exception : g.State → Option (Option Bytes × g.State)) (a : AssembleArgs) (prior : List Out)
    (x : g.State) (s : Store)
    → lacks_argument a ≡ false
    → exception x ≡ none
    → (read_source (source_of a)).directive_error ≡ []
    → HasLeaving (statements (strip_block_comments (source_of a)))
    → ((nyxstone_assemble fails g print_insn exception a prior x s).0.status
        ≡ err_section_violation)
      × ((nyxstone_assemble_to_instructions fails g print_insn exception a prior x s).0.status
          ≡ err_section_violation)
      × ((nyxstone_assemble_with_relocs fails g print_insn exception a prior x s).0.status
          ≡ err_section_violation)
      × ((nyxstone_assemble_to_instructions_with_relocs fails g print_insn exception a prior x
            s).0.status
          ≡ err_section_violation)
unfolding nyxstone_assemble nyxstone_assemble_to_instructions nyxstone_assemble_with_relocs
    nyxstone_assemble_to_instructions_with_relocs
assemble_calls-LeavesText fails g print_insn exception a prior x s h n e l =
    let left = read_source-leaves (source_of a) l in
    let plain = do_assemble-section_error g (source_of a) a.address (labels_of a) false x e left in
    let with_relocs =
      do_assemble-section_error g (source_of a) a.address (labels_of a) true x e left in
    (
      rw (h, attempted, n, assemble, plain)
          (unfold answered failing classify_assemble_error in refl),
      rw (h, attempted, n, assemble_to_instructions, plain)
          (unfold answered failing classify_assemble_error in refl),
      rw (h, attempted, n, assemble_with_relocs, with_relocs)
          (unfold answered failing classify_assemble_error in refl),
      rw (h, attempted, n, assemble_to_instructions_with_relocs, with_relocs)
          (unfold answered failing classify_assemble_error in refl),
    )
