-- ===== src/Assemble/Checks.antt =====
-- When `do_assemble` returns a value.
use nyxstone_tricore_gcc.Base.{
  ℕ, ◌≡◌, sym, ap, ◌∙◌, ◌↔◌, Bool, false, not, ◌&&◌, none, List, [], map, arith, ltb, if◌then◌else◌,
  is_empty, Bytes,
}
use nyxstone_tricore_gcc.Expected.{value}
use nyxstone_tricore_gcc.Glue.{Glue}
use nyxstone_tricore_gcc.Process.{read_source}
use nyxstone_tricore_gcc.Assemble.{
  LabelDefinition, AssembleCore, relocation_info, parsed, Outcome, parse_failed, resolved,
  assembled, core, concluded, do_assemble,
}

module _ (g : Glue) where
  open g use {
    State, reset, begin_capture, end_capture, perform, define_abs, had_errors, resolve_text_fixups,
    unsupported_reloc, collect_relocs, extract_text_bytes,
  }

  -- Every check passed on an outcome, and `c` is what is read from its final state.
  pub record Accepted (address : ℕ) (labels : List LabelDefinition) (with_relocs : Bool)
      (o : Outcome g) (c : AssembleCore) : Type 0 where
    pub no_directive_error : o.driver.directive_error ≡ []
    pub no_violation : o.driver.section_violation ≡ false
    pub no_parse_error : o.parse_err ≡ false
    pub all_supported : unsupported_reloc o.final ≡ none
    pub no_fixup_error : had_errors o.final ≡ o.errs_before
    pub all_resolved : (not with_relocs && ltb 0 o.unresolved) ≡ false
    pub result : c ≡ core g address labels with_relocs o.final

  module _ (address : ℕ) (labels : List LabelDefinition) (with_relocs : Bool) where
    pub concluded-Accepted :
        (o : Outcome g) (c : AssembleCore)
        → concluded g address labels with_relocs o ≡ value c
        → Accepted address labels with_relocs o c
    unfolding concluded
    concluded-Accepted o c h = ground arith

    pub Accepted-concluded :
        (o : Outcome g) (c : AssembleCore)
        → Accepted address labels with_relocs o c
        → concluded g address labels with_relocs o ≡ value c
    unfolding concluded
    Accepted-concluded o c a = ground arith

  -- What a successful call has done and found. `fixed` is the fixup pass on the parsed source.
  module _ (source : Bytes) (address : ℕ) (labels : List LabelDefinition) (with_relocs : Bool)
      (s : State) where
    abbrev pub after_parse : State
    after_parse = parsed g source labels with_relocs s

    abbrev pub fixed : ℕ × State
    fixed = resolve_text_fixups address after_parse

    abbrev pub at_end : State
    at_end = (end_capture fixed.1).1

    pub record Succeeds (c : AssembleCore) : Type 0 where
      pub no_directive_error : (read_source source).directive_error ≡ []
      pub no_violation : (read_source source).section_violation ≡ false
      pub no_parse_error : had_errors after_parse ≡ had_errors (reset s)
      pub all_supported : unsupported_reloc at_end ≡ none
      pub no_fixup_error : had_errors at_end ≡ had_errors (reset s)
      pub all_resolved : with_relocs ≡ false → fixed.0 ≡ 0
      pub bytes_are : c.bytes ≡ extract_text_bytes at_end
      pub relocations_are : c.relocations ≡ (
          if with_relocs then map (relocation_info address labels) (collect_relocs at_end) else [])

    abbrev outcome : Outcome g
    outcome = assembled g source address labels with_relocs s

    outcome-clean :
        (read_source source).directive_error ≡ []
        → (read_source source).section_violation ≡ false
        → parse_failed g source labels with_relocs s ≡ false
        → resolved g
            (not (parse_failed g source labels with_relocs s)
              && not (read_source source).section_violation
              && is_empty (read_source source).directive_error)
            address
            after_parse
          ≡ fixed
    unfolding resolved
    outcome-clean e v p = rw (e, v, p)

    outcome-ends :
        (read_source source).directive_error ≡ []
        → (read_source source).section_violation ≡ false
        → had_errors after_parse ≡ had_errors (reset s)
        → (outcome.final ≡ at_end) × (outcome.unresolved ≡ fixed.0)
    unfolding assembled parse_failed
    outcome-ends e v p =
        let r = outcome-clean e v (ground arith) in
        (ap (λ q. (end_capture q.1).1) r, ap (λ q. q.0) r)

    Accepted-Succeeds :
        (c : AssembleCore) → Accepted address labels with_relocs outcome c → Succeeds c
    unfolding assembled parse_failed core
    Accepted-Succeeds c a =
        let p : had_errors after_parse ≡ had_errors (reset s) =
          let q = a.no_parse_error in ground arith in
        let (f, u) = outcome-ends a.no_directive_error a.no_violation p in
        record {
          no_directive_error = a.no_directive_error;
          no_violation = a.no_violation;
          no_parse_error = p;
          all_supported = ap unsupported_reloc (sym f) ∙ a.all_supported;
          no_fixup_error = ap had_errors (sym f) ∙ a.no_fixup_error;
          all_resolved = λ w. let q = a.all_resolved in ground arith;
          bytes_are = ap (λ x. x.bytes) a.result ∙ ap extract_text_bytes f;
          relocations_are =
              ap (λ x. x.relocations) a.result
              ∙ ap (λ t. (core g address labels with_relocs t).relocations) f;
        }

    Succeeds-Accepted :
        (c : AssembleCore) → Succeeds c → Accepted address labels with_relocs outcome c
    unfolding assembled parse_failed core
    Succeeds-Accepted c a =
        let (f, u) = outcome-ends a.no_directive_error a.no_violation a.no_parse_error in
        record {
          no_directive_error = a.no_directive_error;
          no_violation = a.no_violation;
          no_parse_error = let q = a.no_parse_error in ground arith;
          all_supported = ap unsupported_reloc f ∙ a.all_supported;
          no_fixup_error = ap had_errors f ∙ a.no_fixup_error;
          all_resolved = let q = a.all_resolved in ground arith;
          result = cc (a.bytes_are, a.relocations_are, f);
        }

    -- `do_assemble` returns a value exactly if no directive was rejected, no directive left the text
    -- section, reading the source and the fixup pass reported no error of gas, no relocation is
    -- unsupported and, without relocations, none is unresolved; the value is then what the final
    -- state holds: the bytes of the text section, and with relocations each one of its, translated.
    pub do_assemble-Succeeds :
        (c : AssembleCore)
        → ((do_assemble g source address labels with_relocs s).0 ≡ value c) ↔ Succeeds c
    unfolding do_assemble
    do_assemble-Succeeds c = (
      λ h. Accepted-Succeeds c (concluded-Accepted address labels with_relocs outcome c h),
      λ h. Accepted-concluded address labels with_relocs outcome c (Succeeds-Accepted c h),
    )
