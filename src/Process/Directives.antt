-- ===== src/Process/Directives.antt =====
-- Every directive is local.
use nyxstone_tricore_gcc.Base.{
  Bool, Option, none, some, List, [], ◌∷◌, ◌==◌, if◌then◌else◌, Bytes, ℤ, pos, negsuc,
}
use nyxstone_tricore_gcc.Text.{ltrim}
use nyxstone_tricore_gcc.Driver.Local.{
  IsLocal, skip-IsLocal, glue-IsLocal, violate-IsLocal, directive_error-IsLocal, if-IsLocal,
}
use nyxstone_tricore_gcc.Data.{all_int_literals, parse_int_args}
use nyxstone_tricore_gcc.Data.Local.{emit_int_list-IsLocal, emit_ascii-IsLocal}
use nyxstone_tricore_gcc.Directive.{
  Kind, data_list, ascii, fill, origin, alignment, equate, text_section, named_section,
  other_section, metadata, unknown, fill_frag, handle_fill, org_frag, handle_org, Exponent,
  exponent, refused, alignment_exponent, align_frag, checked_align, handle_alignment, handle_equate,
  section_name, is_text_section, handle_kind,
}
use nyxstone_tricore_gcc.Process.{check_supported}

module _ (d args : Bytes) where
  fill_frag-IsLocal : (r : Option (List ℤ)) → IsLocal (fill_frag d args r)
  unfolding fill_frag
  fill_frag-IsLocal none = directive_error-IsLocal _
  fill_frag-IsLocal (some []) = directive_error-IsLocal _
  fill_frag-IsLocal (some (negsuc n ∷ vs)) = directive_error-IsLocal _
  fill_frag-IsLocal (some (pos n ∷ vs)) = if-IsLocal (n == 0) skip-IsLocal (glue-IsLocal _)

  org_frag-IsLocal : (r : Option (List ℤ)) → IsLocal (org_frag d args r)
  unfolding org_frag
  org_frag-IsLocal none = directive_error-IsLocal _
  org_frag-IsLocal (some []) = directive_error-IsLocal _
  org_frag-IsLocal (some (negsuc n ∷ vs)) = directive_error-IsLocal _
  org_frag-IsLocal (some (pos n ∷ vs)) = glue-IsLocal _

  align_frag-IsLocal : (e : Exponent) (vs : List ℤ) → IsLocal (align_frag d e vs)
  unfolding align_frag
  align_frag-IsLocal (refused why) vs = directive_error-IsLocal _
  align_frag-IsLocal (exponent p2) [] = glue-IsLocal _
  align_frag-IsLocal (exponent p2) (f ∷ vs) = glue-IsLocal _

  checked_align-IsLocal :
      (bytes : Bool) (r : Option (List ℤ)) → IsLocal (checked_align d args bytes r)
  unfolding checked_align
  checked_align-IsLocal bytes none = directive_error-IsLocal _
  checked_align-IsLocal bytes (some []) = directive_error-IsLocal _
  checked_align-IsLocal bytes (some (v ∷ vs)) = align_frag-IsLocal (alignment_exponent bytes v) vs

  handle_equate-IsLocal : IsLocal (handle_equate d args)
  unfolding handle_equate
  handle_equate-IsLocal = if-IsLocal _ (directive_error-IsLocal _) (glue-IsLocal _)

  handle_kind-IsLocal : (k : Kind) → IsLocal (λ drv. (handle_kind k d args drv).1)
  unfolding handle_kind handle_fill handle_org handle_alignment
  handle_kind-IsLocal (data_list w) =
      if-IsLocal (all_int_literals args) (emit_int_list-IsLocal args w) (glue-IsLocal _)
  handle_kind-IsLocal (ascii z) = emit_ascii-IsLocal d args z
  handle_kind-IsLocal (fill z) = fill_frag-IsLocal (parse_int_args (if z then 1 else 2) args)
  handle_kind-IsLocal origin = org_frag-IsLocal (parse_int_args 2 args)
  handle_kind-IsLocal (alignment bytes) = checked_align-IsLocal bytes (parse_int_args 3 args)
  handle_kind-IsLocal equate = handle_equate-IsLocal
  handle_kind-IsLocal text_section = skip-IsLocal
  handle_kind-IsLocal named_section =
      if-IsLocal (is_text_section (section_name (ltrim args))) skip-IsLocal violate-IsLocal
  handle_kind-IsLocal other_section = violate-IsLocal
  handle_kind-IsLocal metadata = skip-IsLocal
  handle_kind-IsLocal unknown = skip-IsLocal

  pub supported-IsLocal :
      (line : Bytes) (k : Kind) → IsLocal (λ drv. check_supported line (handle_kind k d args drv))
  unfolding check_supported handle_kind
  supported-IsLocal line unknown = directive_error-IsLocal _
  supported-IsLocal line k = handle_kind-IsLocal k
