-- ===== src/Process/Local.antt =====
-- Every handler, and with them the processing of a whole source, is local.
use nyxstone_tricore_gcc.Base.{
  ℕ, zero, suc, ◌≡◌, refl, sym, ap, ◌∙◌, inl, inr, Option, none, some, List, [], ◌∷◌, arith, ◌==◌,
  if◌then◌else◌, Option-cases, length, is_empty, Bytes,
}
use nyxstone_tricore_gcc.Text.{ltrim, first_word}
use nyxstone_tricore_gcc.Driver.{Driver, cleared}
use nyxstone_tricore_gcc.Driver.Local.{
  extend, IsLocal, extend_assoc, extend-cleared, skip-IsLocal, glue-IsLocal, then-IsLocal,
  if-IsLocal,
}
use nyxstone_tricore_gcc.Data.{get_or}
use nyxstone_tricore_gcc.Data.Local.{same-IsLocal}
use nyxstone_tricore_gcc.Directive.{kind_of, operands, handle_directive}
use nyxstone_tricore_gcc.Process.{
  all_digits, take_label, define_label, strip_labels, check_supported, dispatch, clean,
  process_clean, process, process_all, run,
}
use nyxstone_tricore_gcc.Process.Directives.{supported-IsLocal}
use nyxstone_tricore_gcc.Source.Statements.{statements}

dispatch-IsLocal : (line : Bytes) → IsLocal (dispatch line)
unfolding dispatch
dispatch-IsLocal [] = skip-IsLocal
dispatch-IsLocal (c ∷ cs) = if-IsLocal (c == b'.') (directive-IsLocal (c ∷ cs)) (glue-IsLocal _)
  where
    directive-IsLocal :
        (line : Bytes) → IsLocal (λ d. check_supported line (handle_directive line d))
    directive-IsLocal line =
        supported-IsLocal (first_word line) (operands line) line (kind_of (first_word line))

define_label-IsLocal : (name : Bytes) → IsLocal (define_label name)
unfolding define_label
define_label-IsLocal name = if-IsLocal (all_digits name) (glue-IsLocal _) (glue-IsLocal _)

-- The loop over labels, which also returns the text that is left.
abbrev extend_labels : Driver → Option (Bytes × Driver) → Option (Bytes × Driver)
extend_labels d none = none
extend_labels d (some (body, e)) = some (body, extend d e)

extend_labels_assoc :
    (d e : Driver) (r : Option (Bytes × Driver))
    → extend_labels (extend d e) r ≡ extend_labels d (extend_labels e r)
extend_labels_assoc d e none = refl
extend_labels_assoc d e (some (body, e')) = ap (λ k. some (body, k)) (extend_assoc d e e')

strip_labels-extend :
    (fuel : ℕ) (line : Bytes) (d : Driver)
    → strip_labels fuel line d ≡ extend_labels d (strip_labels fuel line cleared)
unfolding strip_labels
strip_labels-extend zero line d = refl
strip_labels-extend (suc fuel) line d = elim (Option-cases (take_label line)) [
  | inl e ↦ ground (arith, extend-cleared d)
  | inr ((name, rest), e) ↦
      let here = define_label-IsLocal name d in
      let later = strip_labels-extend fuel (ltrim rest) (define_label name d) in
      let fresh = strip_labels-extend fuel (ltrim rest) (define_label name cleared) in
      let regroup =
        extend_labels_assoc d (define_label name cleared)
          (strip_labels fuel (ltrim rest) cleared) in
      ground (arith, here, later, fresh, regroup)
]

dispatched : Bytes × Driver → Driver
dispatched (body, e) = dispatch body e

dispatched-extend :
    (d : Driver) (r : Option (Bytes × Driver)) (l : Bytes)
    → dispatched (get_or (extend_labels d r) (l, d)) ≡ extend d (dispatched (get_or r (l, cleared)))
unfolding dispatched
dispatched-extend d none l = dispatch-IsLocal l d
dispatched-extend d (some (body, e)) l =
    dispatch-IsLocal body (extend d e)
    ∙ extend_assoc d e (dispatch body cleared)
    ∙ ap (extend d) (sym (dispatch-IsLocal body e))

process_clean-IsLocal : (l : Bytes) → IsLocal (process_clean l)
process_clean-IsLocal l =
    same-IsLocal
      (λ d.
        if is_empty l then d else dispatched (get_or (strip_labels (suc (length l)) l d) (l, d)))
      (λ d. unfold process_clean dispatched in refl)
      (if-IsLocal (is_empty l) skip-IsLocal body-IsLocal)
  where
    body-IsLocal : IsLocal (λ d. dispatched (get_or (strip_labels (suc (length l)) l d) (l, d)))
    body-IsLocal d =
        ap (λ r. dispatched (get_or r (l, d))) (strip_labels-extend (suc (length l)) l d)
        ∙ dispatched-extend d (strip_labels (suc (length l)) l cleared) l

pub process-IsLocal : (line : Bytes) → IsLocal (process line)
unfolding process
process-IsLocal line = process_clean-IsLocal (clean line)

pub process_all-IsLocal : (ss : List Bytes) → IsLocal (process_all ss)
unfolding process_all
process_all-IsLocal [] = skip-IsLocal
process_all-IsLocal (s ∷ ss) = then-IsLocal (process-IsLocal s) (process_all-IsLocal ss)

-- Reading a text from any state of the driver gives that state with the text's own calls behind the
-- calls that were there, with a section violation if there was one or the text has one, and with the
-- first of the two errors: no statement depends on what was read before it or undoes it.
pub run-extend : (text : Bytes) (d : Driver) → run text d ≡ extend d (run text cleared)
unfolding run
run-extend text = process_all-IsLocal (statements text)
