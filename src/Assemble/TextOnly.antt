-- ===== src/Assemble/TextOnly.antt =====
-- Statements that leave the text section.
use nyxstone_tricore_gcc.Base.{
  ℕ, ◌≡◌, refl, sym, ap, subst, ◌∙◌, ◌⊎◌, inl, inr, Bool, true, false, List, [], ◌∷◌, ◌++◌, arith,
  Bool-cases, All, Bytes, codes, bytes_eq, one_of, bytes_eq_iff,
}
use nyxstone_tricore_gcc.Text.{ltrim, first_word}
use nyxstone_tricore_gcc.Expected.{value}
use nyxstone_tricore_gcc.Glue.{Glue}
use nyxstone_tricore_gcc.Driver.{Driver, cleared}
use nyxstone_tricore_gcc.Driver.Local.{extend}
use nyxstone_tricore_gcc.Directive.{
  section_switches, Kind, named_section, other_section, kind_of, section_name, is_text_section,
  handle_kind, operands, handle_directive,
}
use nyxstone_tricore_gcc.Process.{
  check_supported, dispatch, clean, process, process_all, run, read_source,
}
use nyxstone_tricore_gcc.Process.Local.{process_all-IsLocal}
use nyxstone_tricore_gcc.Process.Labels.{
  Label, LabelIsValid, labelled, define_all, BodyIsValid, process-labelled,
}
use nyxstone_tricore_gcc.Source.BlockComments.{strip_block_comments}
use nyxstone_tricore_gcc.Source.Statements.{statements}
use nyxstone_tricore_gcc.Assemble.{LabelDefinition, AssembleCore, do_assemble}
use nyxstone_tricore_gcc.Assemble.Checks.{do_assemble-Succeeds}

-- A directive for another section, or `.section` with a name other than `.text` and `.text.*`.
abbrev pub LeavesText : Bytes → Type 0
LeavesText body =
    (one_of (first_word body) section_switches ≡ true)
    ⊎ ((first_word body ≡ codes ".section")
        × (is_text_section (section_name (ltrim (operands body))) ≡ false))

one_of-All : (P : Bytes → Type 0) (d : Bytes) (l : List Bytes) → All P l → one_of d l ≡ true → P d
unfolding one_of
one_of-All P d [] a h = cc
one_of-All P d (x ∷ l) a h = elim (Bool-cases (bytes_eq d x)) [
  | inl e ↦ subst P (sym ((bytes_eq_iff d x).0 e)) a.0
  | inr n ↦ one_of-All P d l a.1 (ground arith)
]

-- A dot in front, and the branch of the directive's name.
abbrev IsDirective : Kind → Bytes → Type 0
IsDirective k d = ((w : Bytes) × (d ≡ b'.' ∷ w)) × (kind_of d ≡ k)

section_switches-IsDirective : All (IsDirective other_section) section_switches
unfolding kind_of
section_switches-IsDirective = (
  ((_, refl), refl),
  (
    ((_, refl), refl),
    (
      ((_, refl), refl),
      (
        ((_, refl), refl),
        (
          ((_, refl), refl),
          (((_, refl), refl), (((_, refl), refl), (((_, refl), refl), (((_, refl), refl), tt)))),
        ),
      ),
    ),
  ),
)

first_word-dot :
    (body : Bytes) (w : Bytes) → first_word body ≡ b'.' ∷ w → (r : Bytes) × (body ≡ b'.' ∷ r)
unfolding first_word
first_word-dot [] w h = cc
first_word-dot (c ∷ body) w h = (body, ground arith)

dispatch-dot :
    (body w : Bytes) (d : Driver)
    → body ≡ b'.' ∷ w
    → dispatch body d ≡ check_supported body (handle_directive body d)
dispatch-dot body w d e = rw e (unfold dispatch in refl)

dispatch-leaves :
    (body : Bytes) (d : Driver) → LeavesText body → (dispatch body d).section_violation ≡ true
unfolding handle_directive check_supported
dispatch-leaves body d (inl h) =
    let ((w, e), k) =
      one_of-All (IsDirective other_section) (first_word body) section_switches
        section_switches-IsDirective h in
    let (r, e') = first_word-dot body w e in
    ap (λ x. x.section_violation) (dispatch-dot body r d e') ∙ rw k (unfold handle_kind in refl)
dispatch-leaves body d (inr (e, t)) =
    let (r, e') = first_word-dot body _ e in
    let k : kind_of (first_word body) ≡ named_section = rw e (unfold kind_of in refl) in
    ap (λ x. x.section_violation) (dispatch-dot body r d e')
    ∙ rw k (unfold handle_kind in rw t refl)

-- A statement among others: its labels, and a body that leaves the text section.
pub record HasLeaving (stmts : List Bytes) : Type 0 where
  pub earlier : List Bytes
  pub line : Bytes
  pub later : List Bytes
  pub among : stmts ≡ earlier ++ line ∷ later
  pub labels : List Label
  pub body : Bytes
  pub is_labelled : clean line ≡ labelled labels body
  pub labels_valid : All LabelIsValid labels
  pub body_valid : BodyIsValid body
  pub leaves : LeavesText body

process_all-append :
    (a b : List Bytes) (d : Driver) → process_all (a ++ b) d ≡ process_all b (process_all a d)
unfolding process_all
process_all-append [] b d = refl
process_all-append (x ∷ a) b d = process_all-append a b (process x d)

violation_stays :
    (ss : List Bytes) (d : Driver)
    → d.section_violation ≡ true
    → (process_all ss d).section_violation ≡ true
violation_stays ss d h =
    ap (λ x. x.section_violation) (process_all-IsLocal ss d) ∙ unfold extend in rw h

process_all-leaves :
    (ss : List Bytes) (d : Driver) → HasLeaving ss → (process_all ss d).section_violation ≡ true
process_all-leaves ss d x =
    let here = process_all x.earlier d in
    let step : (process x.line here).section_violation ≡ true =
      ap (λ y. y.section_violation)
        (process-labelled x.line x.labels x.body here x.is_labelled x.labels_valid x.body_valid)
      ∙ dispatch-leaves x.body (define_all x.labels here) x.leaves in
    ap (λ y. (process_all y d).section_violation) x.among
    ∙ ap (λ y. y.section_violation) (process_all-append x.earlier (x.line ∷ x.later) d)
    ∙ unfold process_all in violation_stays x.later (process x.line here) step

pub read_source-leaves :
    (source : Bytes)
    → HasLeaving (statements (strip_block_comments source))
    → (read_source source).section_violation ≡ true
unfolding read_source run
read_source-leaves source x = process_all-leaves _ cleared x

-- If a statement of the source, its comments removed, has a body behind its labels that leaves the
-- text section, then assembling the source gives no value, whatever else it holds, for every glue
-- layer, address, list of labels and starting state, with and without relocations.
pub do_assemble-LeavesText :
    (g : Glue) (source : Bytes) (address : ℕ) (labels : List LabelDefinition) (with_relocs : Bool)
    (s : g.State) (c : AssembleCore)
    → HasLeaving (statements (strip_block_comments source))
    → ¬ ((do_assemble g source address labels with_relocs s).0 ≡ value c)
do_assemble-LeavesText g source address labels with_relocs s c x h =
    let ok = (do_assemble-Succeeds g source address labels with_relocs s c).0 h in
    cc (ok.no_violation, read_source-leaves source x)
