-- ===== src/Driver/Local.antt =====
-- Steps of the driver only add to its state, and what they add depends on the text alone.
use nyxstone_tricore_gcc.Base.{
  ◌≡◌, refl, sym, ap, ◌∙◌, Bool, true, false, ◌||◌, List, [], ◌∷◌, ◌++◌, append-nil, append_assoc,
  if◌then◌else◌, is_empty, Bytes,
}
use nyxstone_tricore_gcc.Driver.{GlueCall, Driver, cleared, glue, directive_error, violate}

-- The state `e` reached behind `d`: its calls follow, and the first error of the two stands.
unfoldable pub extend : Driver → Driver → Driver
extend d e = record {
  calls = d.calls ++ e.calls;
  section_violation = d.section_violation || e.section_violation;
  directive_error = if is_empty d.directive_error then e.directive_error else d.directive_error;
}

abbrev pub IsLocal : (Driver → Driver) → Type 0
IsLocal f = (d : Driver) → f d ≡ extend d (f cleared)

first_assoc :
    (a b c : Bytes)
    → (if is_empty (if is_empty a then b else a) then c else (if is_empty a then b else a))
      ≡ (if is_empty a then (if is_empty b then c else b) else a)
first_assoc [] b c = refl
first_assoc (x ∷ a) b c = refl

or_three : (a b c : Bool) → (a || b || c) ≡ (a || (b || c))
or_three true b c = refl
or_three false b c = refl

pub extend_assoc : (a b c : Driver) → extend (extend a b) c ≡ extend a (extend b c)
unfolding extend
extend_assoc a b c = λ i. record {
  calls = append_assoc a.calls b.calls c.calls i;
  section_violation = or_three a.section_violation b.section_violation c.section_violation i;
  directive_error = first_assoc a.directive_error b.directive_error c.directive_error i;
}

or_false : (b : Bool) → (b || false) ≡ b
or_false true = refl
or_false false = refl

first_nil : (a : Bytes) → (if is_empty a then [] else a) ≡ a
first_nil [] = refl
first_nil (x ∷ a) = refl

pub extend-cleared : (d : Driver) → extend d cleared ≡ d
unfolding extend
extend-cleared d = λ i. record {
  calls = append-nil d.calls i;
  section_violation = or_false d.section_violation i;
  directive_error = first_nil d.directive_error i;
}

pub cleared-extend : (d : Driver) → extend cleared d ≡ d
unfolding extend
cleared-extend d = refl

or_true : (b : Bool) → (b || true) ≡ true
or_true true = refl
or_true false = refl

-- The steps.

pub skip-IsLocal : IsLocal (λ d. d)
skip-IsLocal d = sym (extend-cleared d)

pub glue-IsLocal : (c : GlueCall) → IsLocal (glue c)
unfolding extend
glue-IsLocal c d = λ i. record {
  calls = d.calls ++ c ∷ [];
  section_violation = sym (or_false d.section_violation) i;
  directive_error = sym (first_nil d.directive_error) i;
}

pub violate-IsLocal : IsLocal violate
unfolding extend
violate-IsLocal d = λ i. record {
  calls = sym (append-nil d.calls) i;
  section_violation = sym (or_true d.section_violation) i;
  directive_error = sym (first_nil d.directive_error) i;
}

pub directive_error-IsLocal : (msg : Bytes) → IsLocal (directive_error msg)
unfolding extend directive_error
directive_error-IsLocal msg d = raise d.calls d.section_violation d.directive_error
  where
    raise :
        (cs : List GlueCall) (v : Bool) (e : Bytes)
        → directive_error msg (record { calls = cs; section_violation = v; directive_error = e })
          ≡ extend
              (record { calls = cs; section_violation = v; directive_error = e })
              (directive_error msg cleared)
    raise cs v [] = λ i. record {
      calls = sym (append-nil cs) i;
      section_violation = sym (or_false v) i;
      directive_error = msg;
    }
    raise cs v (x ∷ e) = λ i. record {
      calls = sym (append-nil cs) i;
      section_violation = sym (or_false v) i;
      directive_error = x ∷ e;
    }

-- One step behind another.
pub then-IsLocal : {f g : Driver → Driver} → IsLocal f → IsLocal g → IsLocal (λ d. g (f d))
then-IsLocal {f} {g} lf lg d =
    lg (f d)
    ∙ ap (λ e. extend e (g cleared)) (lf d)
    ∙ extend_assoc d (f cleared) (g cleared)
    ∙ ap (extend d) (sym (lg (f cleared)))

pub if-IsLocal :
    (b : Bool) {f g : Driver → Driver}
    → IsLocal f
    → IsLocal g
    → IsLocal (λ d. if b then f d else g d)
if-IsLocal true lf lg = lf
if-IsLocal false lf lg = lg
