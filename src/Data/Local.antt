-- ===== src/Data/Local.antt =====
-- Emitting data is local.
use nyxstone_tricore_gcc.Base.{
  ℕ, zero, suc, ◌≡◌, refl, sym, ap, ◌∙◌, inl, inr, Bool, true, false, Option, none, some, [], ◌∷◌,
  ◌++◌, arith, ◌==◌, if◌then◌else◌, Bool-cases, Option-cases, length, Bytes, codes, ℤ, pos,
}
use nyxstone_tricore_gcc.Text.{ltrim}
use nyxstone_tricore_gcc.Literal.{parse_int}
use nyxstone_tricore_gcc.Driver.{emit_bytes, Driver, cleared, directive_error}
use nyxstone_tricore_gcc.Driver.Local.{
  extend, IsLocal, extend_assoc, extend-cleared, skip-IsLocal, glue-IsLocal,
  directive_error-IsLocal, then-IsLocal, if-IsLocal,
}
use nyxstone_tricore_gcc.Data.{
  emit_word, skip_comma, emit_int_loop, get_or, emit_int_list, read_string, emit_string, ascii_loop,
  emit_ascii,
}
use nyxstone_tricore_gcc.Data.IntList.{Bytes-cases}

abbrev extend_option : Driver → Option Driver → Option Driver
extend_option d none = none
extend_option d (some e) = some (extend d e)

-- A loop that may run out of fuel.
abbrev LoopIsLocal : (Driver → Option Driver) → Type 0
LoopIsLocal f = (d : Driver) → f d ≡ extend_option d (f cleared)

then-LoopIsLocal :
    {f : Driver → Driver} {g : Driver → Option Driver}
    → IsLocal f
    → LoopIsLocal g
    → LoopIsLocal (λ d. g (f d))
then-LoopIsLocal {f} {g} lf lg d =
    lg (f d)
    ∙ ap (λ e. extend_option e (g cleared)) (lf d)
    ∙ regroup (g cleared)
    ∙ ap (extend_option d) (sym (lg (f cleared)))
  where
    regroup :
        (r : Option Driver)
        → extend_option (extend d (f cleared)) r ≡ extend_option d (extend_option (f cleared) r)
    regroup none = refl
    regroup (some e) = ap some (extend_assoc d (f cleared) e)

some-LoopIsLocal : {f : Driver → Driver} → IsLocal f → LoopIsLocal (λ d. some (f d))
some-LoopIsLocal lf d = ap some (lf d)

-- The loop's result, where the fuel is enough or not.
get_or-IsLocal : (f : Driver → Option Driver) → LoopIsLocal f → IsLocal (λ d. get_or (f d) d)
get_or-IsLocal f lf d = ap (λ r. get_or r d) (lf d) ∙ choose (f cleared)
  where
    choose : (r : Option Driver) → get_or (extend_option d r) d ≡ extend d (get_or r cleared)
    choose none = sym (extend-cleared d)
    choose (some e) = refl

emit_word-IsLocal : (w : ℕ) (v : ℤ) → IsLocal (emit_word w v)
unfolding emit_word
emit_word-IsLocal w v = glue-IsLocal _

emit_int_loop-IsLocal : (fuel w : ℕ) (p : Bytes) → LoopIsLocal (emit_int_loop fuel w p)
unfolding emit_int_loop
emit_int_loop-IsLocal zero w p d = refl
emit_int_loop-IsLocal (suc fuel) w [] d = some-LoopIsLocal skip-IsLocal d
emit_int_loop-IsLocal (suc fuel) w (c ∷ cs) d =
    (elim (parse_int (c ∷ cs))
        as (λ r. LoopIsLocal (λ e. elim r [
          | none ↦ some e
          | some (v, next) ↦ emit_int_loop fuel w (skip_comma (ltrim next)) (emit_word w v e)
        ])) [
          | none ↦ some-LoopIsLocal skip-IsLocal
          | some (v, next) ↦
              then-LoopIsLocal (emit_word-IsLocal w v)
                (emit_int_loop-IsLocal fuel w (skip_comma (ltrim next)))
        ])
      d

pub emit_int_list-IsLocal : (args : Bytes) (w : ℕ) → IsLocal (emit_int_list args w)
unfolding emit_int_list
emit_int_list-IsLocal args w =
    get_or-IsLocal (emit_int_loop (suc (length args)) w args)
      (emit_int_loop-IsLocal (suc (length args)) w args)

emit_string-IsLocal : (z : Bool) (out : Bytes) → IsLocal (emit_string z out)
unfolding emit_string
emit_string-IsLocal true out =
    then-IsLocal (glue-IsLocal (emit_bytes out)) (emit_word-IsLocal 1 (pos 0))
emit_string-IsLocal false out = glue-IsLocal (emit_bytes out)

same-LoopIsLocal :
    {f : Driver → Option Driver} (g : Driver → Option Driver)
    → ((d : Driver) → f d ≡ g d)
    → LoopIsLocal g
    → LoopIsLocal f
same-LoopIsLocal g e lg d = e d ∙ lg d ∙ ap (extend_option d) (sym (e cleared))

pub same-IsLocal :
    {f : Driver → Driver} (g : Driver → Driver) → ((d : Driver) → f d ≡ g d) → IsLocal g → IsLocal f
same-IsLocal g e lg d = e d ∙ lg d ∙ ap (extend d) (sym (e cleared))

module _ (name args : Bytes) (z : Bool) where
  ascii_loop-IsLocal :
      (fuel : ℕ) (any : Bool) (p : Bytes) → LoopIsLocal (ascii_loop fuel name args z any p)
  ascii_loop-IsLocal zero any p = unfold ascii_loop in λ d. refl
  ascii_loop-IsLocal (suc fuel) any p = elim (Bytes-cases (ltrim p)) [
    | inl e ↦
        same-LoopIsLocal (λ d. some (if any then d else directive_error no_string d))
          (λ d. unfold ascii_loop in ground arith)
          (some-LoopIsLocal (if-IsLocal any skip-IsLocal (directive_error-IsLocal no_string)))
    | inr (c, cs, e) ↦ elim (Bool-cases (c == b'"')) [
      | inr n ↦
          same-LoopIsLocal (λ d. some (directive_error no_quote d))
            (λ d. unfold ascii_loop in ground arith)
            (some-LoopIsLocal (directive_error-IsLocal no_quote))
      | inl q ↦ elim (Option-cases (read_string cs)) [
        | inl r ↦
            same-LoopIsLocal (λ d. some (directive_error no_end d))
              (λ d. unfold ascii_loop in ground arith)
              (some-LoopIsLocal (directive_error-IsLocal no_end))
        | inr ((out, rest), r) ↦
            same-LoopIsLocal
              (λ d.
                ascii_loop fuel name args z true (skip_comma (ltrim rest)) (emit_string z out d))
              (λ d. unfold ascii_loop in ground arith)
              (then-LoopIsLocal (emit_string-IsLocal z out)
                (ascii_loop-IsLocal fuel true (skip_comma (ltrim rest))))
      ]
    ]
  ]
    where
      no_string : Bytes
      no_string = name ++ codes ": expected a quoted string"

      no_quote : Bytes
      no_quote = name ++ (codes ": expected a quoted string, got '" ++ (args ++ codes "'"))

      no_end : Bytes
      no_end = name ++ codes ": unterminated string"

pub emit_ascii-IsLocal : (name args : Bytes) (z : Bool) → IsLocal (emit_ascii name args z)
unfolding emit_ascii
emit_ascii-IsLocal name args z =
    get_or-IsLocal (ascii_loop (suc (length args)) name args z false args)
      (ascii_loop-IsLocal name args z (suc (length args)) false args)
