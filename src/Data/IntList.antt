-- ===== src/Data/IntList.antt =====
-- The three loops over comma-separated integers agree.
use nyxstone_tricore_gcc.Base.{
  ℕ, zero, suc, ◌≤◌, ◌<◌, ◌≡◌, refl, sym, ap, ◌∙◌, ◌⊎◌, inl, inr, true, false, none, some, List, [],
  ◌∷◌, arith, ◌==◌, if◌then◌else◌, Option-cases, length, Bytes, ℤ,
}
use nyxstone_tricore_gcc.Text.{ltrim}
use nyxstone_tricore_gcc.Text.Trim.{length-ltrim, ltrim-HeadIsSolid, ltrim-solid}
use nyxstone_tricore_gcc.Literal.{strtoll, parse_int}
use nyxstone_tricore_gcc.Literal.Progress.{length-parse_int}
use nyxstone_tricore_gcc.Driver.{Driver}
use nyxstone_tricore_gcc.Data.{
  emit_word, skip_comma, emit_int_loop, emit_int_list, literal_loop, all_int_literals,
  parse_int_args,
}

abbrev pub emit_words : ℕ → List ℤ → Driver → Driver
emit_words w [] d = d
emit_words w (v ∷ vs) d = emit_words w vs (emit_word w v d)

pub length-skip_comma : (s : Bytes) → length (skip_comma s) ≤ length s
unfolding skip_comma
length-skip_comma [] = omega arith
length-skip_comma (c ∷ cs) = ground arith

-- The loop of `emit_int_list` ends, with one round for each byte and one more.
pub emit_int_loop_total :
    (fuel w : ℕ) (p : Bytes) (d : Driver)
    → length p < fuel
    → (d' : Driver) × (emit_int_loop fuel w p d ≡ some d')
unfolding emit_int_loop
emit_int_loop_total zero w p d h = absurd (omega arith)
emit_int_loop_total (suc fuel) w [] d h = (d, refl)
emit_int_loop_total (suc fuel) w (c ∷ cs) d h = elim (Option-cases (parse_int (c ∷ cs))) [
  | inl e ↦ (d, ground arith)
  | inr ((v, next), e) ↦
      let shorter : length (skip_comma (ltrim next)) < fuel =
        omega
          (arith, length-skip_comma (ltrim next), length-ltrim next, length-parse_int (c ∷ cs) e) in
      let (d', rest) =
        emit_int_loop_total fuel w (skip_comma (ltrim next)) (emit_word w v d) shorter in
      (d', ground (arith, rest))
]

-- How a round of these loops goes, on the text from `p` on.
data Round (p : Bytes) : Type 0 where
  ended : ltrim p ≡ [] → Round p
  refused : (c : ℕ) (cs : Bytes) → ltrim p ≡ c ∷ cs → parse_int (c ∷ cs) ≡ none → Round p
  last :
      (c : ℕ) (cs : Bytes) (v : ℤ) (next : Bytes)
      → ltrim p ≡ c ∷ cs
      → parse_int (c ∷ cs) ≡ some (v, next)
      → ltrim next ≡ []
      → Round p
  more :
      (c : ℕ) (cs : Bytes) (v : ℤ) (next : Bytes) (x : ℕ) (xs : Bytes)
      → ltrim p ≡ c ∷ cs
      → parse_int (c ∷ cs) ≡ some (v, next)
      → ltrim next ≡ x ∷ xs
      → Round p

pub Bytes-cases : (s : Bytes) → (s ≡ []) ⊎ ((c : ℕ) × (cs : Bytes) × (s ≡ c ∷ cs))
Bytes-cases [] = inl refl
Bytes-cases (c ∷ cs) = inr (c, cs, refl)

round : (p : Bytes) → Round p
round p = elim (Bytes-cases (ltrim p)) [
  | inl e ↦ ended e
  | inr (c, cs, e) ↦ elim (Option-cases (parse_int (c ∷ cs))) [
    | inl r ↦ refused c cs e r
    | inr ((v, next), r) ↦ elim (Bytes-cases (ltrim next)) [
      | inl t ↦ last c cs v next e r t
      | inr (x, xs, t) ↦ more c cs v next x xs e r t
    ]
  ]
]

parse_int-ltrim : (p : Bytes) → parse_int (ltrim p) ≡ parse_int p
unfolding parse_int
parse_int-ltrim p = ap strtoll (ltrim-solid (ltrim p) (ltrim-HeadIsSolid p))

-- What the three loops do with a text that holds only integers.
record Agrees (w k : ℕ) (p : Bytes) (d : Driver) (fuel : ℕ) : Type 0 where
  values : List ℤ
  args_lem : parse_int_args k p ≡ some values
  emits : emit_int_loop fuel w p d ≡ some (emit_words w values d)

emit_int_loop-none :
    (fuel w : ℕ) (p : Bytes) (d : Driver)
    → parse_int p ≡ none
    → emit_int_loop (suc fuel) w p d ≡ some d
unfolding emit_int_loop
emit_int_loop-none fuel w [] d e = refl
emit_int_loop-none fuel w (c ∷ cs) d e = ground arith

emit_int_loop-some :
    (fuel w : ℕ) (p : Bytes) (d : Driver) {v : ℤ} {next : Bytes}
    → parse_int p ≡ some (v, next)
    → emit_int_loop (suc fuel) w p d
      ≡ emit_int_loop fuel w (skip_comma (ltrim next)) (emit_word w v d)
unfolding emit_int_loop
emit_int_loop-some fuel w [] d e = absurd (omega (arith, length-parse_int [] e))
emit_int_loop-some fuel w (c ∷ cs) d e = ground arith

emit_int_loop-end : (fuel w : ℕ) (d : Driver) → 0 < fuel → emit_int_loop fuel w [] d ≡ some d
unfolding emit_int_loop
emit_int_loop-end zero w d h = absurd (omega arith)
emit_int_loop-end (suc fuel) w d h = refl

module _ (p : Bytes) where
  literal_loop-refused :
      (f : ℕ) {c : ℕ} {cs : Bytes}
      → ltrim p ≡ c ∷ cs
      → parse_int (c ∷ cs) ≡ none
      → literal_loop (suc f) p ≡ some false
  unfolding literal_loop
  literal_loop-refused f e r = ground arith

  module _ {c : ℕ} {cs : Bytes} {v : ℤ} {next : Bytes} (e : ltrim p ≡ c ∷ cs)
      (r : parse_int (c ∷ cs) ≡ some (v, next)) where
    literal_loop-more :
        (f : ℕ) {x : ℕ} {xs : Bytes}
        → ltrim next ≡ x ∷ xs
        → literal_loop (suc f) p ≡ (if x == b',' then literal_loop f xs else some false)
    unfolding literal_loop
    literal_loop-more f t = ground arith

    parse_int_args-last : (k : ℕ) → ltrim next ≡ [] → parse_int_args (suc k) p ≡ some (v ∷ [])
    unfolding parse_int_args
    parse_int_args-last k t = ground arith

    parse_int_args-more :
        (k : ℕ) {x : ℕ} {xs : Bytes} {vs : List ℤ}
        → ltrim next ≡ x ∷ xs
        → (x == b',') ≡ true
        → parse_int_args k xs ≡ some vs
        → parse_int_args (suc k) p ≡ some (v ∷ vs)
    unfolding parse_int_args
    parse_int_args-more k t q h = ground arith

    parse_int-here : parse_int p ≡ some (v, next)
    parse_int-here = sym (parse_int-ltrim p) ∙ rw e r

    length-here : length next < length p
    length-here = length-parse_int p parse_int-here

parse_int_args-ended : (k : ℕ) (p : Bytes) → ltrim p ≡ [] → parse_int_args (suc k) p ≡ some []
unfolding parse_int_args
parse_int_args-ended k p e = ground arith

parse_int-ended : (p : Bytes) → ltrim p ≡ [] → parse_int p ≡ none
parse_int-ended p e = sym (parse_int-ltrim p) ∙ rw e (unfold parse_int in refl)

comma-skip_comma :
    (s : Bytes) {x : ℕ} {xs : Bytes} → s ≡ x ∷ xs → (x == b',') ≡ true → skip_comma s ≡ xs
unfolding skip_comma
comma-skip_comma s e h = rw e (ground arith)

agree_on :
    (f : ℕ) (w k : ℕ) (p : Bytes) (d : Driver) (fuel : ℕ)
    → literal_loop f p ≡ some true
    → length p < k
    → length p < fuel
    → Agrees w k p d fuel
agree_on zero w k p d fuel h a b = unfold literal_loop in cc
agree_on (suc f) w zero p d fuel h a b = absurd (omega arith)
agree_on (suc f) w (suc k) p d zero h a b = absurd (omega arith)
agree_on (suc f) w (suc k) p d (suc fuel) h a b = elim (round p) [
  | ended e ↦ record {
    values = [];
    args_lem = parse_int_args-ended k p e;
    emits = emit_int_loop-none fuel w p d (parse_int-ended p e);
  }
  | refused c cs e r ↦ cc (literal_loop-refused p f e r)
  | last c cs v next e r t ↦
      let ends = emit_int_loop-end fuel w (emit_word w v d) (omega (arith, length-here p e r)) in
      record {
        values = v ∷ [];
        args_lem = parse_int_args-last p e r k t;
        emits =
            emit_int_loop-some fuel w p d (parse_int-here p e r) ∙ rw t (unfold skip_comma in ends);
      }
  | more c cs v next x xs e r t ↦
      let comma : (x == b',') ≡ true = ground (arith, literal_loop-more p e r f t) in
      let onward : literal_loop f xs ≡ some true = ground (arith, literal_loop-more p e r f t) in
      let fits : length xs < length p =
        omega (arith, length-here p e r, length-ltrim next, ap length t) in
      let rest = agree_on f w k xs (emit_word w v d) fuel onward (omega arith) (omega arith) in
      record {
        values = v ∷ rest.values;
        args_lem = parse_int_args-more p e r k t comma rest.args_lem;
        emits =
            emit_int_loop-some fuel w p d (parse_int-here p e r)
            ∙ rw (comma-skip_comma (ltrim next) t comma) rest.emits;
      }
]

-- If a text passes the test for the fast path, `parse_int_args` with room for all operands reads it
-- whole, and `emit_int_list` emits exactly the integers that it reads, in order, each once, whatever
-- the width.
pub emit_int_list-parse_int_args :
    (args : Bytes) (w : ℕ) (d : Driver)
    → all_int_literals args ≡ true
    → (vs : List ℤ) × (parse_int_args (suc (length args)) args ≡ some vs)
      × (emit_int_list args w d ≡ emit_words w vs d)
unfolding all_int_literals emit_int_list
emit_int_list-parse_int_args args w d h = (all.values, all.args_lem, rw all.emits)
  where
    read : literal_loop (suc (length args)) args ≡ some true
    read = elim (Option-cases (literal_loop (suc (length args)) args)) [
      | inl e ↦ cc
      | inr (b, e) ↦ ground arith
    ]

    all : Agrees w (suc (length args)) args d (suc (length args))
    all =
        agree_on (suc (length args)) w (suc (length args)) args d (suc (length args)) read
          (omega arith) (omega arith)
