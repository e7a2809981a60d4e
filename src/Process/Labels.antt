-- ===== src/Process/Labels.antt =====
-- Labels in front of a statement.
use nyxstone_tricore_gcc.Base.{
  ℕ, zero, suc, ◌+◌, ◌<◌, ◌≡◌, refl, ◌∙◌, ◌≢◌, inl, inr, true, none, some, List, [], ◌∷◌, ◌++◌,
  arith, Option-cases, length, length-append, All, Bytes,
}
use nyxstone_tricore_gcc.Text.{is_space, is_digit, is_alnum, ltrim}
use nyxstone_tricore_gcc.Text.Trim.{length-ltrim, HeadIsSolid, ltrim-solid}
use nyxstone_tricore_gcc.Driver.{Driver}
use nyxstone_tricore_gcc.Process.{
  is_label_byte, label_span, as_label, take_label, define_label, strip_labels, dispatch, clean,
  process_clean, process,
}

-- A label: its name, and the spaces behind its colon.
pub record Label : Type 0 where
  pub name : Bytes
  pub gap : Bytes

abbrev pub IsName : Bytes → Type 0
IsName n = (n ≢ []) × All (λ c. is_label_byte c ≡ true) n

abbrev pub LabelIsValid : Label → Type 0
LabelIsValid l = IsName l.name × All (λ c. is_space c ≡ true) l.gap

abbrev pub labelled : List Label → Bytes → Bytes
labelled [] body = body
labelled (l ∷ ls) body = l.name ++ b':' ∷ (l.gap ++ labelled ls body)

abbrev pub define_all : List Label → Driver → Driver
define_all [] d = d
define_all (l ∷ ls) d = define_all ls (define_label l.name d)

label_span-name :
    (n rest : Bytes)
    → All (λ c. is_label_byte c ≡ true) n
    → label_span (n ++ b':' ∷ rest) ≡ (n, b':' ∷ rest)
unfolding label_span
label_span-name [] rest h = unfold is_label_byte is_alnum is_digit in refl
label_span-name (c ∷ n) rest h = ground (arith, label_span-name n rest)

take_label-name : (n rest : Bytes) → IsName n → take_label (n ++ b':' ∷ rest) ≡ some (n, rest)
unfolding take_label
take_label-name n rest h = rw (label_span-name n rest h.1) (colon_found n h.0)
  where
    colon_found : (m : Bytes) → m ≢ [] → as_label m (b':' ∷ rest) ≡ some (m, rest)
    colon_found [] ne = absurd (ne refl)
    colon_found (c ∷ m) ne = refl

length-label_span : (s : Bytes) → length (label_span s).0 + length (label_span s).1 ≡ length s
unfolding label_span
length-label_span [] = refl
length-label_span (c ∷ cs) = ground (arith, length-label_span cs)

length-take_label :
    (s : Bytes) {name rest : Bytes} → take_label s ≡ some (name, rest) → length rest < length s
unfolding take_label
length-take_label s {name} {rest} e =
    omega (arith, length-label_span s, shorter (label_span s).0 (label_span s).1 e)
  where
    shorter : (n r : Bytes) → as_label n r ≡ some (name, rest) → length rest < length n + length r
    shorter [] r h = ground arith
    shorter (c ∷ n) [] h = ground arith
    shorter (c ∷ n) (x ∷ r) h = ground arith

-- The loop over labels ends, with one round for each byte and one more.
pub strip_labels_total :
    (fuel : ℕ) (line : Bytes) (d : Driver)
    → length line < fuel
    → (r : Bytes × Driver) × (strip_labels fuel line d ≡ some r)
unfolding strip_labels
strip_labels_total zero line d h = absurd (omega arith)
strip_labels_total (suc fuel) line d h = elim (Option-cases (take_label line)) [
  | inl e ↦ ((line, d), ground arith)
  | inr ((name, rest), e) ↦
      let fits : length (ltrim rest) < fuel =
        omega (arith, length-ltrim rest, length-take_label line e) in
      let (r, onward) = strip_labels_total fuel (ltrim rest) (define_label name d) fits in
      (r, ground (arith, onward))
]

ltrim-gap : (g s : Bytes) → All (λ c. is_space c ≡ true) g → HeadIsSolid s → ltrim (g ++ s) ≡ s
unfolding ltrim
ltrim-gap [] s h solid = ltrim-solid s solid
ltrim-gap (c ∷ g) s h solid = ground (arith, ltrim-gap g s)

HeadIsSolid-labelled :
    (ls : List Label) (body : Bytes)
    → All LabelIsValid ls
    → HeadIsSolid body
    → HeadIsSolid (labelled ls body)
HeadIsSolid-labelled [] body v h = h
HeadIsSolid-labelled (l ∷ ls) body v h = head_of l.name v.0.0
  where
    head_of : (n : Bytes) → IsName n → HeadIsSolid (n ++ b':' ∷ (l.gap ++ labelled ls body))
    head_of [] w = absurd (w.0 refl)
    head_of (c ∷ n) w =
        let p = w.1.0 in unfold is_label_byte is_alnum is_digit is_space in ground arith

-- A statement's text behind its labels: it begins with no space and with no further label.
abbrev pub BodyIsValid : Bytes → Type 0
BodyIsValid body = HeadIsSolid body × (take_label body ≡ none)

strip_labels-labelled :
    (fuel : ℕ) (ls : List Label) (body : Bytes) (d : Driver)
    → All LabelIsValid ls
    → BodyIsValid body
    → length (labelled ls body) < fuel
    → strip_labels fuel (labelled ls body) d ≡ some (body, define_all ls d)
unfolding strip_labels
strip_labels-labelled zero ls body d v b h = absurd (omega arith)
strip_labels-labelled (suc fuel) [] body d v b h = rw (b.1, strip_labels)
strip_labels-labelled (suc fuel) (l ∷ ls) body d v b h =
    let tail = l.gap ++ labelled ls body in
    let found = take_label-name l.name tail v.0.0 in
    let trimmed = ltrim-gap l.gap (labelled ls body) v.0.1 (HeadIsSolid-labelled ls body v.1 b.0) in
    let sizes : length (labelled ls body) < fuel =
      omega (arith, length-append l.name (b':' ∷ tail), length-append l.gap (labelled ls body)) in
    let rest = strip_labels-labelled fuel ls body (define_label l.name d) v.1 b sizes in
    ground (arith, found, trimmed, rest)

process_clean-labelled :
    (ls : List Label) (body : Bytes) (d : Driver)
    → All LabelIsValid ls
    → BodyIsValid body
    → process_clean (labelled ls body) d ≡ dispatch body (define_all ls d)
unfolding process_clean
process_clean-labelled [] [] d v b = unfold dispatch in refl
process_clean-labelled [] (c ∷ body) d v b =
    rw (strip_labels-labelled (suc (length (c ∷ body))) [] (c ∷ body) d v b (omega arith))
process_clean-labelled (l ∷ ls) body d v b = go l.name (l.gap ++ labelled ls body) v.0.0 (
    strip_labels-labelled (suc (length (labelled (l ∷ ls) body))) (l ∷ ls) body d v b (omega arith))
  where
    go :
        (n t : Bytes)
        → IsName n
        → strip_labels (suc (length (n ++ b':' ∷ t))) (n ++ b':' ∷ t) d
          ≡ some (body, define_all (l ∷ ls) d)
        → process_clean (n ++ b':' ∷ t) d ≡ dispatch body (define_all (l ∷ ls) d)
    go [] t w h = absurd (w.0 refl)
    go (c ∷ n) t w h = rw h

process_clean-at : (line : Bytes) (d : Driver) → process line d ≡ process_clean (clean line) d
unfolding process
process_clean-at line d = refl

-- A statement that is, its comment and outer spaces cut off, a row of labels, each with a colon and
-- any spaces behind its name, and a body: it defines the labels in their order, each once, and then
-- handles the body, of which an empty one does nothing.
pub process-labelled :
    (line : Bytes) (ls : List Label) (body : Bytes) (d : Driver)
    → clean line ≡ labelled ls body
    → All LabelIsValid ls
    → BodyIsValid body
    → process line d ≡ dispatch body (define_all ls d)
process-labelled line ls body d e v b =
    process_clean-at line d ∙ rw e (process_clean-labelled ls body d v b)
