-- ===== src/GlueLayer/Sections/Extract.antt =====
-- `nyxstone_glue_extract_text_bytes` against the contents of the frags one behind the other.
use nyxstone_tricore_gcc.GlueLayer.Sections.Writing.{
  repeated, length-repeated, Wrote, put_bytes-Wrote, fill_loop-Wrote, Wrote-fits, nothing-Wrote,
}
use nyxstone_tricore_gcc.Base.{
  ℕ, ◌+◌, ◌*◌, ◌≤◌, ◌≡◌, refl, sym, ap, subst, ◌∙◌, inl, inr, false, List, [], ◌∷◌, ◌++◌,
  append-nil, append_assoc, arith, ltb, ◌==◌, if◌then◌else◌, Bool-cases, length, take, drop,
  length-append, length-take, length-drop, All, Bytes,
}
use nyxstone_tricore_gcc.Gas.{Frag, Chain}
use nyxstone_tricore_gcc.GlueLayer.Sections.{
  is_fill, count_of, all_frags, frag_fix_size, frag_fill_size, pattern_of, write_fixed, write_fill,
  extract_frag, extract_frags, extract_chains,
}
use mathlib.Core.Path.{ap₂}

module _ {Symbol : Type 0} where
  -- The bytes that a frag stands for: its fixed part, and its pattern as often as it says.
  abbrev pub fixed_part : Frag Symbol → Bytes
  fixed_part fr = take (frag_fix_size fr) fr.literal

  abbrev pub filled_part : Frag Symbol → Bytes
  filled_part fr = if is_fill fr.kind then repeated (count_of fr.offset) (pattern_of fr) else []

  abbrev pub content : Frag Symbol → Bytes
  content fr = fixed_part fr ++ filled_part fr

  abbrev pub contents : List (Frag Symbol) → Bytes
  contents [] = []
  contents (fr ∷ frs) = content fr ++ contents frs

  -- The literal has room for the fixed part, and for the pattern of a filled frag.
  abbrev pub HasLiteral : Frag Symbol → Type 0
  HasLiteral fr = (frag_fix_size fr ≤ length fr.literal) × (fr.fix + fr.var ≤ length fr.literal)

  pub length-fixed_part :
      (fr : Frag Symbol) → HasLiteral fr → length (fixed_part fr) ≡ frag_fix_size fr
  length-fixed_part fr (h, p) = omega (arith, length-take (frag_fix_size fr) fr.literal)

  length-pattern_of : (fr : Frag Symbol) → HasLiteral fr → length (pattern_of fr) ≡ fr.var
  length-pattern_of fr (h, p) =
      omega (arith, length-take fr.var (drop fr.fix fr.literal), length-drop fr.fix fr.literal)

  pub length-filled_part :
      (fr : Frag Symbol) → HasLiteral fr → length (filled_part fr) ≡ frag_fill_size fr
  unfolding frag_fill_size
  length-filled_part fr h = elim (Bool-cases (is_fill fr.kind)) [
    | inl e ↦ simp e (
        length-repeated (count_of fr.offset) (pattern_of fr)
        ∙ ap (λ (n : ℕ). count_of fr.offset * n) (length-pattern_of fr h))
    | inr e ↦ simp e refl
  ]

  write_fixed-Wrote :
      (fr : Frag Symbol) (done old : Bytes) (k : ℕ)
      → HasLiteral fr
      → length old ≡ length (fixed_part fr) + k
      → Wrote done (fixed_part fr) k (write_fixed fr (done ++ old) (length done))
  unfolding write_fixed
  write_fixed-Wrote fr done old k room h =
      let fits : ltb (length (done ++ old)) (length done + frag_fix_size fr) ≡ false =
        ground (arith, Wrote-fits done (fixed_part fr) old k h, length-fixed_part fr room) in
      simp fits (put_bytes-Wrote done (fixed_part fr) old k h)

  no_fill : (fr : Frag Symbol) → is_fill fr.kind ≡ false → frag_fill_size fr ≡ 0
  unfolding frag_fill_size
  no_fill fr e = simp e refl

  pub contents-append :
      (xs ys : List (Frag Symbol)) → contents (xs ++ ys) ≡ contents xs ++ contents ys
  contents-append [] ys = refl
  contents-append (fr ∷ xs) ys =
      ap (λ r. content fr ++ r) (contents-append xs ys)
      ∙ sym (append_assoc (content fr) (contents xs) (contents ys))

  write_fill-Wrote :
      (fr : Frag Symbol) (done old : Bytes) (k : ℕ)
      → HasLiteral fr
      → length old ≡ length (filled_part fr) + k
      → Wrote done (filled_part fr) k (write_fill fr (done ++ old) (length done))
  unfolding write_fill
  write_fill-Wrote fr done old k room h = elim (Bool-cases (frag_fill_size fr == 0)) [
    | inl none_asked ↦ simp none_asked (
        nothing-Wrote done (filled_part fr) old k
          (ground (arith, length-filled_part fr room, none_asked)) h)
    | inr some_asked ↦ elim (Bool-cases (is_fill fr.kind)) [
      | inl e ↦
          let pat = repeated (count_of fr.offset) (pattern_of fr) in
          let filled : filled_part fr ≡ pat = simp e refl in
          let size : length old ≡ count_of fr.offset * length (pattern_of fr) + k =
            omega
              (arith, h, ap length filled, length-repeated (count_of fr.offset) (pattern_of fr)) in
          let fits : ltb (length (done ++ old)) (length done + frag_fill_size fr) ≡ false =
            ground (arith, Wrote-fits done (filled_part fr) old k h, length-filled_part fr room) in
          subst (λ bs. Wrote done bs k (write_fill fr (done ++ old) (length done))) (sym filled)
            (simp (some_asked, fits)
              (fill_loop-Wrote (count_of fr.offset) done (pattern_of fr) old k size))
      | inr e ↦ absurd (ground (arith, no_fill fr e, some_asked))
    ]
  ]

  extract_frag-Wrote :
      (fr : Frag Symbol) (done old : Bytes) (k : ℕ)
      → HasLiteral fr
      → length old ≡ length (content fr) + k
      → let (out, total) = extract_frag fr (done ++ old) (length done) in
        Wrote done (content fr) k out × (total ≡ length (done ++ content fr))
  unfolding extract_frag
  extract_frag-Wrote fr done old k room h =
      let split = length-append (fixed_part fr) (filled_part fr) in
      let (old', size, e) =
        write_fixed-Wrote fr done old (length (filled_part fr) + k) room (omega arith) in
      let (old'', size', e') = write_fill-Wrote fr (done ++ fixed_part fr) old' k room size in
      let at : length done + frag_fix_size fr ≡ length (done ++ fixed_part fr) =
        omega (arith, length-append done (fixed_part fr), length-fixed_part fr room) in
      let steps : write_fill fr (write_fixed fr (done ++ old) (length done))
            (length done + frag_fix_size fr)
          ≡ write_fill fr ((done ++ fixed_part fr) ++ old') (length (done ++ fixed_part fr)) =
        λ i. write_fill fr (e i) (at i) in
      (
        (
          old'',
          size',
          steps ∙ e' ∙ ap (λ r. r ++ old'') (append_assoc done (fixed_part fr) (filled_part fr)),
        ),
        omega (
          arith,
          split,
          length-append done (content fr),
          length-fixed_part fr room,
          length-filled_part fr room,
        ),
      )

  extract_frags-Wrote :
      (frs : List (Frag Symbol)) (done old : Bytes) (k : ℕ)
      → All HasLiteral frs
      → length old ≡ length (contents frs) + k
      → let (out, total) = extract_frags frs (done ++ old) (length done) in
        Wrote done (contents frs) k out × (total ≡ length (done ++ contents frs))
  unfolding extract_frags
  extract_frags-Wrote [] done old k h size = (
    (old, omega arith, ap (λ r. r ++ old) (sym (append-nil done))),
    ap length (sym (append-nil done)),
  )
  extract_frags-Wrote (fr ∷ frs) done old k (h, hs) size =
      let here = content fr in
      let split = length-append here (contents frs) in
      let ((old', size', e), total) =
        extract_frag-Wrote fr done old (length (contents frs) + k) h (omega arith) in
      let ((old'', size'', e'), total') = extract_frags-Wrote frs (done ++ here) old' k hs size' in
      let run = λ (out : Bytes) (n : ℕ). extract_frags frs out n in
      let steps = ap₂ run e total in
      let joined = append_assoc done here (contents frs) in
      (
        (old'', size'', ap (λ r. r.0) steps ∙ e' ∙ ap (λ r. r ++ old'') joined),
        ap (λ r. r.1) steps ∙ total' ∙ ap length joined,
      )

  pub extract_chains-Wrote :
      (fcs : List (Chain Symbol)) (done old : Bytes) (k : ℕ)
      → All (λ fc. All HasLiteral fc.frags) fcs
      → length old ≡ length (contents (all_frags fcs)) + k
      → let (out, total) = extract_chains fcs (done ++ old) (length done) in
        Wrote done (contents (all_frags fcs)) k out
        × (total ≡ length (done ++ contents (all_frags fcs)))
  unfolding extract_chains
  extract_chains-Wrote [] done old k h size = (
    (old, omega arith, ap (λ r. r ++ old) (sym (append-nil done))),
    ap length (sym (append-nil done)),
  )
  extract_chains-Wrote (fc ∷ fcs) done old k (h, hs) size =
      let here = contents fc.frags in
      let more = contents (all_frags fcs) in
      let both : contents (fc.frags ++ all_frags fcs) ≡ here ++ more =
        contents-append fc.frags (all_frags fcs) in
      let split = length-append here more in
      let ((old', size', e), total) =
        extract_frags-Wrote fc.frags done old (length more + k) h (omega (arith, ap length both)) in
      let ((old'', size'', e'), total') = extract_chains-Wrote fcs (done ++ here) old' k hs size' in
      let run = λ (out : Bytes) (n : ℕ). extract_chains fcs out n in
      let steps = ap₂ run e total in
      let joined = append_assoc done here more ∙ ap (λ r. done ++ r) (sym both) in
      (
        (old'', size'', ap (λ r. r.0) steps ∙ e' ∙ ap (λ r. r ++ old'') joined),
        ap (λ r. r.1) steps ∙ total' ∙ ap length joined,
      )
