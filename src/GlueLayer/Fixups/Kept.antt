-- ===== src/GlueLayer/Fixups/Kept.antt =====
-- The image behind the second pass over the fixups, against the frags.
use nyxstone_tricore_gcc.Base.{
  ℕ, zero, suc, ◌+◌, ◌≡◌, refl, sym, ap, ◌∙◌, List, [], ◌∷◌, ◌++◌, append_assoc, arith, length,
  take, drop, length-append, length-take, length-drop, All, Bytes,
}
use nyxstone_tricore_gcc.Gas.{Frag, Fix, Chain, Gas}
use nyxstone_tricore_gcc.GlueLayer.Encode.Slices.{slice}
use nyxstone_tricore_gcc.GlueLayer.Sections.{frag_fix_size, frag_fill_size}
use nyxstone_tricore_gcc.GlueLayer.Sections.Extract.{
  fixed_part, filled_part, content, contents, HasLiteral, length-fixed_part, length-filled_part,
}
use nyxstone_tricore_gcc.GlueLayer.Sections.Image.{no_bytes_left}
use nyxstone_tricore_gcc.GlueLayer.Fixups.{Image, encode_fix, encode_fixes, encode_chains}
use nyxstone_tricore_gcc.GlueLayer.Fixups.Restore.{take_front, drop_front, IsSettled, IsImage}

drop_none : (n : ℕ) → drop {A = ℕ} n [] ≡ []
drop_none zero = refl
drop_none (suc n) = refl

drop_both : (m n : ℕ) (xs : Bytes) → drop (m + n) xs ≡ drop n (drop m xs)
drop_both zero n xs = ap (λ (k : ℕ). drop k xs) (omega arith)
drop_both (suc m) n [] = drop_none (suc m + n) ∙ sym (drop_none n)
drop_both (suc m) n (x ∷ xs) =
    let e : suc m + n ≡ suc (m + n) = omega arith in
    ap (λ (k : ℕ). drop k (x ∷ xs)) e ∙ drop_both m n xs

split_at : (n : ℕ) (xs : Bytes) → xs ≡ take n xs ++ drop n xs
split_at zero xs = refl
split_at (suc n) [] = refl
split_at (suc n) (x ∷ xs) = ap (λ r. x ∷ r) (split_at n xs)

-- The same bytes in the range.
abbrev pub SameAt : Bytes → Bytes → ℕ × ℕ → Type 0
SameAt old new (a, n) = slice a n new ≡ slice a n old

module _ {Symbol : Type 0} where
  -- The fixups of the section, in the order of the passes.
  abbrev pub all_fixes : List (Chain Symbol) → List (Fix Symbol)
  all_fixes [] = []
  all_fixes (fc ∷ rest) = fc.fixes ++ all_fixes rest

  -- The ranges of the fill bytes, where the frags stand one behind the other.
  abbrev pub fills : ℕ → List (Frag Symbol) → List (ℕ × ℕ)
  fills at [] = []
  fills at (fr ∷ frs) =
      let filled = at + frag_fix_size fr in
      (filled, frag_fill_size fr) ∷ fills (filled + frag_fill_size fr) frs

  -- What stands behind the fixed part of the first of the frags, and behind its fill bytes.
  first_filled :
      (fr : Frag Symbol) (frs : List (Frag Symbol)) (old : Bytes) (at : ℕ)
      → HasLiteral fr
      → drop at old ≡ contents (fr ∷ frs)
      → drop (at + frag_fix_size fr) old ≡ filled_part fr ++ contents frs
  first_filled fr frs old at h e =
      drop_both at (frag_fix_size fr) old
      ∙ ap (drop (frag_fix_size fr))
          (e ∙ append_assoc (fixed_part fr) (filled_part fr) (contents frs))
      ∙ drop_front (frag_fix_size fr) (fixed_part fr) _ (length-fixed_part fr h)

  rest_behind :
      (fr : Frag Symbol) (frs : List (Frag Symbol)) (old : Bytes) (at : ℕ)
      → HasLiteral fr
      → drop at old ≡ contents (fr ∷ frs)
      → drop (at + frag_fix_size fr + frag_fill_size fr) old ≡ contents frs
  rest_behind fr frs old at h e =
      drop_both (at + frag_fix_size fr) (frag_fill_size fr) old
      ∙ ap (drop (frag_fill_size fr)) (first_filled fr frs old at h e)
      ∙ drop_front (frag_fill_size fr) (filled_part fr) _ (length-filled_part fr h)

  -- Bytes that have the length of the frags' contents and the same fill bytes are an image of them.
  kept-IsImage :
      (frs : List (Frag Symbol)) (old new : Bytes) (at : ℕ)
      → All IsSettled frs
      → drop at old ≡ contents frs
      → length new ≡ length old
      → All (SameAt old new) (fills at frs)
      → IsImage frs (drop at new)
  kept-IsImage [] old new at h e size same =
      no_bytes_left (drop at new)
        (omega (arith, size, length-drop at new, length-drop at old, ap length e))
  kept-IsImage (fr ∷ frs) old new at ((room, settled), hs) e size (here, same) =
      let fixed = take (frag_fix_size fr) (drop at new) in
      let behind = at + frag_fix_size fr in
      let rest = drop (behind + frag_fill_size fr) new in
      let old_fill : slice behind (frag_fill_size fr) old ≡ filled_part fr =
        ap (take (frag_fill_size fr)) (first_filled fr frs old at room e)
        ∙ take_front (frag_fill_size fr) (filled_part fr) _ (length-filled_part fr room) in
      let whole : drop at new ≡ fixed ++ (filled_part fr ++ rest) =
        split_at (frag_fix_size fr) (drop at new)
        ∙ ap (λ r. fixed ++ r)
            (sym (drop_both at (frag_fix_size fr) new)
              ∙ split_at (frag_fill_size fr) (drop behind new)
              ∙ (λ i. (here ∙ old_fill) i ++ sym (drop_both behind (frag_fill_size fr) new) i)) in
      let fixed_size : length fixed ≡ frag_fix_size fr = omega (
        arith,
        size,
        length-take (frag_fix_size fr) (drop at new),
        length-drop at new,
        length-drop at old,
        ap length e,
        length-append (content fr) (contents frs),
        length-append (fixed_part fr) (filled_part fr),
        length-fixed_part fr room,
      ) in
      let more =
        kept-IsImage frs old new (behind + frag_fill_size fr) hs (rest_behind fr frs old at room e)
          size same in
      (fixed, rest, fixed_size, whole, more)

  -- If the image has the length of the frags' contents and their fill bytes, it is one of them.
  pub contents-IsImage :
      (frs : List (Frag Symbol)) (new : Bytes)
      → All IsSettled frs
      → length new ≡ length (contents frs)
      → All (SameAt (contents frs) new) (fills 0 frs)
      → IsImage frs new
  contents-IsImage frs new h size same = kept-IsImage frs (contents frs) new 0 h refl size same

module _ (g : Gas) (base : ℕ) (fcs : List (Chain g.Symbol)) where
  open g use {Symbol, World}

  encode_fixes-append :
      (xs ys : List (Fix Symbol)) (i : Image World)
      → encode_fixes g base fcs (xs ++ ys) i
        ≡ encode_fixes g base fcs ys (encode_fixes g base fcs xs i)
  unfolding encode_fixes
  encode_fixes-append [] ys i = refl
  encode_fixes-append (x ∷ xs) ys i = encode_fixes-append xs ys (encode_fix g base fcs x i)

  -- The second pass goes over the fixups of the chains as over one list.
  pub encode_chains-all_fixes :
      (rest : List (Chain Symbol)) (i : Image World)
      → encode_chains g base fcs rest i ≡ encode_fixes g base fcs (all_fixes rest) i
  unfolding encode_chains encode_fixes
  encode_chains-all_fixes [] i = refl
  encode_chains-all_fixes (fc ∷ rest) i =
      encode_chains-all_fixes rest (encode_fixes g base fcs fc.fixes i)
      ∙ sym (encode_fixes-append fc.fixes (all_fixes rest) i)
