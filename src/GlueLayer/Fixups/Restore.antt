-- ===== src/GlueLayer/Fixups/Restore.antt =====
-- The copy of the encoded image back into the frags.
use nyxstone_tricore_gcc.Base.{
  ℕ, zero, suc, ◌+◌, ◌^◌, ◌<◌, ◌≡◌, refl, sym, ap, subst, ◌∙◌, true, some, List, [], ◌∷◌, ◌++◌,
  append-nil, append_assoc, arith, leb, if◌then◌else◌, length, take, drop, length-append,
  length-drop, All, Bytes,
}
use nyxstone_tricore_gcc.Gas.{Frag, Chain}
use nyxstone_tricore_gcc.Disassemble.{u64_add}
use nyxstone_tricore_gcc.GlueLayer.Encode.{put_bytes}
use nyxstone_tricore_gcc.GlueLayer.Encode.Bytewise.{put_bytes-replaces}
use nyxstone_tricore_gcc.GlueLayer.Sections.{
  is_fill, count_of, all_frags, frag_fix_size, frag_fill_size, extract_text_bytes,
}
use nyxstone_tricore_gcc.GlueLayer.Sections.Extract.{
  filled_part, content, contents, HasLiteral, length-filled_part,
}
use nyxstone_tricore_gcc.GlueLayer.Sections.Writing.{repeated}
use nyxstone_tricore_gcc.GlueLayer.Sections.Image.{extract_text_bytes-contents}
use nyxstone_tricore_gcc.GlueLayer.Fixups.{restored, restore_frags, restore}

pub take_front : (n : ℕ) (xs ys : Bytes) → length xs ≡ n → take n (xs ++ ys) ≡ xs
take_front zero [] ys e = refl
take_front zero (x ∷ xs) ys e = absurd (omega arith)
take_front (suc n) [] ys e = absurd (omega arith)
take_front (suc n) (x ∷ xs) ys e = ap (λ r. x ∷ r) (take_front n xs ys (omega arith))

pub drop_front : (n : ℕ) (xs ys : Bytes) → length xs ≡ n → drop n (xs ++ ys) ≡ ys
drop_front zero [] ys e = refl
drop_front zero (x ∷ xs) ys e = absurd (omega arith)
drop_front (suc n) [] ys e = absurd (omega arith)
drop_front (suc n) (x ∷ xs) ys e = drop_front n xs ys (omega arith)

module _ {Symbol : Type 0} where
  -- The fixed size of the open frag has been written into it, as `relax_branches` does.
  abbrev pub IsSettled : Frag Symbol → Type 0
  IsSettled fr = HasLiteral fr × (frag_fix_size fr ≡ fr.fix)

  -- An image of the frags with any bytes in their fixed parts, and the fill bytes as they are.
  abbrev pub IsImage : List (Frag Symbol) → Bytes → Type 0
  IsImage [] buf = buf ≡ []
  IsImage (fr ∷ frs) buf =
      (fixed rest : Bytes) × (length fixed ≡ frag_fix_size fr)
      × (buf ≡ fixed ++ (filled_part fr ++ rest))
      × IsImage frs rest

  abbrev with_fixed : Bytes → Frag Symbol → Frag Symbol
  with_fixed fixed fr = record fr { literal = put_bytes 0 fixed fr.literal }

  new_literal :
      (fr : Frag Symbol) (fixed : Bytes)
      → IsSettled fr
      → length fixed ≡ frag_fix_size fr
      → put_bytes 0 fixed fr.literal ≡ fixed ++ drop fr.fix fr.literal
  new_literal fr fixed ((room, pat), settled) size =
      put_bytes-replaces 0 fixed fr.literal fr.fix (omega arith) (omega arith)

  with_fixed-content :
      (fr : Frag Symbol) (fixed : Bytes)
      → IsSettled fr
      → length fixed ≡ frag_fix_size fr
      → content (with_fixed fixed fr) ≡ fixed ++ filled_part fr
  unfolding frag_fix_size
  with_fixed-content fr fixed h size =
      let literal = new_literal fr fixed h size in
      let front : take (frag_fix_size fr) (put_bytes 0 fixed fr.literal) ≡ fixed =
        ap (take (frag_fix_size fr)) literal
        ∙ take_front (frag_fix_size fr) fixed (drop fr.fix fr.literal) size in
      let behind : drop fr.fix (put_bytes 0 fixed fr.literal) ≡ drop fr.fix fr.literal =
        ap (drop fr.fix) literal ∙ drop_front fr.fix fixed (drop fr.fix fr.literal) (size ∙ h.1) in
      λ i.
        front i
        ++ (if is_fill fr.kind then repeated (count_of fr.offset) (take fr.var (behind i)) else [])

  with_fixed-HasLiteral :
      (fr : Frag Symbol) (fixed : Bytes)
      → IsSettled fr
      → length fixed ≡ frag_fix_size fr
      → HasLiteral (with_fixed fixed fr)
  unfolding frag_fix_size
  with_fixed-HasLiteral fr fixed h size =
      let literal = new_literal fr fixed h size in
      let same : length (put_bytes 0 fixed fr.literal) ≡ length fr.literal = omega (
        arith,
        ap length literal,
        length-append fixed (drop fr.fix fr.literal),
        length-drop fr.fix fr.literal,
        h.0.0,
        h.1,
      ) in
      (omega (arith, h.0.0), omega (arith, h.0.1))

  restored-fixed :
      (fr : Frag Symbol) (done buf fixed rest : Bytes)
      → length fixed ≡ frag_fix_size fr
      → buf ≡ fixed ++ rest
      → length (done ++ buf) < 2 ^ 64
      → restored (done ++ buf) (length done) fr ≡ put_bytes 0 fixed fr.literal
  unfolding restored
  restored-fixed fr done buf fixed rest size e small =
      let total = length-append done buf in
      let split = ap length e ∙ length-append fixed rest in
      let fits : leb (u64_add (length done) (frag_fix_size fr)) (length (done ++ buf)) ≡ true =
        ground (arith, total, split, size) in
      let part : take (frag_fix_size fr) (drop (length done) (done ++ buf)) ≡ fixed =
        ap (take (frag_fix_size fr)) (drop_front (length done) done buf refl ∙ e)
        ∙ take_front (frag_fix_size fr) fixed rest size in
      simp fits (ap (λ (bs : Bytes). put_bytes 0 bs fr.literal) part)

  -- The frags behind `done`, and where they end.
  IsRestored : Bytes → Bytes → List (Frag Symbol) × ℕ → Type 0
  IsRestored done buf (frs, end) =
      (contents frs ≡ buf) × (end ≡ length (done ++ buf)) × All HasLiteral frs

  restore_frags-IsRestored :
      (frs : List (Frag Symbol)) (done buf : Bytes)
      → All IsSettled frs
      → IsImage frs buf
      → length (done ++ buf) < 2 ^ 64
      → IsRestored done buf (restore_frags (done ++ buf) (length done) frs)
  unfolding restore_frags IsRestored
  restore_frags-IsRestored [] done buf h e small =
      (sym e, ap length (sym (append-nil done) ∙ ap (λ r. done ++ r) (sym e)), tt)
  restore_frags-IsRestored (fr ∷ frs) done buf (h, hs) (fixed, rest, size, e, more) small =
      let here = fixed ++ filled_part fr in
      let whole : done ++ buf ≡ (done ++ here) ++ rest =
        ap (λ r. done ++ r) (e ∙ sym (append_assoc fixed (filled_part fr) rest))
        ∙ sym (append_assoc done here rest) in
      let literal = restored-fixed fr done buf fixed (filled_part fr ++ rest) size e small in
      let next : u64_add (length done) (frag_fix_size fr + frag_fill_size fr)
          ≡ length (done ++ here) =
        omega (
          arith,
          length-append done here,
          length-append fixed (filled_part fr),
          length-filled_part fr h.0,
          ap length whole,
          length-append (done ++ here) rest,
        ) in
      let rest_small : length ((done ++ here) ++ rest) < 2 ^ 64 =
        subst (λ (r : Bytes). length r < 2 ^ 64) whole small in
      let (tail, end, room) = restore_frags-IsRestored frs (done ++ here) rest hs more rest_small in
      let tails : restore_frags (done ++ buf)
            (u64_add (length done) (frag_fix_size fr + frag_fill_size fr)) frs
          ≡ restore_frags ((done ++ here) ++ rest) (length (done ++ here)) frs =
        λ i. restore_frags (whole i) (next i) frs in
      let head = with_fixed-content fr fixed h size in
      let joined : content (with_fixed fixed fr)
            ++ contents (restore_frags ((done ++ here) ++ rest) (length (done ++ here)) frs).0
          ≡ buf =
        (λ i. head i ++ tail i) ∙ append_assoc fixed (filled_part fr) rest ∙ sym e in
      let behind = restore_frags ((done ++ here) ++ rest) (length (done ++ here)) frs in
      let both : ◌≡◌ {A = List (Frag Symbol) × ℕ}
          (restore_frags (done ++ buf) (length done) (fr ∷ frs))
          (with_fixed fixed fr ∷ behind.0, behind.1) =
        λ i. (record fr { literal = literal i } ∷ (tails i).0, (tails i).1) in
      subst (IsRestored done buf) (sym both)
        (joined, end ∙ ap length (sym whole), (with_fixed-HasLiteral fr fixed h size, room))

  All-parts :
      (xs ys : List (Frag Symbol))
      → All HasLiteral (xs ++ ys)
      → All HasLiteral xs × All HasLiteral ys
  All-parts [] ys h = (tt, h)
  All-parts (x ∷ xs) ys (h, hs) = let (p, q) = All-parts xs ys hs in ((h, p), q)

  restore_frags-append :
      (buf : Bytes) (addr : ℕ) (xs ys : List (Frag Symbol))
      → (restore_frags buf addr (xs ++ ys)).0
        ≡ (restore_frags buf addr xs).0 ++ (restore_frags buf (restore_frags buf addr xs).1 ys).0
  unfolding restore_frags
  restore_frags-append buf addr [] ys = refl
  restore_frags-append buf addr (fr ∷ xs) ys =
      let next = u64_add addr (frag_fix_size fr + frag_fill_size fr) in
      ap (λ r. record fr { literal = restored buf addr fr } ∷ r)
        (restore_frags-append buf next xs ys)

  -- The chains' frags are restored as one list.
  restore-frags :
      (buf : Bytes) (addr : ℕ) (fcs : List (Chain Symbol))
      → all_frags (restore buf addr fcs) ≡ (restore_frags buf addr (all_frags fcs)).0
  unfolding restore restore_frags
  restore-frags buf addr [] = refl
  restore-frags buf addr (fc ∷ fcs) =
      let (frs, end) = restore_frags buf addr fc.frags in
      ap (λ r. frs ++ r) (restore-frags buf end fcs)
      ∙ sym (restore_frags-append buf addr fc.frags (all_frags fcs))

  pub All-split :
      (fcs : List (Chain Symbol))
      → All HasLiteral (all_frags fcs)
      → All (λ fc. All HasLiteral fc.frags) fcs
  All-split [] h = tt
  All-split (fc ∷ fcs) h = let (p, q) = All-parts fc.frags (all_frags fcs) h in (p, All-split fcs q)

  -- What is encoded in the image is what is extracted afterwards: an image with any bytes in the
  -- fixed parts of the frags and their fill bytes in between, copied back into frags that are
  -- settled, is what `nyxstone_glue_extract_text_bytes` then gives.
  pub extract_text_bytes-restore :
      (fcs : List (Chain Symbol)) (buf : Bytes)
      → All IsSettled (all_frags fcs)
      → IsImage (all_frags fcs) buf
      → length buf < 2 ^ 64
      → extract_text_bytes (some (restore buf 0 fcs)) ≡ buf
  unfolding IsRestored
  extract_text_bytes-restore fcs buf h e small =
      let (same, end, room) = restore_frags-IsRestored (all_frags fcs) [] buf h e small in
      let frs = restore-frags buf 0 fcs in
      let rooms = All-split (restore buf 0 fcs) (subst (All HasLiteral) (sym frs) room) in
      extract_text_bytes-contents (restore buf 0 fcs) rooms ∙ ap contents frs ∙ same
