-- ===== src/GlueLayer/Resolve/Places.antt =====
-- The second pass over the fixups of a whole section, where the fixups have places of their own.
use nyxstone_tricore_gcc.Base.{
  ℕ, suc, ◌^◌, ◌<◌, ◌≡◌, sym, ap, subst, ◌∙◌, none, some, List, [], ◌∷◌, arith, length, All, Bytes,
}
use nyxstone_tricore_gcc.Gas.{Frag, Chain, Gas}
use nyxstone_tricore_gcc.GlueLayer.Encode.Bytewise.{AreBytes}
use nyxstone_tricore_gcc.GlueLayer.Encode.Slices.{Apart}
use nyxstone_tricore_gcc.GlueLayer.Sections.{all_frags, extract_text_bytes}
use nyxstone_tricore_gcc.GlueLayer.Sections.Extract.{contents, HasLiteral}
use nyxstone_tricore_gcc.GlueLayer.Sections.Image.{extract_text_bytes-contents}
use nyxstone_tricore_gcc.GlueLayer.Fixups.{restore, Image, encode_chains}
use nyxstone_tricore_gcc.GlueLayer.Fixups.Restore.{IsSettled, All-split, extract_text_bytes-restore}
use nyxstone_tricore_gcc.GlueLayer.Fixups.Reference.{IsClean}
use nyxstone_tricore_gcc.GlueLayer.Fixups.Spots.{AreApart, spots}
use nyxstone_tricore_gcc.GlueLayer.Fixups.Clean.{encode_fixes-Passes, encode_fixes-IsFormed}
use nyxstone_tricore_gcc.GlueLayer.Fixups.Carried.{IsFormed, Passes}
use nyxstone_tricore_gcc.GlueLayer.Fixups.Kept.{
  SameAt, all_fixes, fills, contents-IsImage, encode_chains-all_fixes,
}

-- What the pass relies on: the section is one image of less than 2 ^ 64 bytes, whose frags have
-- room for what they say, and neither two fixups nor a fixup and a fill have a byte in common.
pub record HasPlaces (g : Gas) (fcs : List (Chain g.Symbol)) (w : g.World) : Type 0 where
  pub settled : All IsSettled (all_frags fcs)
  pub bytes : AreBytes (extract_text_bytes (some fcs))
  pub some_bytes : 0 < length (extract_text_bytes (some fcs))
  pub short : length (extract_text_bytes (some fcs)) < 2 ^ 64
  pub apart : AreApart (spots g fcs w (extract_text_bytes (some fcs)) (all_fixes fcs))
  pub fills_apart :
      All
        (λ r. All (Apart r) (spots g fcs w (extract_text_bytes (some fcs)) (all_fixes fcs)))
        (fills 0 (all_frags fcs))

module _ (g : Gas)
    (counts : (w : g.World) (m : Bytes) → g.had_errors (g.as_bad m w) ≡ suc (g.had_errors w))
    (base : ℕ) where
  open g use {Symbol, World}

  -- The section behind the first pass, with the state of gas.
  module _ (fcs : List (Chain Symbol)) (w : World) (ready : HasPlaces g fcs w) where
    open ready use {settled, bytes, some_bytes, short, apart, fills_apart}

    abbrev before : Bytes
    before = extract_text_bytes (some fcs)

    abbrev pub first_image : Image World
    first_image = record { buf = before; unsupported_form = none; world = w }

    abbrev pub last_image : Image World
    last_image = encode_chains g base fcs fcs first_image

    pub encoded-Passes :
        IsClean g first_image last_image → Passes g base fcs w before (all_fixes fcs) last_image
    encoded-Passes clean =
        let flat = encode_chains-all_fixes g base fcs fcs first_image in
        subst (Passes g base fcs w before (all_fixes fcs)) (sym flat) (
          encode_fixes-Passes g base fcs counts (all_fixes fcs) first_image bytes apart
            (subst (IsClean g first_image) flat clean))

    pub encoded-IsFormed :
        IsClean g first_image last_image → All (IsFormed g base fcs w) (all_fixes fcs)
    encoded-IsFormed clean =
        encode_fixes-IsFormed g base fcs counts (all_fixes fcs) first_image bytes
          (subst (IsClean g first_image) (encode_chains-all_fixes g base fcs fcs first_image) clean)

    frags-HasLiteral : (frs : List (Frag Symbol)) → All IsSettled frs → All HasLiteral frs
    frags-HasLiteral [] h = tt
    frags-HasLiteral (fr ∷ frs) ((h, _), hs) = (h, frags-HasLiteral frs hs)

    before-contents : before ≡ contents (all_frags fcs)
    before-contents =
        extract_text_bytes-contents fcs (All-split fcs (frags-HasLiteral (all_frags fcs) settled))

    kept_fills :
        Passes g base fcs w before (all_fixes fcs) last_image
        → (rs : List (ℕ × ℕ)) → All (λ r. All (Apart r) (spots g fcs w before (all_fixes fcs))) rs
        → All (SameAt before last_image.buf) rs
    kept_fills p [] h = tt
    kept_fills p ((a, n) ∷ rs) (h, hs) = (p.elsewhere a n h, kept_fills p rs hs)

    pub extracted :
        IsClean g first_image last_image
        → extract_text_bytes (some (restore last_image.buf 0 fcs)) ≡ last_image.buf
    extracted clean =
        let p = encoded-Passes clean in
        let same =
          subst (λ (b : Bytes). All (SameAt b last_image.buf) (fills 0 (all_frags fcs)))
            before-contents (kept_fills p (fills 0 (all_frags fcs)) fills_apart) in
        let image =
          contents-IsImage (all_frags fcs) last_image.buf settled
            (p.same_length ∙ ap length before-contents) same in
        extract_text_bytes-restore fcs last_image.buf settled image
          (omega (arith, p.same_length, short))
