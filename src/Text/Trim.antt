-- ===== src/Text/Trim.antt =====
-- Trimming: no space is left at the trimmed end, and only spaces go.
use nyxstone_tricore_gcc.Base.{◌≤◌, ◌≡◌, refl, false, [], ◌∷◌, arith, length, Bytes}
use nyxstone_tricore_gcc.Text.{is_space, ltrim, rtrim}

pub length-ltrim : (s : Bytes) → length (ltrim s) ≤ length s
unfolding ltrim
length-ltrim [] = omega arith
length-ltrim (c ∷ cs) = ground (arith, length-ltrim cs)

-- A text that begins with a byte that is no space, or is empty.
abbrev pub HeadIsSolid : Bytes → Type 0
HeadIsSolid [] = Unit
HeadIsSolid (c ∷ cs) = is_space c ≡ false

pub ltrim-HeadIsSolid : (s : Bytes) → HeadIsSolid (ltrim s)
unfolding ltrim
ltrim-HeadIsSolid [] = tt
ltrim-HeadIsSolid (c ∷ cs) = ground (arith, ltrim-HeadIsSolid cs)

pub ltrim-solid : (s : Bytes) → HeadIsSolid s → ltrim s ≡ s
unfolding ltrim
ltrim-solid [] h = refl
ltrim-solid (c ∷ cs) h = ground arith

pub rtrim_idem : (s : Bytes) → rtrim (rtrim s) ≡ rtrim s
unfolding rtrim
rtrim_idem [] = refl
rtrim_idem (c ∷ cs) = ground (arith, rtrim_idem cs)

pub rtrim-HeadIsSolid : (s : Bytes) → HeadIsSolid s → HeadIsSolid (rtrim s)
unfolding rtrim
rtrim-HeadIsSolid [] h = tt
rtrim-HeadIsSolid (c ∷ cs) h = ground arith
