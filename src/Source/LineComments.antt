-- ===== src/Source/LineComments.antt =====
-- src/nyxstone.cpp, `strip_comment`: cuts a statement at `#` or `//` outside a string literal.
use nyxstone_tricore_gcc.Base.{ℕ, Bool, false, ◌&&◌, ◌||◌, [], ◌∷◌, ◌==◌, if◌then◌else◌, Bytes}
use nyxstone_tricore_gcc.Source.BlockComments.{next_is}

-- Where the loop stands: `in_str`, and the byte that `++i` skips behind a backslash.
pub data Mode : Type 0 where
  code literal escaped : Mode

-- The string-literal part of the loops over a statement and over the source.
unfoldable pub next_mode : Mode → ℕ → Mode
next_mode code c = if c == b'"' then literal else code
next_mode literal c = if c == b'\\' then escaped else if c == b'"' then code else literal
next_mode escaped c = literal

unfoldable pub opens_comment : Mode → ℕ → Bytes → Bool
opens_comment code c rest = c == b'#' || (c == b'/' && next_is b'/' rest)
opens_comment _ c rest = false

unfoldable pub strip_from : Mode → Bytes → Bytes
unfolding next_mode opens_comment
strip_from m [] = []
strip_from m (c ∷ rest) = if opens_comment m c rest then [] else c ∷ strip_from (next_mode m c) rest

unfoldable pub strip_comment : Bytes → Bytes
unfolding strip_from
strip_comment = strip_from code
