-- ===== src/Source/BlockComments.antt =====
-- src/nyxstone.cpp, `strip_block_comments`. The index loop and the inner loop that skips a comment
-- are one machine over the bytes: the mode says where in those loops the byte is read, and `rest`
-- is what stands behind it, of which the source looks at `src[i + 1]`.
pub mod Idempotence
pub mod Segments
use nyxstone_tricore_gcc.Base.{ℕ, Bool, false, ◌&&◌, [], ◌∷◌, ◌++◌, ◌==◌, if◌then◌else◌, Bytes}

pub data Mode : Type 0 where
  -- outside a string literal; inside one; behind a backslash inside one
  code literal escaped : Mode
  -- on the `*` that opens a comment; inside it; on the `/` that closes it
  opening comment closing : Mode

-- `i + 1 < src.size() && src[i + 1] == b`
abbrev pub next_is : ℕ → Bytes → Bool
next_is b [] = false
next_is b (c ∷ _) = c == b

unfoldable pub next_mode : Mode → ℕ → Bytes → Mode
next_mode code c rest =
    if c == b'"' then literal else if c == b'/' && next_is b'*' rest then opening else code
next_mode literal c rest = if c == b'\\' then escaped else if c == b'"' then code else literal
next_mode escaped c rest = literal
next_mode opening c rest = comment
next_mode comment c rest = if c == b'*' && next_is b'/' rest then closing else comment
next_mode closing c rest = code

-- What is pushed to `out` at this byte. A comment becomes one space when it ends.
unfoldable pub pushed : Mode → ℕ → Bytes → Bytes
pushed code c rest = if c == b'/' && next_is b'*' rest then [] else c ∷ []
pushed literal c rest = c ∷ []
pushed escaped c rest = c ∷ []
pushed opening c rest = []
pushed comment c rest = []
pushed closing c rest = b' ' ∷ []

-- At the end of the input an unterminated comment still leaves its space.
unfoldable pub at_end : Mode → Bytes
at_end opening = b' ' ∷ []
at_end comment = b' ' ∷ []
at_end closing = b' ' ∷ []
at_end _ = []

unfoldable pub strip_from : Mode → Bytes → Bytes
unfolding next_mode pushed at_end
strip_from m [] = at_end m
strip_from m (c ∷ rest) = pushed m c rest ++ strip_from (next_mode m c rest) rest

unfoldable pub strip_block_comments : Bytes → Bytes
unfolding strip_from
strip_block_comments = strip_from code
