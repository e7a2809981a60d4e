-- ===== src/Source/BlockComments/Segments.antt =====
-- An independent description: a text is a row of plain bytes, string literals and comments.
use nyxstone_tricore_gcc.Base.{
  ℕ, ◌≡◌, refl, ◌≢◌, false, ◌&&◌, List, [], ◌∷◌, ◌++◌, append_assoc, arith, ◌==◌, Bytes,
}
use nyxstone_tricore_gcc.Source.BlockComments.{
  code, literal, comment, next_is, strip_from, strip_block_comments,
}

-- A byte of a string literal, alone or behind a backslash.
pub data LiteralByte : Type 0 where
  plain : ℕ → LiteralByte
  escape : ℕ → LiteralByte

pub data Segment : Type 0 where
  byte : ℕ → Segment
  string : List LiteralByte → Segment
  block : Bytes → Segment

abbrev pub literal_text : List LiteralByte → Bytes
literal_text [] = b'"' ∷ []
literal_text (plain c ∷ l) = c ∷ literal_text l
literal_text (escape c ∷ l) = b'\\' ∷ c ∷ literal_text l

abbrev pub block_text : Bytes → Bytes
block_text body = b'/' ∷ b'*' ∷ (body ++ b'*' ∷ b'/' ∷ [])

-- The text as the user writes it.
abbrev pub written : List Segment → Bytes
written [] = []
written (byte c ∷ l) = c ∷ written l
written (string q ∷ l) = b'"' ∷ (literal_text q ++ written l)
written (block body ∷ l) = block_text body ++ written l

-- The text with a space for each comment.
abbrev pub blanked : List Segment → Bytes
blanked [] = []
blanked (byte c ∷ l) = c ∷ blanked l
blanked (string q ∷ l) = b'"' ∷ (literal_text q ++ blanked l)
blanked (block body ∷ l) = b' ' ∷ blanked l

abbrev pub LiteralIsValid : List LiteralByte → Type 0
LiteralIsValid [] = Unit
LiteralIsValid (plain c ∷ l) = (c ≢ b'"') × (c ≢ b'\\') × LiteralIsValid l
LiteralIsValid (escape c ∷ l) = LiteralIsValid l

-- No `*/` inside.
abbrev pub IsUnclosed : Bytes → Type 0
IsUnclosed [] = Unit
IsUnclosed (c ∷ body) = ((c == b'*' && next_is b'/' body) ≡ false) × IsUnclosed body

-- A plain byte opens neither a literal nor a comment.
abbrev pub IsValid : List Segment → Type 0
IsValid [] = Unit
IsValid (byte c ∷ l) = (c ≢ b'"') × ((c == b'/' && next_is b'*' (written l)) ≡ false) × IsValid l
IsValid (string q ∷ l) = LiteralIsValid q × IsValid l
IsValid (block body ∷ l) = IsUnclosed body × IsValid l

strip_from-literal :
    (q : List LiteralByte) (rest : Bytes)
    → LiteralIsValid q
    → strip_from literal (literal_text q ++ rest) ≡ literal_text q ++ strip_from code rest
unfolding strip_from
strip_from-literal [] rest v = refl
strip_from-literal (plain c ∷ q) rest v = ground (arith, strip_from-literal q rest)
strip_from-literal (escape c ∷ q) rest v = ground (arith, strip_from-literal q rest)

strip_from-block :
    (body rest : Bytes)
    → IsUnclosed body
    → strip_from comment (body ++ b'*' ∷ b'/' ∷ rest) ≡ b' ' ∷ strip_from code rest
unfolding strip_from
strip_from-block [] rest v = refl
strip_from-block (c ∷ []) rest v = ground arith
strip_from-block (c ∷ d ∷ body) rest v = ground (arith, strip_from-block (d ∷ body) rest)

strip_from-written : (l : List Segment) → IsValid l → strip_from code (written l) ≡ blanked l
unfolding strip_from
strip_from-written [] v = refl
strip_from-written (byte c ∷ l) v = ground (arith, strip_from-written l)
strip_from-written (string q ∷ l) v =
    ground (arith, strip_from-literal q (written l), strip_from-written l)
strip_from-written (block body ∷ l) v =
    rw append_assoc (rw (strip_from-block body (written l) v.0, strip_from-written l v.1))

-- For every row of segments in which no plain byte opens a literal or a comment, no literal ends
-- early and no comment body holds `*/`, stripping the block comments of the written text replaces
-- each comment by one space and leaves all other bytes, those of string literals too.
pub strip_block_comments-written :
    (l : List Segment) → IsValid l → strip_block_comments (written l) ≡ blanked l
unfolding strip_block_comments
strip_block_comments-written = strip_from-written
