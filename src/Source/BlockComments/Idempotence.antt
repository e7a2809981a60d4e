-- ===== src/Source/BlockComments/Idempotence.antt =====
-- The space that stands for a comment never lets the text around it form a new comment.
use nyxstone_tricore_gcc.Base.{◌≡◌, refl, true, false, [], ◌∷◌, arith, Bytes}
use nyxstone_tricore_gcc.Source.BlockComments.{
  Mode, code, literal, escaped, opening, comment, closing, next_is, strip_from,
  strip_block_comments,
}

-- The mode in which the output stands while the input is in `m`.
abbrev output_mode : Mode → Mode
output_mode code = code
output_mode literal = literal
output_mode escaped = escaped
output_mode opening = code
output_mode comment = code
output_mode closing = code

comment_gives_space : (rest : Bytes) → next_is b'*' (strip_from comment rest) ≡ false
unfolding strip_from
comment_gives_space [] = refl
comment_gives_space (c ∷ []) = ground arith
comment_gives_space (c ∷ d ∷ rest) = ground (arith, comment_gives_space (d ∷ rest))

star_from_star :
    (rest : Bytes) → next_is b'*' (strip_from code rest) ≡ true → next_is b'*' rest ≡ true
unfolding strip_from
star_from_star [] h = ground arith
star_from_star (c ∷ []) h = ground arith
star_from_star (c ∷ d ∷ rest) h = ground (arith, comment_gives_space rest)

strip_from_twice :
    (m : Mode) (s : Bytes) → strip_from (output_mode m) (strip_from m s) ≡ strip_from m s
unfolding strip_from
strip_from_twice code [] = refl
strip_from_twice _ [] = refl
strip_from_twice code (c ∷ rest) = ground (
  arith,
  star_from_star rest,
  strip_from_twice code rest,
  strip_from_twice literal rest,
  strip_from_twice opening rest,
)
strip_from_twice literal (c ∷ rest) = ground (
  arith,
  strip_from_twice code rest,
  strip_from_twice literal rest,
  strip_from_twice escaped rest,
)
strip_from_twice escaped (c ∷ rest) = ground (arith, strip_from_twice literal rest)
strip_from_twice opening (c ∷ rest) = ground (arith, strip_from_twice comment rest)
strip_from_twice comment (c ∷ rest) =
    ground (arith, strip_from_twice comment rest, strip_from_twice closing rest)
strip_from_twice closing (c ∷ rest) = ground (arith, strip_from_twice code rest)

-- Stripping the block comments of a text twice gives what stripping them once gives.
pub strip_block_comments_idem :
    (s : Bytes) → strip_block_comments (strip_block_comments s) ≡ strip_block_comments s
unfolding strip_block_comments
strip_block_comments_idem = strip_from_twice code
