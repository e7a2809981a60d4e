-- ===== src/Text.antt =====
-- src/nyxstone.cpp, the string helpers: character classes of <cctype> in the C locale,
-- `ltrim` and `rtrim`.
pub mod Trim
use nyxstone_tricore_gcc.Base.{
  ℕ, Bool, true, false, ◌&&◌, ◌||◌, [], ◌∷◌, leb, ◌==◌, if◌then◌else◌, is_empty, Bytes,
}

abbrev within : ℕ → ℕ → ℕ → Bool
within lo hi c = leb lo c && leb c hi

-- `std::isspace`: space, and \t \n \v \f \r.
unfoldable pub is_space : ℕ → Bool
is_space c = c == b' ' || within 9 13 c

unfoldable pub is_digit : ℕ → Bool
is_digit c = within b'0' b'9' c

unfoldable pub is_alnum : ℕ → Bool
unfolding is_digit
is_alnum c = is_digit c || within b'a' b'z' c || within b'A' b'Z' c

-- Also the loop `while (p < end && isspace(*p)) ++p` on the text from `p`.
unfoldable pub ltrim : Bytes → Bytes
unfolding is_space
ltrim [] = []
ltrim (c ∷ cs) = if is_space c then ltrim cs else c ∷ cs

-- The longest prefix whose last byte is no space.
unfoldable pub rtrim : Bytes → Bytes
unfolding is_space
rtrim [] = []
rtrim (c ∷ cs) = let rest = rtrim cs in if is_empty rest && is_space c then [] else c ∷ rest

-- `substr(0, i)` for the first space at `i`.
unfoldable pub first_word : Bytes → Bytes
unfolding is_space
first_word [] = []
first_word (c ∷ cs) = if is_space c then [] else c ∷ first_word cs

-- `substr(i + 1)` for the first space at `i`; empty if there is none.
unfoldable pub after_word : Bytes → Bytes
unfolding is_space
after_word [] = []
after_word (c ∷ cs) = if is_space c then cs else after_word cs

-- `substr(0, i)` for the first `sep` at `i`, or the whole text.
unfoldable pub before : ℕ → Bytes → Bytes
before sep [] = []
before sep (c ∷ cs) = if c == sep then [] else c ∷ before sep cs

-- `substr(i + 1)` for the first `sep` at `i`; empty if there is none.
unfoldable pub behind : ℕ → Bytes → Bytes
behind sep [] = []
behind sep (c ∷ cs) = if c == sep then cs else behind sep cs

-- The first text in front of the second.
unfoldable pub has_prefix : Bytes → Bytes → Bool
has_prefix [] s = true
has_prefix (c ∷ p) [] = false
has_prefix (c ∷ p) (d ∷ s) = c == d && has_prefix p s
