-- ===== src/Source/Statements.antt =====
-- src/nyxstone.cpp, `run` in `do_assemble`: splits on newline and `;` outside string literals.
-- The statements are listed here; `Driver` processes them in this order, as they are split off.
pub mod Pieces
pub mod Grammar
use nyxstone_tricore_gcc.Base.{
  ℕ, Bool, false, ◌||◌, List, [], ◌∷◌, ◌++◌, ◌==◌, if◌then◌else◌, is_empty, Bytes,
}
use nyxstone_tricore_gcc.Source.LineComments.{Mode, code, next_mode}

unfoldable pub is_separator : Mode → ℕ → Bool
is_separator code c = c == b'\n' || c == b';'
is_separator _ c = false

-- `cur` is the statement read so far. The last one is processed only if it is not empty.
unfoldable pub split_from : Mode → Bytes → Bytes → List Bytes
unfolding is_separator next_mode
split_from m cur [] = if is_empty cur then [] else cur ∷ []
split_from m cur (c ∷ rest) =
    let cut = cur ∷ split_from code [] rest in
    let more = split_from (next_mode m c) (cur ++ c ∷ []) rest in
    if is_separator m c then cut else more

unfoldable pub statements : Bytes → List Bytes
unfolding split_from
statements = split_from code []
