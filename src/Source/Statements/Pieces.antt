-- ===== src/Source/Statements/Pieces.antt =====
-- The split of a text into pieces, each with the separator behind it, and a last piece with none,
-- in terms of the modes of the scanner.
use nyxstone_tricore_gcc.Base.{
  ℕ, ◌≡◌, true, false, List, [], ◌∷◌, ◌++◌, append-nil, append_assoc, if◌then◌else◌, is_empty,
  Bytes,
}
use nyxstone_tricore_gcc.Source.LineComments.{Mode, code, next_mode}
use nyxstone_tricore_gcc.Source.Statements.{is_separator, split_from, statements}

-- The bytes of `s`, read from mode `m`, hold no separator outside a literal.
abbrev pub IsWhole : Mode → Bytes → Type 0
IsWhole m [] = Unit
IsWhole m (c ∷ s) = (is_separator m c ≡ false) × IsWhole (next_mode m c) s

-- The mode behind `s`.
abbrev pub mode_after : Mode → Bytes → Mode
mode_after m [] = m
mode_after m (c ∷ s) = mode_after (next_mode m c) s

pub record Piece : Type 0 where
  pub statement : Bytes
  pub separator : ℕ

abbrev pub PieceIsValid : Piece → Type 0
PieceIsValid p =
    IsWhole code p.statement
    × (mode_after code p.statement ≡ code)
    × (is_separator code p.separator ≡ true)

abbrev pub joined : List Piece → Bytes → Bytes
joined [] last = last
joined (p ∷ ps) last = p.statement ++ p.separator ∷ joined ps last

-- An empty last piece is no statement.
abbrev pub listed : List Piece → Bytes → List Bytes
listed [] last = if is_empty last then [] else last ∷ []
listed (p ∷ ps) last = p.statement ∷ listed ps last

abbrev pub AllValid : List Piece → Type 0
AllValid [] = Unit
AllValid (p ∷ ps) = PieceIsValid p × AllValid ps

split_from-last :
    (m : Mode) (cur last : Bytes)
    → IsWhole m last
    → split_from m cur last ≡ (if is_empty (cur ++ last) then [] else (cur ++ last) ∷ [])
unfolding split_from
split_from-last m cur [] w = rw append-nil
split_from-last m cur (c ∷ last) w =
    rw w.0 (rw (split_from-last (next_mode m c) (cur ++ c ∷ []) last w.1) (simp append_assoc))

split_from-piece :
    (m : Mode) (cur s : Bytes) (sep : ℕ) (rest : Bytes)
    → IsWhole m s
    → mode_after m s ≡ code
    → is_separator code sep ≡ true
    → split_from m cur (s ++ sep ∷ rest) ≡ (cur ++ s) ∷ split_from code [] rest
unfolding split_from
split_from-piece m cur [] sep rest w e h = rw (e, h, append-nil)
split_from-piece m cur (c ∷ s) sep rest w e h =
    rw w.0
      (rw (split_from-piece (next_mode m c) (cur ++ c ∷ []) s sep rest w.1 e h) (simp append_assoc))

-- A text of pieces that close their string literals and hold no separator outside them, each with a
-- newline or `;` behind it, and of a last piece that holds no separator outside its literals, is
-- split into exactly these pieces, in order and none merged or cut; an empty last piece is dropped.
pub statements-pieces :
    (ps : List Piece) (last : Bytes)
    → AllValid ps
    → IsWhole code last
    → statements (joined ps last) ≡ listed ps last
unfolding statements
statements-pieces [] last v w = split_from-last code [] last w
statements-pieces (p ∷ ps) last v w =
    rw (split_from-piece code [] p.statement p.separator (joined ps last) v.0.0 v.0.1 v.0.2)
      (rw (statements-pieces ps last v.1 w))
