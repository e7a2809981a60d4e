-- ===== src/Source/Statements/Grammar.antt =====
-- An independent description of the split: a statement is a row of plain bytes and string literals,
-- and a text is a row of statements, each with a newline or `;` behind it, and a last one with none.
use nyxstone_tricore_gcc.Base.{
  ℕ, ◌≡◌, refl, sym, ap, subst, ◌∙◌, ◌≢◌, ◌⊎◌, Bool, true, false, List, [], ◌∷◌, ◌++◌, arith,
  if◌then◌else◌, is_empty, All, Bytes,
}
use nyxstone_tricore_gcc.Source.BlockComments.Segments.{
  LiteralByte, plain, escape, literal_text, LiteralIsValid,
}
use nyxstone_tricore_gcc.Source.LineComments.{Mode, code, literal, next_mode}
use nyxstone_tricore_gcc.Source.Statements.{is_separator, statements}
use nyxstone_tricore_gcc.Source.Statements.Pieces.{
  IsWhole, mode_after, Piece, joined, listed, AllValid, statements-pieces,
}

pub data Atom : Type 0 where
  plain_byte : ℕ → Atom
  quoted_bytes : List LiteralByte → Atom

-- The statement as the user writes it.
abbrev pub atoms_text : List Atom → Bytes
atoms_text [] = []
atoms_text (plain_byte c ∷ l) = c ∷ atoms_text l
atoms_text (quoted_bytes q ∷ l) = b'"' ∷ (literal_text q ++ atoms_text l)

-- A plain byte is no quote, newline or `;`, and a literal holds a quote only behind a backslash.
abbrev pub AtomsAreValid : List Atom → Type 0
AtomsAreValid [] = Unit
AtomsAreValid (plain_byte c ∷ l) = (c ≢ b'"') × (c ≢ b'\n') × (c ≢ b';') × AtomsAreValid l
AtomsAreValid (quoted_bytes q ∷ l) = LiteralIsValid q × AtomsAreValid l

-- A literal that the text ends in, where its quote, or a byte behind a last backslash, is missing.
abbrev pub open_text : List LiteralByte → Bool → Bytes
open_text [] backslash = if backslash then b'\\' ∷ [] else []
open_text (plain c ∷ q) backslash = c ∷ open_text q backslash
open_text (escape c ∷ q) backslash = b'\\' ∷ c ∷ open_text q backslash

pub data Ending : Type 0 where
  closed : Ending
  unclosed : List LiteralByte → Bool → Ending

abbrev pub ending_text : Ending → Bytes
ending_text closed = []
ending_text (unclosed q backslash) = b'"' ∷ open_text q backslash

abbrev pub EndingIsValid : Ending → Type 0
EndingIsValid closed = Unit
EndingIsValid (unclosed q backslash) = LiteralIsValid q

pub record Statement : Type 0 where
  pub atoms : List Atom
  pub ended_by : ℕ

abbrev pub StatementIsValid : Statement → Type 0
StatementIsValid s = AtomsAreValid s.atoms × ((s.ended_by ≡ b'\n') ⊎ (s.ended_by ≡ b';'))

-- The text, with `last` behind the last separator.
abbrev pub source_text : List Statement → Bytes → Bytes
source_text [] last = last
source_text (s ∷ ss) last = atoms_text s.atoms ++ s.ended_by ∷ source_text ss last

abbrev pub texts : List Statement → Bytes → List Bytes
texts [] last = if is_empty last then [] else last ∷ []
texts (s ∷ ss) last = atoms_text s.atoms ∷ texts ss last

-- Read from mode `m`, the text holds no separator outside a literal, and leaves mode `n`.
Reads : Mode → Bytes → Mode → Type 0
Reads m s n = IsWhole m s × (mode_after m s ≡ n)

cons-Reads :
    (m n o : Mode) (c : ℕ) (s : Bytes)
    → is_separator m c ≡ false
    → next_mode m c ≡ n
    → Reads n s o
    → Reads m (c ∷ s) o
unfolding Reads
cons-Reads m n o c s h e r =
    let (w, after) = subst (λ (k : Mode). Reads k s o) (sym e) r in ((h, w), after)

append-Reads : (m n o : Mode) (s t : Bytes) → Reads m s n → Reads n t o → Reads m (s ++ t) o
unfolding Reads
append-Reads m n o [] t (w, e) r = subst (λ (k : Mode). Reads k t o) (sym e) r
append-Reads m n o (c ∷ s) t ((here, w), e) r =
    let (w', e') = append-Reads (next_mode m c) n o s t (w, e) r in ((here, w'), e')

literal_text-Reads : (q : List LiteralByte) → LiteralIsValid q → Reads literal (literal_text q) code
unfolding is_separator next_mode Reads
literal_text-Reads [] v = ((refl, tt), refl)
literal_text-Reads (plain c ∷ q) (a, b, v) =
    cons-Reads literal literal code c (literal_text q) refl (ground arith) (literal_text-Reads q v)
literal_text-Reads (escape c ∷ q) v = let (w, e) = literal_text-Reads q v in ((refl, (refl, w)), e)

atoms_text-Reads : (l : List Atom) → AtomsAreValid l → Reads code (atoms_text l) code
unfolding Reads is_separator next_mode
atoms_text-Reads [] v = (tt, refl)
atoms_text-Reads (plain_byte c ∷ l) (a, b, d, v) =
    cons-Reads code code code c (atoms_text l) (ground arith) (ground arith) (atoms_text-Reads l v)
atoms_text-Reads (quoted_bytes q ∷ l) (v, vs) =
    cons-Reads code literal code b'"' (literal_text q ++ atoms_text l) refl refl (
      append-Reads literal code code (literal_text q) (atoms_text l) (literal_text-Reads q v)
        (atoms_text-Reads l vs))

open_text-IsWhole :
    (q : List LiteralByte) (backslash : Bool)
    → LiteralIsValid q
    → IsWhole literal (open_text q backslash)
unfolding is_separator next_mode
open_text-IsWhole [] true v = (refl, tt)
open_text-IsWhole [] false v = tt
open_text-IsWhole (plain c ∷ q) backslash (a, b, v) =
    let stays : next_mode literal c ≡ literal = ground arith in
    (refl, rw stays (open_text-IsWhole q backslash v))
open_text-IsWhole (escape c ∷ q) backslash v = (refl, (refl, open_text-IsWhole q backslash v))

IsWhole-append : (m n : Mode) (s t : Bytes) → Reads m s n → IsWhole n t → IsWhole m (s ++ t)
unfolding Reads
IsWhole-append m n s t r w = (append-Reads m n (mode_after n t) s t r (w, refl)).0

ending_text-IsWhole : (e : Ending) → EndingIsValid e → IsWhole code (ending_text e)
unfolding is_separator next_mode
ending_text-IsWhole closed v = tt
ending_text-IsWhole (unclosed q backslash) v = (refl, open_text-IsWhole q backslash v)

-- The statements as pieces.
abbrev pieces_of : List Statement → List Piece
pieces_of [] = []
pieces_of (s ∷ ss) =
    record { statement = atoms_text s.atoms; separator = s.ended_by } ∷ pieces_of ss

pieces_of-AllValid : (ss : List Statement) → All StatementIsValid ss → AllValid (pieces_of ss)
unfolding Reads is_separator
pieces_of-AllValid [] v = tt
pieces_of-AllValid (s ∷ ss) ((a, b), vs) =
    let (w, e) = atoms_text-Reads s.atoms a in ((w, e, ground (arith, b)), pieces_of-AllValid ss vs)

source_text-joined :
    (ss : List Statement) (last : Bytes) → joined (pieces_of ss) last ≡ source_text ss last
source_text-joined [] last = refl
source_text-joined (s ∷ ss) last =
    ap (λ r. atoms_text s.atoms ++ s.ended_by ∷ r) (source_text-joined ss last)

texts-listed : (ss : List Statement) (last : Bytes) → listed (pieces_of ss) last ≡ texts ss last
texts-listed [] last = refl
texts-listed (s ∷ ss) last = ap (λ r. atoms_text s.atoms ∷ r) (texts-listed ss last)

-- A text of statements, each a row of plain bytes and closed string literals with a newline or `;`
-- behind it, and of a last statement that may end in an unclosed literal, is split into exactly
-- these statements, in order and none merged or cut: neither a separator in a literal nor a quote
-- behind a backslash cuts a statement. An empty last statement is dropped.
pub statements-source_text :
    (ss : List Statement) (l : List Atom) (ending : Ending)
    → All StatementIsValid ss
    → AtomsAreValid l
    → EndingIsValid ending
    → statements (source_text ss (atoms_text l ++ ending_text ending))
      ≡ texts ss (atoms_text l ++ ending_text ending)
statements-source_text ss l ending v a e =
    let last = atoms_text l ++ ending_text ending in
    let whole =
      IsWhole-append code code (atoms_text l) (ending_text ending) (atoms_text-Reads l a)
        (ending_text-IsWhole ending e) in
    ap statements (sym (source_text-joined ss last))
    ∙ statements-pieces (pieces_of ss) last (pieces_of-AllValid ss v) whole
    ∙ texts-listed ss last
