-- ===== src/CAbi/Owned.antt =====
-- What the outputs of a call own in memory, for each kind of result.
-- The bytes in a block, or NULL if there are none.
use nyxstone_tricore_gcc.Base.{
  ℕ, ◌≡◌, ◌⊎◌, inl, inr, Option, none, some, List, [], ◌∷◌, ◌++◌, length, Bytes,
}
use nyxstone_tricore_gcc.Disassemble.{Instruction}
use nyxstone_tricore_gcc.Assemble.{RelocationInfo}
use nyxstone_tricore_gcc.Api.{AssembleWithRelocsResult, AssembleInstructionsWithRelocsResult}
use nyxstone_tricore_gcc.CAbi.Store.{
  Element, instruction_element, reloc_element, Block, chars, array, Store,
}
use nyxstone_tricore_gcc.CAbi.Entry.{Out, bytes_out, text_out, array_out}
use nyxstone_tricore_gcc.CAbi.Elements.Filled.{HoldsInstruction}
use nyxstone_tricore_gcc.CAbi.Elements.Loop.{AllHeld}
use nyxstone_tricore_gcc.CAbi.Elements.Relocs.{HoldsReloc}

abbrev pub OwnsBytes : Bytes → Option ℕ → Store → Type 0
OwnsBytes bytes p s =
    ((bytes ≡ []) × (p ≡ none)) ⊎ ((q : ℕ) × (p ≡ some q) × (s.live q ≡ some (chars bytes)))

-- An array with an element for each instruction, in order.
abbrev pub OwnsInstructions : List Instruction → ℕ → Store → Type 0
OwnsInstructions v p s =
    (l : List Element) × (s.live p ≡ some (array l)) × AllHeld HoldsInstruction v l s

-- An array with an element for each relocation, in order, or NULL if there are none.
abbrev pub OwnsRelocs : List RelocationInfo → Option ℕ → Store → Type 0
OwnsRelocs v p s =
    ((v ≡ []) × (p ≡ none))
    ⊎ ((q : ℕ) × (l : List Element) × (p ≡ some q)
        × (s.live q ≡ some (array l))
        × AllHeld HoldsReloc v l s)

abbrev pub GivesRelocs : List RelocationInfo → List Out → Store → Type 0
GivesRelocs v outs s = (p : Option ℕ) × (outs ≡ array_out p (length v) ∷ []) × OwnsRelocs v p s

-- The text with a NUL, in a block.
abbrev pub GivesText : Bytes → List Out → Store → Type 0
GivesText text outs s =
    (p : ℕ) × (outs ≡ text_out (some p) ∷ []) × (s.live p ≡ some (chars (text ++ 0 ∷ [])))

-- The bytes and the relocations.
abbrev pub GivesBytesRelocs : AssembleWithRelocsResult → List Out → Store → Type 0
GivesBytesRelocs r outs s =
    (p q : Option ℕ) × (outs
      ≡ bytes_out p (length r.bytes) ∷ array_out q (length r.relocations) ∷ [])
    × OwnsBytes r.bytes p s
    × OwnsRelocs r.relocations q s

-- The instructions, whose array is never NULL, and the relocations.
abbrev pub GivesInstructionsRelocs :
    AssembleInstructionsWithRelocsResult → List Out → Store → Type 0
GivesInstructionsRelocs r outs s =
    (p : ℕ) × (q : Option ℕ) × (outs
      ≡ array_out (some p) (length r.instructions) ∷ array_out q (length r.relocations) ∷ [])
    × OwnsInstructions r.instructions p s
    × OwnsRelocs r.relocations q s

-- Every block is still there, with what it held.
abbrev pub Kept : Store → Store → Type 0
Kept s t = (q : ℕ) (b : Block) → s.live q ≡ some b → t.live q ≡ some b

pub OwnsBytes-Kept :
    (bytes : Bytes) (p : Option ℕ) (s t : Store)
    → Kept s t
    → OwnsBytes bytes p s
    → OwnsBytes bytes p t
OwnsBytes-Kept bytes p s t k (inl e) = inl e
OwnsBytes-Kept bytes p s t k (inr (q, e, there)) = inr (q, e, k q (chars bytes) there)

HoldsInstruction-Kept :
    (i : Instruction) (e : Element) (s t : Store)
    → Kept s t
    → HoldsInstruction i e s
    → HoldsInstruction i e t
HoldsInstruction-Kept i (instruction_element a assembly bytes n) s t k
      (at, (p, e, there), (size, inl h)) =
    (at, (p, e, k p _ there), (size, inl h))
HoldsInstruction-Kept i (instruction_element a assembly bytes n) s t k
      (at, (p, e, there), (size, inr (q, f, here))) =
    (at, (p, e, k p _ there), (size, inr (q, f, k q _ here)))
HoldsInstruction-Kept i (reloc_element o a h k name n) s t kept held = absurd held

pub AllHeld-Kept :
    (v : List Instruction) (l : List Element) (s t : Store)
    → Kept s t
    → AllHeld HoldsInstruction v l s
    → AllHeld HoldsInstruction v l t
AllHeld-Kept [] [] s t k h = tt
AllHeld-Kept [] (e ∷ l) s t k h = absurd h
AllHeld-Kept (i ∷ v) [] s t k h = absurd h
AllHeld-Kept (i ∷ v) (e ∷ l) s t k (here, rest) =
    (HoldsInstruction-Kept i e s t k here, AllHeld-Kept v l s t k rest)
