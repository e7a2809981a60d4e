-- ===== src/GlueLayer/Fixups/Spots.antt =====
-- The ranges of the section that fixups are written to.
use nyxstone_tricore_gcc.Base.{
  ℕ, ◌<◌, bit_and, ◌≡◌, refl, sym, ap, subst, ◌∙◌, inl, inr, Option, none, some, List, [], ◌∷◌,
  ◌++◌, arith, ◌==◌, if◌then◌else◌, length, All, All-append, Bytes,
}
use nyxstone_tricore_gcc.Gas.{Fix, Chain, Gas}
use nyxstone_tricore_gcc.Data.{le_bytes}
use nyxstone_tricore_gcc.Data.Words.{length-le_bytes}
use nyxstone_tricore_gcc.GlueLayer.Encode.Operand.{Carries}
use nyxstone_tricore_gcc.GlueLayer.Encode.{
  Field, data_field, instruction_field, opcode_length, rd_le, wr_le,
}
use nyxstone_tricore_gcc.GlueLayer.Encode.Slices.{
  slice, Apart, Apart-sym, slice-put_bytes, length-put_bytes, rd_le-slice,
}
use nyxstone_tricore_gcc.GlueLayer.Encode.Buffer.{Holds}
use nyxstone_tricore_gcc.GlueLayer.Fixups.{fix_address}
use nyxstone_tricore_gcc.GlueLayer.Fixups.Reference.{Reference, width, reference}

-- No two of the ranges have a byte in common.
abbrev pub AreApart : List (ℕ × ℕ) → Type 0
AreApart [] = Unit
AreApart (r ∷ rs) = All (Apart r) rs × AreApart rs

module _ (g : Gas) (fcs : List (Chain g.Symbol)) where
  open g use {Symbol, World}

  -- The range that a fixup is written to, if it refers to something.
  abbrev pub spot_of : Fix Symbol → Option (Reference Symbol) → Bytes → List (ℕ × ℕ)
  spot_of fx none buf = []
  spot_of fx (some r) buf = (fix_address fcs fx, width r.field buf (fix_address fcs fx)) ∷ []

  abbrev pub spots : World → Bytes → List (Fix Symbol) → List (ℕ × ℕ)
  spots w buf [] = []
  spots w buf (fx ∷ fxs) = spot_of fx (reference g w fx) buf ++ spots w buf fxs

pub length-wr_le : (buf : Bytes) (at n x : ℕ) → length (wr_le buf at n x) ≡ length buf
unfolding wr_le
length-wr_le buf at n x = length-put_bytes at (le_bytes n x) buf

-- One write, and the ranges apart from it.
module _ (buf : Bytes) (at n x : ℕ) where
  abbrev after : Bytes
  after = wr_le buf at n x

  pub slice-after : (a m : ℕ) → Apart (a, m) (at, n) → slice a m after ≡ slice a m buf
  unfolding wr_le
  slice-after a m h =
      slice-put_bytes at (le_bytes n x) buf a m
        (subst (λ (k : ℕ). Apart (a, m) (at, k)) (sym (length-le_bytes n x)) h)

  first-after : (a m : ℕ) → 0 < m → Apart (a, m) (at, n) → rd_le after a 1 ≡ rd_le buf a 1
  first-after a m p (inl h) = rd_le-slice after buf a 1 (slice-after a 1 (inl (omega arith)))
  first-after a m p (inr h) = rd_le-slice after buf a 1 (slice-after a 1 (inr h))

  opcode_length-after :
      (a : ℕ) → Apart (a, opcode_length buf a) (at, n) → opcode_length after a ≡ opcode_length buf a
  opcode_length-after a h =
      ap (λ (b : ℕ). if bit_and b 1 == 0 then 2 else 4)
        (first-after a (opcode_length buf a) (ground arith) h)

  width-after :
      (kind : Field) (a : ℕ)
      → Apart (a, width kind buf a) (at, n)
      → width kind after a ≡ width kind buf a
  unfolding width
  width-after (data_field m) a h = refl
  width-after (instruction_field f) a h = opcode_length-after a h

  pub Holds-after :
      (kind : Field) (a v m y : ℕ)
      → Apart (a, width kind buf a) (at, n)
      → Holds kind after a v m y
      → Holds kind buf a v m y
  unfolding width
  Holds-after (data_field k) a v m y h holds = holds
  Holds-after (instruction_field f) a v m y h (size, carries) =
      let same = opcode_length-after a h in
      let size' : m ≡ opcode_length buf a = size ∙ same in
      let apart = subst (λ (k : ℕ). Apart (a, k) (at, n)) (sym size') h in
      let word = rd_le-slice after buf a m (slice-after a m apart) in
      (size', subst (λ (op : ℕ). Carries f op v y) word carries)

  module _ (g : Gas) (fcs : List (Chain g.Symbol)) (w : g.World) where
    open g use {Symbol}

    spot_of-after :
        (fx : Fix Symbol) (ref : Option (Reference Symbol))
        → All (Apart (at, n)) (spot_of g fcs fx ref buf)
        → spot_of g fcs fx ref after ≡ spot_of g fcs fx ref buf
    spot_of-after fx none h = refl
    spot_of-after fx (some r) (h, _) =
        let a = fix_address fcs fx in
        ap (λ (k : ℕ). (a, k) ∷ []) (width-after r.field a (Apart-sym (at, n) (a, _) h))

    pub spots-after :
        (fxs : List (Fix Symbol))
        → All (Apart (at, n)) (spots g fcs w buf fxs)
        → spots g fcs w after fxs ≡ spots g fcs w buf fxs
    spots-after [] h = refl
    spots-after (fx ∷ fxs) h =
        let (here, rest) =
          All-append (Apart (at, n)) (spot_of g fcs fx (reference g w fx) buf)
            (spots g fcs w buf fxs) h in
        λ i. spot_of-after fx (reference g w fx) here i ++ spots-after fxs rest i
