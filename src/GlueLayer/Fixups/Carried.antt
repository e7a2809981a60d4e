-- ===== src/GlueLayer/Fixups/Carried.antt =====
-- What the second pass over the fixups does if it goes through: the fields of the fixups hold what
-- they refer to, and nothing else changes.
use nyxstone_tricore_gcc.Base.{
  ℕ, ◌+◌, ◌%◌, ◌^◌, ◌≤◌, ◌≡◌, refl, sym, ap, subst, ◌∙◌, true, Option, none, some, List, [], ◌∷◌,
  ◌++◌, arith, length, All, All-append, Bytes,
}
use nyxstone_tricore_gcc.Gas.{Fix, Chain, Gas}
use nyxstone_tricore_gcc.GlueLayer.Encode.{rd_le, wr_le}
use nyxstone_tricore_gcc.GlueLayer.Encode.Bytewise.{AreBytes, AreBytes-wr_le, rd_le-wr_le}
use nyxstone_tricore_gcc.GlueLayer.Encode.Slices.{slice, Apart, Apart-sym, rd_le-slice}
use nyxstone_tricore_gcc.GlueLayer.Encode.Buffer.{Holds}
use nyxstone_tricore_gcc.GlueLayer.Fixups.{fix_address, Image}
use nyxstone_tricore_gcc.GlueLayer.Fixups.Reference.{
  Reference, Holds-width, HasForm, reference, value_of_reference, Steps,
}
use nyxstone_tricore_gcc.GlueLayer.Fixups.Spots.{
  AreApart, spot_of, spots, length-wr_le, slice-after, Holds-after, spots-after,
}

module _ (g : Gas) (base : ℕ) (fcs : List (Chain g.Symbol)) where
  open g use {Symbol, World}

  -- The symbol of the fixup, if it has a defined one, has a relocation of a known form.
  abbrev pub IsFormed : World → Fix Symbol → Type 0
  IsFormed w fx =
      (s : Symbol)
      → fx.addsy ≡ some s
      → g.is_defined w s ≡ true
      → HasForm (g.reloc_type_lookup fx.r_type)

  -- In `out`, the field of the fixup holds what its reference comes to; `buf` is the image as it
  -- was.
  abbrev pub Carried : World → Bytes → Bytes → Fix Symbol → Option (Reference Symbol) → Type 0
  Carried w buf out fx none = Unit
  Carried w buf out fx (some r) =
      let at = fix_address fcs fx in
      (n x : ℕ) × (at + n ≤ length out)
      × (rd_le out at n ≡ x % 256 ^ n)
      × Holds r.field buf at (value_of_reference g base fcs w fx r) n x

  -- What a pass that goes through does.
  pub record Passes (w : World) (buf : Bytes) (fxs : List (Fix Symbol)) (out : Image World)
      : Type 0 where
    pub same_world : out.world ≡ w
    pub same_length : length out.buf ≡ length buf
    pub elsewhere :
        (a n : ℕ) → All (Apart (a, n)) (spots g fcs w buf fxs) → slice a n out.buf ≡ slice a n buf
    pub all_carried : All (λ fx. Carried w buf out.buf fx (reference g w fx)) fxs

  -- One write, and the ranges apart from it.
  module _ (buf : Bytes) (at n x : ℕ) (w : World) where
    Carried-after :
        (out : Bytes) (fx : Fix Symbol) (ref : Option (Reference Symbol))
        → All (Apart (at, n)) (spot_of g fcs fx ref buf)
        → Carried w (wr_le buf at n x) out fx ref
        → Carried w buf out fx ref
    Carried-after out fx none h c = tt
    Carried-after out fx (some r) (h, _) (m, y, room, back, holds) =
        let a = fix_address fcs fx in
        (
          m,
          y,
          room,
          back,
          Holds-after buf at n x r.field a _ m y (Apart-sym (at, n) (a, _) h) holds,
        )

    All-Carried-after :
        (out : Bytes) (fxs : List (Fix Symbol))
        → All (Apart (at, n)) (spots g fcs w buf fxs)
        → All (λ fx. Carried w (wr_le buf at n x) out fx (reference g w fx)) fxs
        → All (λ fx. Carried w buf out fx (reference g w fx)) fxs
    All-Carried-after out [] h c = tt
    All-Carried-after out (fx ∷ fxs) h (c, cs) =
        let (here, rest) =
          All-append (Apart (at, n)) (spot_of g fcs fx (reference g w fx) buf)
            (spots g fcs w buf fxs) h in
        (Carried-after out fx (reference g w fx) here c, All-Carried-after out fxs rest cs)

  -- Behind one more write at the front.
  cons_written :
      (w : World) (buf : Bytes) (fx : Fix Symbol) (fxs : List (Fix Symbol)) (r : Reference Symbol)
      (n x : ℕ) (out : Image World)
      → let at = fix_address fcs fx in
        reference g w fx ≡ some r
        → AreBytes buf
        → n ≤ 4
        → at + n ≤ length buf
        → Holds r.field buf at (value_of_reference g base fcs w fx r) n x
        → AreApart (spots g fcs w buf (fx ∷ fxs))
        → (AreApart (spots g fcs w (wr_le buf at n x) fxs) → Passes w (wr_le buf at n x) fxs out)
        → Passes w buf (fx ∷ fxs) out
  cons_written w buf fx fxs r n x out e bytes small room holds apart passes =
      let at = fix_address fcs fx in
      let size = Holds-width r.field buf at _ n x holds in
      let whole : spots g fcs w buf (fx ∷ fxs) ≡ (at, n) ∷ spots g fcs w buf fxs =
        (λ i. spot_of g fcs fx (e i) buf ++ spots g fcs w buf fxs)
        ∙ ap (λ (k : ℕ). (at, k) ∷ spots g fcs w buf fxs) (sym size) in
      let (here, rest) = subst AreApart whole apart in
      let same = spots-after buf at n x g fcs w fxs here in
      let p = passes (subst AreApart (sym same) rest) in
      let kept = p.elsewhere at n (subst (All (Apart (at, n))) (sym same) here) in
      let back =
        rd_le-slice out.buf (wr_le buf at n x) at n kept
        ∙ rd_le-wr_le buf at n x small room bytes in
      let size_kept = p.same_length ∙ length-wr_le buf at n x in
      record {
        same_world = p.same_world;
        same_length = size_kept;
        elsewhere = λ a m h.
            let (apart_here, apart_rest) = subst (All (Apart (a, m))) whole h in
            p.elsewhere a m (subst (All (Apart (a, m))) (sym same) apart_rest)
            ∙ slice-after buf at n x a m apart_here;
        all_carried = (
          subst (Carried w buf out.buf fx) (sym e) (n, x, omega (arith, size_kept), back, holds),
          All-Carried-after buf at n x w out.buf fxs here p.all_carried,
        );
      }

  cons_none :
      (w : World) (buf : Bytes) (fx : Fix Symbol) (fxs : List (Fix Symbol)) (out : Image World)
      → reference g w fx ≡ none
      → AreApart (spots g fcs w buf (fx ∷ fxs))
      → (AreApart (spots g fcs w buf fxs) → Passes w buf fxs out)
      → Passes w buf (fx ∷ fxs) out
  cons_none w buf fx fxs out e apart passes =
      let whole : spots g fcs w buf (fx ∷ fxs) ≡ spots g fcs w buf fxs =
        λ i. spot_of g fcs fx (e i) buf ++ spots g fcs w buf fxs in
      let p = passes (subst AreApart whole apart) in
      record {
        same_world = p.same_world;
        same_length = p.same_length;
        elsewhere = λ a m h. p.elsewhere a m (subst (All (Apart (a, m))) whole h);
        all_carried = (subst (Carried w buf out.buf fx) (sym e) tt, p.all_carried);
      }

  -- One fixup in front of those that a pass from `j` handles.
  pub cons-Passes :
      (fx : Fix Symbol) (fxs : List (Fix Symbol)) (i j out : Image World)
      (ref : Option (Reference Symbol))
      → reference g i.world fx ≡ ref
      → Steps g base fcs fx ref i j
      → AreBytes i.buf
      → AreApart (spots g fcs i.world i.buf (fx ∷ fxs))
      → (AreBytes j.buf → AreApart (spots g fcs j.world j.buf fxs) → Passes j.world j.buf fxs out)
      → Passes i.world i.buf (fx ∷ fxs) out
  cons-Passes fx fxs i j out none e step bytes apart passes =
      cons_none i.world i.buf fx fxs out e apart (
        subst
          (λ (k : Image World).
            AreBytes k.buf
            → AreApart (spots g fcs k.world k.buf fxs)
            → Passes k.world k.buf fxs out)
          step passes bytes)
  cons-Passes fx fxs i j out (some r) e (n, x, step, small, room, holds) bytes apart passes =
      cons_written i.world i.buf fx fxs r n x out e bytes small room holds apart (
        subst
          (λ (k : Image World).
            AreBytes k.buf
            → AreApart (spots g fcs k.world k.buf fxs)
            → Passes k.world k.buf fxs out)
          step passes (AreBytes-wr_le i.buf (fix_address fcs fx) n x bytes))

  pub nil-Passes : (i : Image World) → Passes i.world i.buf [] i
  nil-Passes i = record {
    same_world = refl;
    same_length = refl;
    elsewhere = λ a m h. refl;
    all_carried = tt;
  }
