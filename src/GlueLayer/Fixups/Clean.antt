-- ===== src/GlueLayer/Fixups/Clean.antt =====
-- The second pass over the fixups, if it gives up on no form and reports no error.
use nyxstone_tricore_gcc.Base.{
  ℕ, suc, ◌≤◌, ◌≡◌, refl, sym, subst, Option, none, some, List, [], ◌∷◌, arith, either, All, Bytes,
}
use nyxstone_tricore_gcc.Gas.{Fix, Chain, Gas}
use nyxstone_tricore_gcc.GlueLayer.Encode.{Howto, Code, encoded, unsupported, out_of_range}
use nyxstone_tricore_gcc.GlueLayer.Encode.Bytewise.{AreBytes, AreBytes-wr_le}
use nyxstone_tricore_gcc.GlueLayer.Fixups.{
  fix_address, Image, range_message, encode_result, encode_howto, encode_to, encode_fix,
  encode_fixes,
}
use nyxstone_tricore_gcc.GlueLayer.Fixups.Reference.{
  Reference, reference, IsClean, Steps, encode_fix-Steps, encode_fix-HasForm,
}
use nyxstone_tricore_gcc.GlueLayer.Fixups.Spots.{AreApart, spots}
use nyxstone_tricore_gcc.GlueLayer.Fixups.Carried.{IsFormed, Passes, cons-Passes, nil-Passes}

module _ (g : Gas) (base : ℕ) (fcs : List (Chain g.Symbol))
    (counts : (w : g.World) (m : Bytes) → g.had_errors (g.as_bad m w) ≡ suc (g.had_errors w)) where
  open g use {Symbol, World}

  -- Giving up on a form stays known, and errors add up.
  abbrev Grows : Image World → Image World → Type 0
  Grows i j =
      (j.unsupported_form ≡ none → i.unsupported_form ≡ none)
      × (g.had_errors i.world ≤ g.had_errors j.world)

  encode_result-Grows :
      (s : Symbol) (howto : Howto) (r : Code × Bytes) (i : Image World)
      → Grows i (encode_result g base fcs s howto r i)
  unfolding encode_result
  encode_result-Grows s howto (encoded, buf) i = (λ e. e, omega arith)
  encode_result-Grows s howto (unsupported, buf) i = (λ e. cc, omega arith)
  encode_result-Grows s howto (out_of_range, buf) i =
      (λ e. e, omega (arith, counts i.world (range_message g base fcs s howto)))

  encode_howto-Grows :
      (fx : Fix Symbol) (s : Symbol) (o : Option Howto) (i : Image World)
      → Grows i (encode_howto g base fcs fx s o i)
  unfolding encode_howto
  encode_howto-Grows fx s none i = (λ e. cc, omega arith)
  encode_howto-Grows fx s (some howto) i = encode_result-Grows s howto _ i

  encode_to-Grows :
      (fx : Fix Symbol) (o : Option Symbol) (i : Image World)
      → Grows i (encode_to g base fcs fx o i)
  unfolding encode_to
  encode_to-Grows fx none i = (λ e. e, omega arith)
  encode_to-Grows fx (some s) i =
      either (λ (j : Image World). Grows i j) (g.is_defined i.world s)
        (λ b. encode_howto-Grows fx s (g.reloc_type_lookup fx.r_type) i)
        (λ b. (λ e. e, omega arith))

  encode_fix-Grows : (fx : Fix Symbol) (i : Image World) → Grows i (encode_fix g base fcs fx i)
  unfolding encode_fix
  encode_fix-Grows fx i = encode_to-Grows fx fx.addsy i

  Grows-trans : (i j k : Image World) → Grows i j → Grows j k → Grows i k
  Grows-trans i j k p q = (λ e. p.0 (q.0 e), omega (arith, p.1, q.1))

  pub encode_fixes-Grows :
      (fxs : List (Fix Symbol)) (i : Image World) → Grows i (encode_fixes g base fcs fxs i)
  unfolding encode_fixes
  encode_fixes-Grows [] i = (λ e. e, omega arith)
  encode_fixes-Grows (fx ∷ fxs) i =
      let j = encode_fix g base fcs fx i in
      Grows-trans i j (encode_fixes g base fcs fxs j) (encode_fix-Grows fx i)
        (encode_fixes-Grows fxs j)

  -- A pass that goes through does so for its first fixup and for the others.
  pub cons-IsClean :
      (fx : Fix Symbol) (fxs : List (Fix Symbol)) (i : Image World)
      → let j = encode_fix g base fcs fx i in
        let out = encode_fixes g base fcs fxs j in IsClean g i out → IsClean g i j × IsClean g j out
  cons-IsClean fx fxs i (form, errors) =
      let j = encode_fix g base fcs fx i in
      let (form_later, more) = encode_fixes-Grows fxs j in
      let (form_here, some_more) = encode_fix-Grows fx i in
      (
        (form_later form, omega (arith, errors, more, some_more)),
        (form, omega (arith, errors, more, some_more)),
      )

  -- If the ranges of the fixups are apart and the pass goes through, every fixup that refers to
  -- something holds it in the end, and all other bytes are as they were.
  pub encode_fixes-Passes :
      (fxs : List (Fix Symbol)) (i : Image World)
      → AreBytes i.buf
      → AreApart (spots g fcs i.world i.buf fxs)
      → IsClean g i (encode_fixes g base fcs fxs i)
      → Passes g base fcs i.world i.buf fxs (encode_fixes g base fcs fxs i)
  unfolding encode_fixes
  encode_fixes-Passes [] i bytes apart clean = nil-Passes g base fcs i
  encode_fixes-Passes (fx ∷ fxs) i bytes apart clean =
      let j = encode_fix g base fcs fx i in
      let (here, later) = cons-IsClean fx fxs i clean in
      cons-Passes g base fcs fx fxs i j (encode_fixes g base fcs fxs j) (reference g i.world fx)
        refl (encode_fix-Steps g base fcs counts i bytes fx here) bytes apart
        (λ b a. encode_fixes-Passes fxs j b a later)

  abbrev Stays : Image World → Image World → Type 0
  Stays i j = (j.world ≡ i.world) × AreBytes j.buf

  Steps-Stays :
      (fx : Fix Symbol) (ref : Option (Reference Symbol)) (i j : Image World)
      → Steps g base fcs fx ref i j
      → AreBytes i.buf
      → Stays i j
  Steps-Stays fx none i j step bytes = subst (Stays i) (sym step) (refl, bytes)
  Steps-Stays fx (some r) i j (n, x, step, _, _, _) bytes =
      subst (Stays i) (sym step) (refl, AreBytes-wr_le i.buf (fix_address fcs fx) n x bytes)

  pub encode_fixes-IsFormed :
      (fxs : List (Fix Symbol)) (i : Image World)
      → AreBytes i.buf
      → IsClean g i (encode_fixes g base fcs fxs i)
      → All (IsFormed g base fcs i.world) fxs
  unfolding encode_fixes
  encode_fixes-IsFormed [] i bytes clean = tt
  encode_fixes-IsFormed (fx ∷ fxs) i bytes clean =
      let j = encode_fix g base fcs fx i in
      let (here, later) = cons-IsClean fx fxs i clean in
      let (same, bytes') =
        Steps-Stays fx (reference g i.world fx) i j
          (encode_fix-Steps g base fcs counts i bytes fx here) bytes in
      (
        λ s e b. encode_fix-HasForm g base fcs i fx s e b here.0,
        subst (λ (v : World). All (IsFormed g base fcs v) fxs) same
            (encode_fixes-IsFormed fxs j bytes' later),
      )
