-- ===== src/GlueLayer/Encode/Accepts.antt =====
-- The code refuses no value that some instruction word means.
use nyxstone_tricore_gcc.Base.{
  ℕ, ◌+◌, ◌-◌, ◌*◌, ◌/◌, ◌%◌, ◌^◌, bit_and, ◌≡◌, refl, ◌∙◌, Bool, true, false, [], ◌∷◌, arith,
}
use nyxstone_tricore_gcc.Base.Fields.{bit_and-ones, bit_and-field, bit_and-kept}
use nyxstone_tricore_gcc.GlueLayer.Encode.{
  signed64, Form, rel24, abs24, abs18, abs18_14, hi, hiadj, lo, const16, lo2, off16, off10, rel15,
  rel8, rel4, rel4_2, rel5, sconst9, zconst9, const8, illegal_form, unknown_form, placed, guarded,
  place,
}
use nyxstone_tricore_gcc.GlueLayer.Encode.Operand.{field, sign_extend, bits24, bits18, operand}

accepted : (bad : Bool) (x : ℕ) → bad ≡ false → (y : ℕ) × (guarded bad x ≡ placed y)
accepted true x h = cc
accepted false x h = (x, refl)

-- The forms whose operand is the whole value.
abbrev pub IsWhole : Form → Type 0
IsWhole hi = ⊥
IsWhole hiadj = ⊥
IsWhole lo = ⊥
IsWhole lo2 = ⊥
IsWhole illegal_form = ⊥
IsWhole unknown_form = ⊥
IsWhole f = Unit

module _ (op w : ℕ) where
  rel24_accepts : (y : ℕ) × (place rel24 op (operand rel24 w) ≡ placed y)
  unfolding place operand signed64
  rel24_accepts = accepted _ _ (ground (arith, bit_and-ones 1 (sign_extend 25 (2 * bits24 w))))

  rel15_accepts : (y : ℕ) × (place rel15 op (operand rel15 w) ≡ placed y)
  unfolding place operand signed64
  rel15_accepts = accepted _ _ (ground (arith, bit_and-ones 1 (sign_extend 16 (2 * field 16 15 w))))

  rel8_accepts : (y : ℕ) × (place rel8 op (operand rel8 w) ≡ placed y)
  unfolding place operand signed64
  rel8_accepts = accepted _ _ (ground (arith, bit_and-ones 1 (sign_extend 9 (2 * field 8 8 w))))

  rel4_accepts : (y : ℕ) × (place rel4 op (operand rel4 w) ≡ placed y)
  unfolding place operand signed64
  rel4_accepts = accepted _ _ (ground (arith, bit_and-ones 1 (2 * field 8 4 w)))

  rel4_2_accepts : (y : ℕ) × (place rel4_2 op (operand rel4_2 w) ≡ placed y)
  unfolding place operand signed64
  rel4_2_accepts = accepted _ _ (ground (arith, bit_and-ones 1 (2 ^ 64 - 32 + 2 * field 8 4 w)))

  rel5_accepts : (y : ℕ) × (place rel5 op (operand rel5 w) ≡ placed y)
  unfolding place operand signed64
  rel5_accepts =
      accepted _ _ (ground (arith, bit_and-ones 1 (2 * (field 8 4 w + 2 ^ 4 * field 7 1 w))))

  const16_accepts : (y : ℕ) × (place const16 op (operand const16 w) ≡ placed y)
  unfolding place operand signed64
  const16_accepts = accepted _ _ (ground (arith))

  off16_accepts : (y : ℕ) × (place off16 op (operand off16 w) ≡ placed y)
  unfolding place operand signed64
  off16_accepts = accepted _ _ (ground (arith))

  off10_accepts : (y : ℕ) × (place off10 op (operand off10 w) ≡ placed y)
  unfolding place operand signed64
  off10_accepts = accepted _ _ (ground (arith))

  sconst9_accepts : (y : ℕ) × (place sconst9 op (operand sconst9 w) ≡ placed y)
  unfolding place operand signed64
  sconst9_accepts = accepted _ _ (ground (arith))

  zconst9_accepts : (y : ℕ) × (place zconst9 op (operand zconst9 w) ≡ placed y)
  unfolding place operand signed64
  zconst9_accepts = accepted _ _ (ground (arith, bit_and-field 9 55 (field 12 9 w)))

  const8_accepts : (y : ℕ) × (place const8 op (operand const8 w) ≡ placed y)
  unfolding place operand signed64
  const8_accepts = accepted _ _ (ground (arith, bit_and-field 8 56 (field 8 8 w)))

  abs18_accepts : (y : ℕ) × (place abs18 op (operand abs18 w) ≡ placed y)
  unfolding place operand signed64
  abs18_accepts =
      accepted _ _
        (ground (arith, bit_and-field 14 14 (bits18 w % 2 ^ 14 + 2 ^ 28 * (bits18 w / 2 ^ 14))))

  abs18_14_accepts : (y : ℕ) × (place abs18_14 op (operand abs18_14 w) ≡ placed y)
  unfolding place operand signed64
  abs18_14_accepts = accepted _ _ (ground (arith, bit_and-ones 14 (2 ^ 14 * bits18 w)))

  abs24_accepts : (y : ℕ) × (place abs24 op (operand abs24 w) ≡ placed y)
  unfolding place operand
  abs24_accepts =
      let v : ℕ = 2 * (bits24 w % 2 ^ 20) + 2 ^ 28 * (bits24 w / 2 ^ 20) in
      let tested : bit_and v 0x0fe00001 ≡ v % 2 + 2 ^ 21 * (v / 2 ^ 21 % 2 ^ 7) =
        bit_and-kept (1 ∷ 20 ∷ 7 ∷ 36 ∷ []) (true ∷ false ∷ true ∷ false ∷ [])
          (v % 2 ∷ v / 2 % 2 ^ 20 ∷ v / 2 ^ 21 % 2 ^ 7 ∷ v / 2 ^ 28 ∷ []) v (omega arith)
          (omega arith)
        ∙ omega arith in
      accepted _ _ (ground (arith, tested))

  -- For the forms whose operand is the whole value, and any opcode word: a value that is the operand
  -- of some word is encoded, never refused as out of range.
  pub place_accepts : (f : Form) → IsWhole f → (y : ℕ) × (place f op (operand f w) ≡ placed y)
  place_accepts rel24 h = rel24_accepts
  place_accepts abs24 h = abs24_accepts
  place_accepts abs18 h = abs18_accepts
  place_accepts abs18_14 h = abs18_14_accepts
  place_accepts hi h = absurd h
  place_accepts hiadj h = absurd h
  place_accepts lo h = absurd h
  place_accepts const16 h = const16_accepts
  place_accepts lo2 h = absurd h
  place_accepts off16 h = off16_accepts
  place_accepts off10 h = off10_accepts
  place_accepts rel15 h = rel15_accepts
  place_accepts rel8 h = rel8_accepts
  place_accepts rel4 h = rel4_accepts
  place_accepts rel4_2 h = rel4_2_accepts
  place_accepts rel5 h = rel5_accepts
  place_accepts sconst9 h = sconst9_accepts
  place_accepts zconst9 h = zconst9_accepts
  place_accepts const8 h = const8_accepts
  place_accepts illegal_form h = absurd h
  place_accepts unknown_form h = absurd h
