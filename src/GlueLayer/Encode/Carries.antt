-- ===== src/GlueLayer/Encode/Carries.antt =====
-- The words that the code builds mean the values that they are built from.
use nyxstone_tricore_gcc.Base.{
  ℕ, ◌+◌, ◌-◌, ◌*◌, ◌/◌, ◌%◌, ◌^◌, ◌<◌, bit_and, bit_or, ◌≡◌, refl, sym, ap, ◌∙◌, Bool, true, false,
  ◌||◌, [], ◌∷◌, arith, pos, negsuc,
}
use nyxstone_tricore_gcc.Base.Fields.{bit_and-ones, bit_and-field, bit_or-field, bit_and-kept}
use nyxstone_tricore_gcc.GlueLayer.Encode.{
  shl32, not32, low32, signed64, outside, has_any, sar1, Form, rel24, abs24, abs18, abs18_14, hi,
  hiadj, lo, const16, lo2, off16, off10, rel15, rel8, rel4, rel4_2, rel5, sconst9, zconst9, const8,
  illegal_form, unknown_form, placed, put24, put18, put16, put_off16, put_off10, put_field, put5,
  guarded, folded, place,
}
use nyxstone_tricore_gcc.GlueLayer.Encode.Places.{
  put24-sum, put16-sum, put_rel15-sum, put_rel8-sum, put_rel4-sum, put_const9-sum, put_zconst9-sum,
  put_const8-sum, put5-sum, put_off10-sum, put_off16-sum, put18-sum,
}
use nyxstone_tricore_gcc.GlueLayer.Encode.Operand.{operand, meant, opcode, Carries}

guarded-placed : (bad : Bool) (x w : ℕ) → guarded bad x ≡ placed w → (bad ≡ false) × (x ≡ w)
guarded-placed true x w h = cc
guarded-placed false x w h = (refl, cc)

module _ (op v w : ℕ) (word : op < 2 ^ 32) (long : v < 2 ^ 64) where
  rel24-Carries : place rel24 op v ≡ placed w → Carries rel24 op v w
  unfolding place operand meant opcode signed64
  rel24-Carries h =
      let (legal, e) =
        guarded-placed (has_any v 1 || outside (negsuc 16777215) (pos 16777214) v)
          (put24 op (sar1 v)) w h in
      let even = bit_and-ones 1 v in
      let sum = put24-sum op (sar1 v) word in
      record {
        is_word = ground (arith, sum);
        operand_is = ground (arith, sum, even);
        opcode_is = ground (arith, sum);
      }

  rel15-Carries : place rel15 op v ≡ placed w → Carries rel15 op v w
  unfolding place operand meant opcode signed64
  rel15-Carries h =
      let (legal, e) =
        guarded-placed (has_any v 1 || outside (negsuc 32767) (pos 32766) v)
          (put_field 0x7fff 16 op (sar1 v)) w h in
      let even = bit_and-ones 1 v in
      let sum = put_rel15-sum op (sar1 v) word in
      record {
        is_word = ground (arith, sum);
        operand_is = ground (arith, sum, even);
        opcode_is = ground (arith, sum);
      }

  rel8-Carries : place rel8 op v ≡ placed w → Carries rel8 op v w
  unfolding place operand meant opcode signed64
  rel8-Carries h =
      let (legal, e) =
        guarded-placed (has_any v 1 || outside (negsuc 255) (pos 254) v)
          (put_field 0xff 8 op (sar1 v)) w h in
      let even = bit_and-ones 1 v in
      let sum = put_rel8-sum op (sar1 v) word in
      record {
        is_word = ground (arith, sum);
        operand_is = ground (arith, sum, even);
        opcode_is = ground (arith, sum);
      }

  rel4-Carries : place rel4 op v ≡ placed w → Carries rel4 op v w
  unfolding place operand meant opcode signed64
  rel4-Carries h =
      let (legal, e) =
        guarded-placed (has_any v 1 || outside (pos 0) (pos 30) v) (put_field 0xf 8 op (sar1 v)) w
          h in
      let even = bit_and-ones 1 v in
      let sum = put_rel4-sum op (sar1 v) word in
      record {
        is_word = ground (arith, sum);
        operand_is = ground (arith, sum, even);
        opcode_is = ground (arith, sum);
      }

  rel4_2-Carries : place rel4_2 op v ≡ placed w → Carries rel4_2 op v w
  unfolding place operand meant opcode signed64
  rel4_2-Carries h =
      let (legal, e) =
        guarded-placed (has_any v 1 || outside (negsuc 31) (negsuc 1) v)
          (put_field 0xf 8 op (sar1 v)) w h in
      let even = bit_and-ones 1 v in
      let sum = put_rel4-sum op (sar1 v) word in
      record {
        is_word = ground (arith, sum);
        operand_is = ground (arith, sum, even);
        opcode_is = ground (arith, sum);
      }

  rel5-Carries : place rel5 op v ≡ placed w → Carries rel5 op v w
  unfolding place operand meant opcode signed64
  rel5-Carries h =
      let (legal, e) =
        guarded-placed (has_any v 1 || outside (pos 0) (pos 62) v) (put5 op (sar1 v)) w h in
      let even = bit_and-ones 1 v in
      let sum = put5-sum op (sar1 v) word in
      record {
        is_word = ground (arith, sum);
        operand_is = ground (arith, sum, even);
        opcode_is = ground (arith, sum);
      }

  const16-Carries : place const16 op v ≡ placed w → Carries const16 op v w
  unfolding place operand meant opcode signed64
  const16-Carries h =
      let (legal, e) = guarded-placed (outside (negsuc 32767) (pos 32767) v) (put16 op v) w h in
      let sum = put16-sum op v word in
      record {
        is_word = ground (arith, sum);
        operand_is = ground (arith, sum);
        opcode_is = ground (arith, sum);
      }

  off16-Carries : place off16 op v ≡ placed w → Carries off16 op v w
  unfolding place operand meant opcode signed64
  off16-Carries h =
      let (legal, e) = guarded-placed (outside (negsuc 32767) (pos 32767) v) (put_off16 op v) w h in
      let sum = put_off16-sum op v word in
      record {
        is_word = ground (arith, sum);
        operand_is = ground (arith, sum);
        opcode_is = ground (arith, sum);
      }

  off10-Carries : place off10 op v ≡ placed w → Carries off10 op v w
  unfolding place operand meant opcode signed64
  off10-Carries h =
      let (legal, e) = guarded-placed (outside (negsuc 511) (pos 511) v) (put_off10 op v) w h in
      let sum = put_off10-sum op v word in
      record {
        is_word = ground (arith, sum);
        operand_is = ground (arith, sum);
        opcode_is = ground (arith, sum);
      }

  sconst9-Carries : place sconst9 op v ≡ placed w → Carries sconst9 op v w
  unfolding place operand meant opcode signed64
  sconst9-Carries h =
      let (legal, e) =
        guarded-placed (outside (negsuc 255) (pos 255) v) (put_field 0x1ff 12 op v) w h in
      let sum = put_const9-sum op v word in
      record {
        is_word = ground (arith, sum);
        operand_is = ground (arith, sum);
        opcode_is = ground (arith, sum);
      }

  hi-Carries : place hi op v ≡ placed w → Carries hi op v w
  unfolding place operand meant opcode signed64
  hi-Carries h =
      let e : put16 op (v / 2 ^ 16) ≡ w = cc in
      let sum = put16-sum op (v / 2 ^ 16) word in
      record {
        is_word = ground (arith, sum);
        operand_is = ground (arith, sum);
        opcode_is = ground (arith, sum);
      }

  hiadj-Carries : place hiadj op v ≡ placed w → Carries hiadj op v w
  unfolding place operand meant opcode signed64
  hiadj-Carries h =
      let e : put16 op ((v + 0x8000) % 2 ^ 64 / 2 ^ 16) ≡ w = cc in
      let sum = put16-sum op ((v + 0x8000) % 2 ^ 64 / 2 ^ 16) word in
      record {
        is_word = ground (arith, sum);
        operand_is = ground (arith, sum);
        opcode_is = ground (arith, sum);
      }

  lo-Carries : place lo op v ≡ placed w → Carries lo op v w
  unfolding place operand meant opcode signed64
  lo-Carries h =
      let e : put16 op v ≡ w = cc in
      let sum = put16-sum op v word in
      record {
        is_word = ground (arith, sum);
        operand_is = ground (arith, sum);
        opcode_is = ground (arith, sum);
      }

  lo2-Carries : place lo2 op v ≡ placed w → Carries lo2 op v w
  unfolding place operand meant opcode signed64
  lo2-Carries h =
      let e : put_off16 op v ≡ w = cc in
      let sum = put_off16-sum op v word in
      record {
        is_word = ground (arith, sum);
        operand_is = ground (arith, sum);
        opcode_is = ground (arith, sum);
      }

  zconst9-Carries : place zconst9 op v ≡ placed w → Carries zconst9 op v w
  unfolding place operand meant opcode signed64
  zconst9-Carries h =
      let (legal, e) =
        guarded-placed (has_any v (2 ^ 64 - 1 - 511))
          (bit_or (bit_and op (not32 (shl32 0x1ff 12))) (shl32 (low32 v) 12)) w h in
      let small = bit_and-field 9 55 v in
      let fits : v < 2 ^ 9 = ground (arith, small) in
      let sum = put_zconst9-sum op v word fits in
      record {
        is_word = ground (arith, sum);
        operand_is = ground (arith, sum, small);
        opcode_is = ground (arith, sum);
      }

  const8-Carries : place const8 op v ≡ placed w → Carries const8 op v w
  unfolding place operand meant opcode signed64
  const8-Carries h =
      let (legal, e) =
        guarded-placed (has_any v (2 ^ 64 - 1 - 255))
          (bit_or (bit_and op (not32 (shl32 0xff 8))) (shl32 (low32 v) 8)) w h in
      let small = bit_and-field 8 56 v in
      let fits : v < 2 ^ 8 = ground (arith, small) in
      let sum = put_const8-sum op v word fits in
      record {
        is_word = ground (arith, sum);
        operand_is = ground (arith, sum, small);
        opcode_is = ground (arith, sum);
      }

  abs24-Carries : place abs24 op v ≡ placed w → Carries abs24 op v w
  unfolding place operand meant opcode
  abs24-Carries h =
      let (legal, e) = guarded-placed (has_any v 0x0fe00001) (put24 op (folded (sar1 v))) w h in
      let tested : bit_and v 0x0fe00001 ≡ v % 2 + 2 ^ 21 * (v / 2 ^ 21 % 2 ^ 7) =
        bit_and-kept (1 ∷ 20 ∷ 7 ∷ 36 ∷ []) (true ∷ false ∷ true ∷ false ∷ [])
          (v % 2 ∷ v / 2 % 2 ^ 20 ∷ v / 2 ^ 21 % 2 ^ 7 ∷ v / 2 ^ 28 ∷ []) v (omega arith)
          (omega arith)
        ∙ omega arith in
      let clear : (v % 2 ≡ 0) × (v / 2 ^ 21 % 2 ^ 7 ≡ 0) = ground (arith, tested) in
      let half : ℕ = sar1 v in
      let halved : half % 2 ^ 31 ≡ v / 2 % 2 ^ 31 = ground arith in
      let top = bit_and-field 27 4 half in
      let moved : bit_and half 0x78000000 / 2 ^ 7 ≡ 2 ^ 20 * (half / 2 ^ 27 % 2 ^ 4) =
        omega (arith, top) in
      let joined : folded half ≡ half + 2 ^ 20 * (half / 2 ^ 27 % 2 ^ 4) = rw moved (
        bit_or-field 20 4 (half / 2 ^ 27 % 2 ^ 4) half (omega arith)
          (omega (arith, clear, halved))) in
      let sum = put24-sum op (folded half) word in
      record {
        is_word = omega (arith, sum, e);
        operand_is = omega (arith, sum, e, joined, clear, halved);
        opcode_is = omega (arith, sum, e);
      }

  abs18-Carries : place abs18 op v ≡ placed w → Carries abs18 op v w
  unfolding place operand meant opcode
  abs18-Carries h =
      let (legal, e) =
        guarded-placed (has_any v 0x0fffc000) (put18 op v (low32 (bit_and v 0xf0000000) / 2 ^ 16)) w
          h in
      let tested = bit_and-field 14 14 v in
      let clear : v / 2 ^ 14 % 2 ^ 14 ≡ 0 = ground (arith, tested) in
      let top : low32 (bit_and v 0xf0000000) / 2 ^ 16 ≡ 2 ^ 12 * (v / 2 ^ 28 % 2 ^ 4) =
        omega (arith, bit_and-field 28 4 v) in
      let sum = put18-sum op v word (v / 2 ^ 28 % 2 ^ 4) (omega arith) in
      let built = sym e ∙ ap (put18 op v) top ∙ sum in
      record {
        is_word = omega (arith, built);
        operand_is = omega (arith, built, clear);
        opcode_is = omega (arith, built);
      }

  abs18_14-Carries : place abs18_14 op v ≡ placed w → Carries abs18_14 op v w
  unfolding place operand meant opcode
  abs18_14-Carries h =
      let x : ℕ = v / 2 ^ 14 in
      let (legal, e) =
        guarded-placed (has_any v 0x3fff) (put18 op x (low32 (bit_and x 0x3c000) / 2 ^ 2)) w h in
      let clear : v % 2 ^ 14 ≡ 0 = ground (arith, bit_and-ones 14 v) in
      let top : low32 (bit_and x 0x3c000) / 2 ^ 2 ≡ 2 ^ 12 * (x / 2 ^ 14 % 2 ^ 4) =
        omega (arith, bit_and-field 14 4 x) in
      let sum = put18-sum op x word (x / 2 ^ 14 % 2 ^ 4) (omega arith) in
      let built = sym e ∙ ap (put18 op x) top ∙ sum in
      record {
        is_word = omega (arith, built);
        operand_is = omega (arith, built, clear);
        opcode_is = omega (arith, built);
      }

  -- Whatever the form, for an opcode word of 32 bits and a value of 64: what the code builds of them
  -- has 32 bits, its operand is what the form can mean of the value, and the rest of it is as in
  -- the opcode word.
  pub place-Carries : (f : Form) → place f op v ≡ placed w → Carries f op v w
  place-Carries rel24 h = rel24-Carries h
  place-Carries abs24 h = abs24-Carries h
  place-Carries abs18 h = abs18-Carries h
  place-Carries abs18_14 h = abs18_14-Carries h
  place-Carries hi h = hi-Carries h
  place-Carries hiadj h = hiadj-Carries h
  place-Carries lo h = lo-Carries h
  place-Carries const16 h = const16-Carries h
  place-Carries lo2 h = lo2-Carries h
  place-Carries off16 h = off16-Carries h
  place-Carries off10 h = off10-Carries h
  place-Carries rel15 h = rel15-Carries h
  place-Carries rel8 h = rel8-Carries h
  place-Carries rel4 h = rel4-Carries h
  place-Carries rel4_2 h = rel4_2-Carries h
  place-Carries rel5 h = rel5-Carries h
  place-Carries sconst9 h = sconst9-Carries h
  place-Carries zconst9 h = zconst9-Carries h
  place-Carries const8 h = const8-Carries h
  place-Carries illegal_form h = unfold place in cc
  place-Carries unknown_form h = unfold place in cc
