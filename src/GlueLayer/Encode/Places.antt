-- ===== src/GlueLayer/Encode/Places.antt =====
-- The words that `encode_pcrel_field` builds with masks and shifts, as sums of fields.
-- The fields of `op` that stay, and the new ones: `v` is cut at the given digits.
use nyxstone_tricore_gcc.Base.{
  ℕ, ◌+◌, ◌*◌, ◌/◌, ◌%◌, ◌^◌, ◌<◌, bit_and, bit_or, ◌≡◌, ◌∙◌, true, false, [], ◌∷◌, arith,
}
use nyxstone_tricore_gcc.Base.Fields.{
  bit_and-ones, bit_and-field, bit_or-field, bit_and-kept, set_middle,
}
use nyxstone_tricore_gcc.GlueLayer.Encode.{
  shl32, not32, low32, put24, put18, put16, put_off16, put_off10, put_field, put5,
}

module _ (op v : ℕ) (word : op < 2 ^ 32) where
  pub put24-sum : put24 op v ≡ op % 2 ^ 8 + 2 ^ 8 * (v / 2 ^ 16 % 2 ^ 8) + 2 ^ 16 * (v % 2 ^ 16)
  put24-sum =
      let low = bit_and-ones 8 op in
      let a : shl32 (low32 (bit_and v 0xffff)) 16 ≡ 2 ^ 16 * (v % 2 ^ 16) =
        omega (arith, bit_and-ones 16 v) in
      let b : low32 (bit_and v 0xff0000) / 2 ^ 8 ≡ 2 ^ 8 * (v / 2 ^ 16 % 2 ^ 8) =
        omega (arith, bit_and-field 16 8 v) in
      rw (low, a, bit_or-field 16 16 (v % 2 ^ 16) (op % 2 ^ 8) (omega arith) (omega arith), b)
        (bit_or-field 8 8 (v / 2 ^ 16 % 2 ^ 8) (op % 2 ^ 8 + 2 ^ 16 * (v % 2 ^ 16)) (omega arith)
            (omega arith)
          ∙ omega arith)

  pub put16-sum : put16 op v ≡ op % 2 ^ 12 + 2 ^ 12 * (v % 2 ^ 16) + 2 ^ 28 * (op / 2 ^ 28)
  put16-sum =
      let field : shl32 (bit_and (low32 v) 0xffff) 12 ≡ 2 ^ 12 * (v % 2 ^ 16) =
        omega (arith, bit_and-ones 16 (low32 v)) in
      rw field (
        set_middle 12 16 4 (op % 2 ^ 12) (op / 2 ^ 12 % 2 ^ 16) (op / 2 ^ 28) (v % 2 ^ 16) op
          (omega arith) (omega arith) (omega arith)
        ∙ omega arith)

  pub put_rel15-sum :
      put_field 0x7fff 16 op v ≡ op % 2 ^ 16 + 2 ^ 16 * (v % 2 ^ 15) + 2 ^ 31 * (op / 2 ^ 31)
  put_rel15-sum =
      let field : shl32 (bit_and (low32 v) 0x7fff) 16 ≡ 2 ^ 16 * (v % 2 ^ 15) =
        omega (arith, bit_and-ones 15 (low32 v)) in
      rw field (
        set_middle 16 15 1 (op % 2 ^ 16) (op / 2 ^ 16 % 2 ^ 15) (op / 2 ^ 31) (v % 2 ^ 15) op
          (omega arith) (omega arith) (omega arith)
        ∙ omega arith)

  pub put_rel8-sum :
      put_field 0xff 8 op v ≡ op % 2 ^ 8 + 2 ^ 8 * (v % 2 ^ 8) + 2 ^ 16 * (op / 2 ^ 16)
  put_rel8-sum =
      let field : shl32 (bit_and (low32 v) 0xff) 8 ≡ 2 ^ 8 * (v % 2 ^ 8) =
        omega (arith, bit_and-ones 8 (low32 v)) in
      rw field (
        set_middle 8 8 16 (op % 2 ^ 8) (op / 2 ^ 8 % 2 ^ 8) (op / 2 ^ 16) (v % 2 ^ 8) op
          (omega arith) (omega arith) (omega arith)
        ∙ omega arith)

  pub put_rel4-sum :
      put_field 0xf 8 op v ≡ op % 2 ^ 8 + 2 ^ 8 * (v % 2 ^ 4) + 2 ^ 12 * (op / 2 ^ 12)
  put_rel4-sum =
      let field : shl32 (bit_and (low32 v) 0xf) 8 ≡ 2 ^ 8 * (v % 2 ^ 4) =
        omega (arith, bit_and-ones 4 (low32 v)) in
      rw field (
        set_middle 8 4 20 (op % 2 ^ 8) (op / 2 ^ 8 % 2 ^ 4) (op / 2 ^ 12) (v % 2 ^ 4) op
          (omega arith) (omega arith) (omega arith)
        ∙ omega arith)

  pub put_const9-sum :
      put_field 0x1ff 12 op v ≡ op % 2 ^ 12 + 2 ^ 12 * (v % 2 ^ 9) + 2 ^ 21 * (op / 2 ^ 21)
  put_const9-sum =
      let field : shl32 (bit_and (low32 v) 0x1ff) 12 ≡ 2 ^ 12 * (v % 2 ^ 9) =
        omega (arith, bit_and-ones 9 (low32 v)) in
      rw field (
        set_middle 12 9 11 (op % 2 ^ 12) (op / 2 ^ 12 % 2 ^ 9) (op / 2 ^ 21) (v % 2 ^ 9) op
          (omega arith) (omega arith) (omega arith)
        ∙ omega arith)

  pub put_zconst9-sum :
      v < 2 ^ 9
      → bit_or (bit_and op (not32 (shl32 0x1ff 12))) (shl32 (low32 v) 12)
        ≡ op % 2 ^ 12 + 2 ^ 12 * v + 2 ^ 21 * (op / 2 ^ 21)
  put_zconst9-sum h =
      let field : shl32 (low32 v) 12 ≡ 2 ^ 12 * v = omega arith in
      rw field (
        set_middle 12 9 11 (op % 2 ^ 12) (op / 2 ^ 12 % 2 ^ 9) (op / 2 ^ 21) v op (omega arith)
          (omega arith) h
        ∙ omega arith)

  pub put_const8-sum :
      v < 2 ^ 8
      → bit_or (bit_and op (not32 (shl32 0xff 8))) (shl32 (low32 v) 8)
        ≡ op % 2 ^ 8 + 2 ^ 8 * v + 2 ^ 16 * (op / 2 ^ 16)
  put_const8-sum h =
      let field : shl32 (low32 v) 8 ≡ 2 ^ 8 * v = omega arith in
      rw field (
        set_middle 8 8 16 (op % 2 ^ 8) (op / 2 ^ 8 % 2 ^ 8) (op / 2 ^ 16) v op (omega arith)
          (omega arith) h
        ∙ omega arith)

  pub put5-sum :
      put5 op v
      ≡ op % 2 ^ 7 + 2 ^ 7 * (v / 2 ^ 4 % 2) + 2 ^ 8 * (v % 2 ^ 4) + 2 ^ 12 * (op / 2 ^ 12)
  put5-sum =
      let a : shl32 (bit_and (low32 v) 0xf) 8 ≡ 2 ^ 8 * (v % 2 ^ 4) =
        omega (arith, bit_and-ones 4 (low32 v)) in
      let b : shl32 (bit_and (low32 v) 0x10) 3 ≡ 2 ^ 7 * (v / 2 ^ 4 % 2) =
        omega (arith, bit_and-field 4 1 (low32 v)) in
      let low : bit_and op 0xfffff07f ≡ op % 2 ^ 7 + 2 ^ 12 * (op / 2 ^ 12) =
        bit_and-kept (7 ∷ 5 ∷ 20 ∷ []) (true ∷ false ∷ true ∷ [])
          (op % 2 ^ 7 ∷ op / 2 ^ 7 % 2 ^ 5 ∷ op / 2 ^ 12 ∷ []) op (omega arith) (omega arith)
        ∙ omega arith in
      let stays = op % 2 ^ 7 + 2 ^ 12 * (op / 2 ^ 12) in
      rw (low, a, bit_or-field 8 4 (v % 2 ^ 4) stays (omega arith) (omega arith), b)
        (bit_or-field 7 1 (v / 2 ^ 4 % 2) (stays + 2 ^ 8 * (v % 2 ^ 4)) (omega arith) (omega arith)
          ∙ omega arith)

  pub put_off10-sum :
      put_off10 op v
      ≡ op % 2 ^ 16
        + 2 ^ 16 * (v % 2 ^ 6)
        + 2 ^ 22 * (op / 2 ^ 22 % 2 ^ 6)
        + 2 ^ 28 * (v / 2 ^ 6 % 2 ^ 4)
  put_off10-sum =
      let a : shl32 (low32 (bit_and v 0x3f)) 16 ≡ 2 ^ 16 * (v % 2 ^ 6) =
        omega (arith, bit_and-ones 6 v) in
      let b : shl32 (low32 (bit_and v 0x3c0)) 22 ≡ 2 ^ 28 * (v / 2 ^ 6 % 2 ^ 4) =
        omega (arith, bit_and-field 6 4 v) in
      let low : bit_and op 0x0fc0ffff ≡ op % 2 ^ 16 + 2 ^ 22 * (op / 2 ^ 22 % 2 ^ 6) =
        bit_and-kept (16 ∷ 6 ∷ 6 ∷ 4 ∷ []) (true ∷ false ∷ true ∷ false ∷ [])
          (op % 2 ^ 16 ∷ op / 2 ^ 16 % 2 ^ 6 ∷ op / 2 ^ 22 % 2 ^ 6 ∷ op / 2 ^ 28 ∷ []) op
          (omega arith) (omega arith)
        ∙ omega arith in
      let stays = op % 2 ^ 16 + 2 ^ 22 * (op / 2 ^ 22 % 2 ^ 6) in
      rw (low, a, bit_or-field 16 6 (v % 2 ^ 6) stays (omega arith) (omega arith), b)
        (bit_or-field 28 4 (v / 2 ^ 6 % 2 ^ 4) (stays + 2 ^ 16 * (v % 2 ^ 6)) (omega arith)
            (omega arith)
          ∙ omega arith)

  pub put_off16-sum :
      put_off16 op v
      ≡ op % 2 ^ 16
        + 2 ^ 16 * (v % 2 ^ 6)
        + 2 ^ 22 * (v / 2 ^ 10 % 2 ^ 6)
        + 2 ^ 28 * (v / 2 ^ 6 % 2 ^ 4)
  put_off16-sum =
      let low = bit_and-ones 16 op in
      let a : shl32 (low32 (bit_and v 0x3f)) 16 ≡ 2 ^ 16 * (v % 2 ^ 6) =
        omega (arith, bit_and-ones 6 v) in
      let b : shl32 (low32 (bit_and v 0x3c0)) 22 ≡ 2 ^ 28 * (v / 2 ^ 6 % 2 ^ 4) =
        omega (arith, bit_and-field 6 4 v) in
      let c : shl32 (low32 (bit_and v 0xfc00)) 12 ≡ 2 ^ 22 * (v / 2 ^ 10 % 2 ^ 6) =
        omega (arith, bit_and-field 10 6 v) in
      let one = op % 2 ^ 16 in
      let two = one + 2 ^ 16 * (v % 2 ^ 6) in
      let three = two + 2 ^ 28 * (v / 2 ^ 6 % 2 ^ 4) in
      rw
        (
          low,
          a,
          bit_or-field 16 6 (v % 2 ^ 6) one (omega arith) (omega arith),
          b,
          bit_or-field 28 4 (v / 2 ^ 6 % 2 ^ 4) two (omega arith) (omega arith),
          c,
        )
        (bit_or-field 22 6 (v / 2 ^ 10 % 2 ^ 6) three (omega arith) (omega arith) ∙ omega arith)

  -- The fourth part is at bits 12 to 15 already.
  pub put18-sum :
      (t : ℕ)
      → t < 2 ^ 4
      → put18 op v (2 ^ 12 * t)
        ≡ op % 2 ^ 12
          + 2 ^ 12 * t
          + 2 ^ 16 * (v % 2 ^ 6)
          + 2 ^ 22 * (v / 2 ^ 10 % 2 ^ 4)
          + 2 ^ 26 * (op / 2 ^ 26 % 2 ^ 2)
          + 2 ^ 28 * (v / 2 ^ 6 % 2 ^ 4)
  put18-sum t h =
      let low : bit_and op 0x0c000fff ≡ op % 2 ^ 12 + 2 ^ 26 * (op / 2 ^ 26 % 2 ^ 2) =
        bit_and-kept (12 ∷ 14 ∷ 2 ∷ 4 ∷ []) (true ∷ false ∷ true ∷ false ∷ [])
          (op % 2 ^ 12 ∷ op / 2 ^ 12 % 2 ^ 14 ∷ op / 2 ^ 26 % 2 ^ 2 ∷ op / 2 ^ 28 ∷ []) op
          (omega arith) (omega arith)
        ∙ omega arith in
      let a : shl32 (low32 (bit_and v 0x3f)) 16 ≡ 2 ^ 16 * (v % 2 ^ 6) =
        omega (arith, bit_and-ones 6 v) in
      let b : shl32 (low32 (bit_and v 0x3c0)) 22 ≡ 2 ^ 28 * (v / 2 ^ 6 % 2 ^ 4) =
        omega (arith, bit_and-field 6 4 v) in
      let c : shl32 (low32 (bit_and v 0x3c00)) 12 ≡ 2 ^ 22 * (v / 2 ^ 10 % 2 ^ 4) =
        omega (arith, bit_and-field 10 4 v) in
      let one = op % 2 ^ 12 + 2 ^ 26 * (op / 2 ^ 26 % 2 ^ 2) in
      let two = one + 2 ^ 16 * (v % 2 ^ 6) in
      let three = two + 2 ^ 28 * (v / 2 ^ 6 % 2 ^ 4) in
      let four = three + 2 ^ 22 * (v / 2 ^ 10 % 2 ^ 4) in
      rw
        (
          low,
          a,
          bit_or-field 16 6 (v % 2 ^ 6) one (omega arith) (omega arith),
          b,
          bit_or-field 28 4 (v / 2 ^ 6 % 2 ^ 4) two (omega arith) (omega arith),
          c,
          bit_or-field 22 4 (v / 2 ^ 10 % 2 ^ 4) three (omega arith) (omega arith),
        )
        (bit_or-field 12 4 t four h (omega arith) ∙ omega arith)
