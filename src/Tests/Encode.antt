-- ===== src/Tests/Encode.antt =====
-- The encoding of relocations at concrete inputs.
use nyxstone_tricore_gcc.Base.{ℕ, ◌≡◌, refl, [], ◌∷◌, arith, codes}
use nyxstone_tricore_gcc.GlueLayer.Encode.{
  rel24, placed, place, encoded, encode_pcrel_field, signed64,
}
use nyxstone_tricore_gcc.GlueLayer.Encode.Operand.{operand, Carries}
use nyxstone_tricore_gcc.GlueLayer.Encode.Carries.{place-Carries}
use nyxstone_tricore_gcc.GlueLayer.Encode.Accepts.{place_accepts}
use nyxstone_tricore_gcc.GlueLayer.Encode.Buffer.{Encodes, field_in, encode_pcrel_field-Encodes}
use nyxstone_tricore_gcc.Tests.GlueLayer.{branch_howto}

placed_branch : place rel24 0x6d 16 ≡ placed 0x0008006d
unfolding place signed64
placed_branch = refl

place-Carries_example : Carries rel24 0x6d 16 0x0008006d
place-Carries_example =
    place-Carries 0x6d 16 0x0008006d (omega arith) (omega arith) rel24 placed_branch

place_accepts_example : (y : ℕ) × (place rel24 0x6d (operand rel24 0x0008006d) ≡ placed y)
place_accepts_example = place_accepts 0x6d 0x0008006d rel24 tt

encode_pcrel_field-Encodes_example :
    Encodes
      (field_in branch_howto (codes "R_TRICORE_24REL"))
      (0x6d ∷ 0 ∷ 0 ∷ 0 ∷ [])
      0
      16
      (encode_pcrel_field (0x6d ∷ 0 ∷ 0 ∷ 0 ∷ []) 0 branch_howto 16)
encode_pcrel_field-Encodes_example =
    encode_pcrel_field-Encodes (0x6d ∷ 0 ∷ 0 ∷ 0 ∷ []) 0 16 (omega arith) branch_howto
      (codes "R_TRICORE_24REL") refl (omega arith)

encoded_branch :
    encode_pcrel_field (0x6d ∷ 0 ∷ 0 ∷ 0 ∷ []) 0 branch_howto 16 ≡ (encoded, 0x6d ∷ 0 ∷ 8 ∷ 0 ∷ [])
unfolding encode_pcrel_field
encoded_branch = refl
