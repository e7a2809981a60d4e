-- ===== src/GlueLayer/Encode.antt =====
-- src/nyxstone_glue.c, `encode_pcrel_field` with `rd_le` and `wr_le`. A `long` and a `uint64_t` are
-- numbers below 2 ^ 64, a `uint32_t` one below 2 ^ 32; signed tests read the two's complement.
pub mod Places
pub mod Operand
pub mod Carries
pub mod Accepts
pub mod Bytewise
pub mod Slices
pub mod Buffer
mod Words
unfoldable pub use Words.*
use nyxstone_tricore_gcc.Base.{
  ℕ, ◌+◌, ◌-◌, ◌/◌, ◌%◌, ◌^◌, bit_and, bit_or, Bool, ◌&&◌, ◌||◌, Option, none, some, [], ◌∷◌, ltb,
  leb, ◌==◌, if◌then◌else◌, length, drop, Bytes, codes, one_of, pos, negsuc,
}
use nyxstone_tricore_gcc.Text.{has_prefix}

-- `reloc_howto_type`, as far as it is read.
pub record Howto : Type 0 where
  pub name : Option Bytes
  pub dst_mask : ℕ
  pub bitpos : ℕ
  pub pc_relative : Bool
  pub elf_type : ℕ

-- The forms of relocations by their names.
pub data Form : Type 0 where
  rel24 : Form
  abs24 : Form
  abs18 : Form
  abs18_14 : Form
  hi : Form
  hiadj : Form
  lo : Form
  const16 : Form
  lo2 : Form
  off16 : Form
  off10 : Form
  rel15 : Form
  rel8 : Form
  rel4 : Form
  rel4_2 : Form
  rel5 : Form
  sconst9 : Form
  zconst9 : Form
  const8 : Form
  illegal_form : Form
  unknown_form : Form

unfoldable pub form_of : Bytes → Form
unfolding one_of
form_of r =
    if one_of r (codes "24REL" ∷ [])
    then rel24
    else if one_of r (codes "24ABS" ∷ [])
    then abs24
    else if one_of r (codes "18ABS" ∷ [])
    then abs18
    else if one_of r (codes "18ABS_14" ∷ [])
    then abs18_14
    else if one_of r (codes "HI" ∷ [])
    then hi
    else if one_of r (codes "HIADJ" ∷ [])
    then hiadj
    else if one_of r (codes "LO" ∷ [])
    then lo
    else if one_of r (codes "16CONST" ∷ [])
    then const16
    else if one_of r (codes "LO2" ∷ [])
    then lo2
    else if one_of r (codes "16OFF" ∷ [])
    then off16
    else if one_of r (codes "10OFF" ∷ [])
    then off10
    else if one_of r (codes "15REL" ∷ [])
    then rel15
    else if one_of r (codes "8REL" ∷ [])
    then rel8
    else if one_of r (codes "4REL" ∷ [])
    then rel4
    else if one_of r (codes "4REL2" ∷ [])
    then rel4_2
    else if one_of r (codes "5REL" ∷ [])
    then rel5
    else if one_of r (codes "9SCONST" ∷ [])
    then sconst9
    else if one_of r (codes "9ZCONST" ∷ [])
    then zconst9
    else if one_of r (codes "8CONST" ∷ [])
    then const8
    else if one_of r (codes "16SM" ∷ codes "10SM" ∷ codes "16SM2" ∷ [])
    then illegal_form
    else unknown_form

-- The opcode word with the value in its place; or the results -1 and 0.
pub data Placed : Type 0 where
  placed : ℕ → Placed
  illegal : Placed
  not_encoded : Placed

-- The B format: the displacement is split.
abbrev pub put24 : ℕ → ℕ → ℕ
put24 op v =
    bit_or
      (bit_or (bit_and op (not32 (bit_or (shl32 0xffff 16) 0xff00)))
        (shl32 (low32 (bit_and v 0xffff)) 16))
      (low32 (bit_and v 0xff0000) / 2 ^ 8)

-- The four parts of an 18-bit address; the last is at its place already.
abbrev pub put18 : ℕ → ℕ → ℕ → ℕ
put18 op v top =
    bit_or
      (bit_or
        (bit_or (bit_or (bit_and op (not32 0xf3fff000)) (shl32 (low32 (bit_and v 0x3f)) 16))
          (shl32 (low32 (bit_and v 0x3c0)) 22))
        (shl32 (low32 (bit_and v 0x3c00)) 12))
      top

-- Bits 12 to 27.
abbrev pub put16 : ℕ → ℕ → ℕ
put16 op v = bit_or (bit_and op (not32 (shl32 0xffff 12))) (shl32 (bit_and (low32 v) 0xffff) 12)

abbrev pub put_off16 : ℕ → ℕ → ℕ
put_off16 op v =
    bit_or
      (bit_or
        (bit_or
          (bit_and op (not32 (bit_or (bit_or (shl32 0x3f 16) (shl32 0x3c0 22)) (shl32 0xfc00 12))))
          (shl32 (low32 (bit_and v 0x3f)) 16))
        (shl32 (low32 (bit_and v 0x3c0)) 22))
      (shl32 (low32 (bit_and v 0xfc00)) 12)

abbrev pub put_off10 : ℕ → ℕ → ℕ
put_off10 op v =
    bit_or
      (bit_or (bit_and op (not32 (bit_or (shl32 0x3f 16) (shl32 0x3c0 22))))
        (shl32 (low32 (bit_and v 0x3f)) 16))
      (shl32 (low32 (bit_and v 0x3c0)) 22)

-- `(val & mask) << k`, for the forms with one field.
abbrev pub put_field : ℕ → ℕ → ℕ → ℕ → ℕ
put_field mask k op v =
    bit_or (bit_and op (not32 (shl32 mask k))) (shl32 (bit_and (low32 v) mask) k)

abbrev pub put5 : ℕ → ℕ → ℕ
put5 op v =
    bit_or
      (bit_or (bit_and op (not32 (bit_or (shl32 0xf 8) (shl32 0x10 3))))
        (shl32 (bit_and (low32 v) 0xf) 8))
      (shl32 (bit_and (low32 v) 0x10) 3)

abbrev pub guarded : Bool → ℕ → Placed
guarded bad w = if bad then illegal else placed w

abbrev pub folded : ℕ → ℕ
folded v = bit_or v (bit_and v 0x78000000 / 2 ^ 7)

-- One opcode word and value. `val >> 16` is an arithmetic shift, of which the low 16 bits are kept.
unfoldable pub place : Form → ℕ → ℕ → Placed
unfolding signed64
place rel24 op v =
    guarded (has_any v 1 || outside (negsuc 16777215) (pos 16777214) v) (put24 op (sar1 v))
place abs24 op v = guarded (has_any v 0x0fe00001) (put24 op (folded (sar1 v)))
place abs18 op v =
    guarded (has_any v 0x0fffc000) (put18 op v (low32 (bit_and v 0xf0000000) / 2 ^ 16))
place abs18_14 op v =
    guarded (has_any v 0x3fff)
      (put18 op (v / 2 ^ 14) (low32 (bit_and (v / 2 ^ 14) 0x3c000) / 2 ^ 2))
place hi op v = placed (put16 op (v / 2 ^ 16))
place hiadj op v = placed (put16 op ((v + 0x8000) % 2 ^ 64 / 2 ^ 16))
place lo op v = placed (put16 op v)
place const16 op v = guarded (outside (negsuc 32767) (pos 32767) v) (put16 op v)
place lo2 op v = placed (put_off16 op v)
place off16 op v = guarded (outside (negsuc 32767) (pos 32767) v) (put_off16 op v)
place off10 op v = guarded (outside (negsuc 511) (pos 511) v) (put_off10 op v)
place rel15 op v =
    guarded (has_any v 1 || outside (negsuc 32767) (pos 32766) v) (put_field 0x7fff 16 op (sar1 v))
place rel8 op v =
    guarded (has_any v 1 || outside (negsuc 255) (pos 254) v) (put_field 0xff 8 op (sar1 v))
place rel4 op v = guarded (has_any v 1 || outside (pos 0) (pos 30) v) (put_field 0xf 8 op (sar1 v))
place rel4_2 op v =
    guarded (has_any v 1 || outside (negsuc 31) (negsuc 1) v) (put_field 0xf 8 op (sar1 v))
place rel5 op v = guarded (has_any v 1 || outside (pos 0) (pos 62) v) (put5 op (sar1 v))
place sconst9 op v = guarded (outside (negsuc 255) (pos 255) v) (put_field 0x1ff 12 op v)
place zconst9 op v =
    guarded (has_any v (2 ^ 64 - 1 - 511))
      (bit_or (bit_and op (not32 (shl32 0x1ff 12))) (shl32 (low32 v) 12))
place const8 op v =
    guarded (has_any v (2 ^ 64 - 1 - 255))
      (bit_or (bit_and op (not32 (shl32 0xff 8))) (shl32 (low32 v) 8))
place illegal_form op v = illegal
place unknown_form op v = not_encoded

-- Data fields have as many bytes as the name or else the masks say; all others are instructions.
pub data Field : Type 0 where
  data_field : ℕ → Field
  instruction_field : Form → Field

unfoldable pub field_of : Bytes → Howto → Field
unfolding one_of form_of
field_of r howto =
    if one_of r (codes "32ABS" ∷ codes "32REL" ∷ []) || howto.dst_mask == 0xffffffff
    then data_field 4
    else if one_of r (codes "16ABS" ∷ []) || howto.dst_mask == 0xffff && howto.bitpos == 0
    then data_field 2
    else if one_of r (codes "8ABS" ∷ []) || howto.dst_mask == 0xff && howto.bitpos == 0
    then data_field 1
    else instruction_field (form_of r)

-- The name behind `R_TRICORE_`.
unfoldable pub form_name : Bytes → Bytes
unfolding has_prefix
form_name name = if has_prefix (codes "R_TRICORE_") name then drop 10 name else name

-- `rc`
pub data Code : Type 0 where
  encoded : Code
  unsupported : Code
  out_of_range : Code

unfoldable pub place_result : Bytes → ℕ → ℕ → Placed → Code × Bytes
unfolding wr_le
place_result buf at len (placed w) = (encoded, wr_le buf at len w)
place_result buf at len illegal = (out_of_range, buf)
place_result buf at len not_encoded = (unsupported, buf)

-- `(buf[at] & 1u) ? 4u : 2u`
abbrev pub opcode_length : Bytes → ℕ → ℕ
opcode_length buf at = if bit_and (rd_le buf at 1) 1 == 0 then 2 else 4

unfoldable pub encode_field : Field → Bytes → ℕ → ℕ → Code × Bytes
unfolding place rd_le wr_le place_result
encode_field (data_field n) buf at v =
    if ltb (length buf) (at + n) then (unsupported, buf) else (encoded, wr_le buf at n (low32 v))
encode_field (instruction_field f) buf at v =
    let len = opcode_length buf at in
    if ltb (length buf) (at + len)
    then (unsupported, buf)
    else place_result buf at len (place f (rd_le buf at len) v)

-- The result and the buffer, whose length is `total`.
unfoldable pub encode_pcrel_field : Bytes → ℕ → Howto → ℕ → Code × Bytes
unfolding encode_field field_of form_name
encode_pcrel_field buf at howto v = elim howto.name [
  | none ↦ (unsupported, buf)
  | some name ↦
      if leb (length buf) at
      then (unsupported, buf)
      else encode_field (field_of (form_name name) howto) buf at v
]
