-- ===== src/GlueLayer/Encode/Buffer.antt =====
-- `encode_pcrel_field` on the image of the section.
use nyxstone_tricore_gcc.GlueLayer.Encode.Operand.{field, Carries}
use nyxstone_tricore_gcc.GlueLayer.Encode.Bytewise.{
  AreBytes, rd_le-small, rd_le-wr_le, wr_le-replaces,
}
use nyxstone_tricore_gcc.GlueLayer.Encode.Carries.{place-Carries}
use nyxstone_tricore_gcc.Base.{
  ℕ, ◌+◌, ◌%◌, ◌^◌, ◌≤◌, ◌<◌, ◌≡◌, refl, Bool, true, false, some, ◌++◌, arith, ltb, leb,
  if◌then◌else◌, either, length, take, drop, Bytes,
}
use nyxstone_tricore_gcc.Data.{le_bytes}
use nyxstone_tricore_gcc.GlueLayer.Encode.{
  Howto, low32, rd_le, wr_le, Form, form_of, Placed, placed, illegal, not_encoded, place, Field,
  data_field, instruction_field, field_of, form_name, Code, encoded, unsupported, out_of_range,
  place_result, opcode_length, encode_field, encode_pcrel_field,
}
use native.Mathlib.Nat.{pow-le-pow_right}

-- What a field with `n` bytes at `at` is to hold for the value.
abbrev pub Holds : Field → Bytes → ℕ → ℕ → ℕ → ℕ → Type 0
Holds (data_field m) buf at v n w = (n ≡ m) × (w ≡ v % 2 ^ 32)
Holds (instruction_field f) buf at v n w =
    (n ≡ opcode_length buf at) × Carries f (rd_le buf at n) v w

-- The word `w` of `n` bytes stands at `at`, all other bytes are as before.
abbrev pub Written : Bytes → ℕ → ℕ → ℕ → Bytes → Type 0
Written buf at n w buf' =
    (at + n ≤ length buf)
    × (buf' ≡ take at buf ++ (le_bytes n w ++ drop (at + n) buf))
    × (rd_le buf' at n ≡ w % 256 ^ n)

abbrev pub Encodes : Field → Bytes → ℕ → ℕ → Code × Bytes → Type 0
Encodes field buf at v (encoded, buf') =
    (n w : ℕ) × Written buf at n w buf' × Holds field buf at v n w
Encodes field buf at v (unsupported, buf') = buf' ≡ buf
Encodes field buf at v (out_of_range, buf') = buf' ≡ buf

wr_le-Written :
    (buf : Bytes) (at n w : ℕ)
    → n ≤ 4
    → at + n ≤ length buf
    → AreBytes buf
    → Written buf at n w (wr_le buf at n w)
wr_le-Written buf at n w h room bytes =
    (room, wr_le-replaces buf at n w room, rd_le-wr_le buf at n w h room bytes)

abbrev pub FieldFits : Field → Type 0
FieldFits (data_field n) = n ≤ 4
FieldFits (instruction_field f) = Unit

choice-FieldFits :
    (a b c : Bool) (f : Form)
    → FieldFits (
        if a
        then data_field 4
        else if b
        then data_field 2
        else if c
        then data_field 1
        else instruction_field f)
choice-FieldFits true b c f = omega arith
choice-FieldFits false true c f = omega arith
choice-FieldFits false false true f = omega arith
choice-FieldFits false false false f = tt

pub field_of-FieldFits : (r : Bytes) (howto : Howto) → FieldFits (field_of r howto)
unfolding field_of
field_of-FieldFits r howto = choice-FieldFits _ _ _ (form_of r)

abbrev pub field_in : Howto → Bytes → Field
field_in howto name = field_of (form_name name) howto

module _ (buf : Bytes) (at v : ℕ) (bytes : AreBytes buf) where
  place_result-Encodes :
      (f : Form) (n : ℕ) (p : Placed)
      → n ≡ opcode_length buf at
      → n ≤ 4
      → at + n ≤ length buf
      → v < 2 ^ 64
      → place f (rd_le buf at n) v ≡ p
      → Encodes (instruction_field f) buf at v (place_result buf at n p)
  unfolding place_result
  place_result-Encodes f n (placed w) size small room range e =
      let op = rd_le buf at n in
      let most : 256 ^ n ≤ 256 ^ 4 = pow-le-pow_right (omega arith) small in
      let word : op < 2 ^ 32 = omega (arith, rd_le-small buf at n small bytes, most) in
      (n, w, wr_le-Written buf at n w small room bytes, (size, place-Carries op v w word range f e))
  place_result-Encodes f n illegal size small room range e = refl
  place_result-Encodes f n not_encoded size small room range e = refl

  pub opcode_length-small : opcode_length buf at ≤ 4
  opcode_length-small = ground arith

  encode_field-Encodes :
      (field : Field)
      → FieldFits field
      → v < 2 ^ 64
      → Encodes field buf at v (encode_field field buf at v)
  unfolding encode_field
  encode_field-Encodes (data_field n) small range =
      either (Encodes (data_field n) buf at v) (ltb (length buf) (at + n)) (λ b. refl)
        (λ b. (
          n,
          low32 v,
          wr_le-Written buf at n (low32 v) small (ground (arith, b)) bytes,
          (refl, refl),
        ))
  encode_field-Encodes (instruction_field f) small range =
      let len = opcode_length buf at in
      either (Encodes (instruction_field f) buf at v) (ltb (length buf) (at + len)) (λ b. refl)
        (λ b. place_result-Encodes f len _ refl opcode_length-small (ground (arith, b)) range refl)

  -- For an image of bytes, a relocation that has a name, and a value below 2 ^ 64: on success a
  -- word, cut to a number of bytes, stands at the place, within the image, and nothing else has
  -- changed. For a data field these are the bytes of the field, and the word is the value cut to 32
  -- bits. For an instruction form these are the 2 or 4 bytes of the instruction that was there, and
  -- the word, before it is cut, has as its operand the part of the value that the form has room for
  -- (`meant`: 32 bits of an absolute address, half a word of the hi and lo forms, else all of it)
  -- and the opcode that was there. On any failure the image is unchanged.
  pub encode_pcrel_field-Encodes :
      (howto : Howto) (name : Bytes)
      → howto.name ≡ some name
      → v < 2 ^ 64
      → Encodes (field_in howto name) buf at v (encode_pcrel_field buf at howto v)
  unfolding encode_pcrel_field
  encode_pcrel_field-Encodes howto name e range =
      let field = field_in howto name in
      rw e (
        either (Encodes field buf at v) (leb (length buf) at) (λ b. refl)
          (λ b. encode_field-Encodes field (field_of-FieldFits (form_name name) howto) range))
