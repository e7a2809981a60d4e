-- ===== src/GlueLayer/Fixups/Reference.antt =====
-- One fixup in the second pass over the fixups, if the pass goes through.
use nyxstone_tricore_gcc.Base.{
  ℕ, suc, ◌+◌, ◌^◌, ◌≤◌, ◌<◌, ◌≡◌, refl, sym, ap, ◌∙◌, Bool, true, false, Option, none, some, List,
  arith, if◌then◌else◌, length, Bytes,
}
use nyxstone_tricore_gcc.Gas.{Fix, Chain, Gas}
use nyxstone_tricore_gcc.GlueLayer.Encode.{
  Howto, Field, data_field, instruction_field, form_name, Code, encoded, unsupported, out_of_range,
  opcode_length, encode_pcrel_field, wr_le,
}
use nyxstone_tricore_gcc.GlueLayer.Encode.Bytewise.{AreBytes, wr_le-replaces}
use nyxstone_tricore_gcc.GlueLayer.Encode.Buffer.{
  Holds, Encodes, FieldFits, field_of-FieldFits, field_in, encode_pcrel_field-Encodes,
}
use nyxstone_tricore_gcc.GlueLayer.Fixups.{
  fix_address, Image, fix_value, range_message, encode_result, encode_howto, encode_to, encode_fix,
}

-- What a fixup with a defined symbol refers to, and the field that it is written to.
pub record Reference (Symbol : Type 0) : Type 0 where
  pub symbol : Symbol
  pub howto : Howto
  pub field : Field

-- The count of the bytes that are written.
unfoldable pub width : Field → Bytes → ℕ → ℕ
width (data_field n) buf at = n
width (instruction_field f) buf at = opcode_length buf at

pub Holds-width :
    (field : Field) (buf : Bytes) (at v n w : ℕ) → Holds field buf at v n w → n ≡ width field buf at
unfolding width
Holds-width (data_field m) buf at v n w h = h.0
Holds-width (instruction_field f) buf at v n w h = h.0

Holds-small :
    (field : Field) (buf : Bytes) (at v n w : ℕ)
    → FieldFits field
    → Holds field buf at v n w
    → n ≤ 4
Holds-small (data_field m) buf at v n w fits h = omega (arith, h.0)
Holds-small (instruction_field f) buf at v n w fits h = ground (arith, h.0)

-- The type of relocation is known and has a name.
abbrev pub HasForm : Option Howto → Type 0
HasForm o = (howto : Howto) × (name : Bytes) × (o ≡ some howto) × (howto.name ≡ some name)

nameless :
    (buf : Bytes) (at : ℕ) (howto : Howto) (v : ℕ)
    → howto.name ≡ none
    → encode_pcrel_field buf at howto v ≡ (unsupported, buf)
unfolding encode_pcrel_field
nameless buf at howto v e = rw e refl

-- As `either`, for two values that depend on one test.
either_both :
    {A B : Type 0} (P : A → B → Type 0) (b : Bool) {x y : A} {x' y' : B}
    → (b ≡ true → P x x')
    → (b ≡ false → P y y')
    → P (if b then x else y) (if b then x' else y')
either_both P true p q = p refl
either_both P false p q = q refl

module _ (g : Gas) where
  open g use {Symbol, World}

  abbrev pub named : Symbol → Howto → Option Bytes → Option (Reference Symbol)
  named s howto none = none
  named s howto (some name) =
      some (record { symbol = s; howto = howto; field = field_in howto name })

  abbrev pub looked_up : Symbol → Option Howto → Option (Reference Symbol)
  looked_up s none = none
  looked_up s (some howto) = named s howto howto.name

  abbrev pub reference_to : World → Fix Symbol → Option Symbol → Option (Reference Symbol)
  reference_to w fx none = none
  reference_to w fx (some s) =
      if g.is_defined w s then looked_up s (g.reloc_type_lookup fx.r_type) else none

  abbrev pub reference : World → Fix Symbol → Option (Reference Symbol)
  reference w fx = reference_to w fx fx.addsy

  -- No relocation was given up, and no error reported.
  abbrev pub IsClean : Image World → Image World → Type 0
  IsClean i j = (j.unsupported_form ≡ none) × (g.had_errors j.world ≡ g.had_errors i.world)

  module _ (base : ℕ) (fcs : List (Chain Symbol)) where
    abbrev pub value_of_reference : World → Fix Symbol → Reference Symbol → ℕ
    value_of_reference w fx r = fix_value g base fcs w fx r.symbol r.howto

    fix_value-small :
        (w : World) (fx : Fix Symbol) (s : Symbol) (howto : Howto)
        → fix_value g base fcs w fx s howto < 2 ^ 64
    unfolding fix_value
    fix_value-small w fx s howto = ground arith

    -- What the pass does for a fixup when it neither gives up on a form nor reports an error.
    abbrev pub Steps : Fix Symbol → Option (Reference Symbol) → Image World → Image World → Type 0
    Steps fx none i j = j ≡ i
    Steps fx (some r) i j =
        let at = fix_address fcs fx in
        (n w : ℕ) × (j ≡ record i { buf = wr_le i.buf at n w })
        × (n ≤ 4)
        × (at + n ≤ length i.buf)
        × Holds r.field i.buf at (value_of_reference i.world fx r) n w

    abbrev pub StepsIfClean :
        Fix Symbol → Option (Reference Symbol) → Image World → Image World → Type 0
    StepsIfClean fx ref i j = IsClean i j → Steps fx ref i j

    module _ (counts : (w : World) (m : Bytes) → g.had_errors (g.as_bad m w) ≡ suc (g.had_errors w))
        (i : Image World) (bytes : AreBytes i.buf) where
      encode_result-Steps :
          (fx : Fix Symbol) (s : Symbol) (howto : Howto) (name : Bytes) (r : Code × Bytes)
          → Encodes
              (field_in howto name)
              i.buf
              (fix_address fcs fx)
              (fix_value g base fcs i.world fx s howto)
              r
          → StepsIfClean fx (named s howto (some name)) i (encode_result g base fcs s howto r i)
      unfolding encode_result
      encode_result-Steps fx s howto name (encoded, buf) (n, w, (room, e, back), holds) c = (
        n,
        w,
        ap (λ (b : Bytes). record i { buf = b })
            (e ∙ sym (wr_le-replaces i.buf (fix_address fcs fx) n w room)),
        Holds-small (field_in howto name) i.buf (fix_address fcs fx) _ n w
            (field_of-FieldFits (form_name name) howto) holds,
        room,
        holds,
      )
      encode_result-Steps fx s howto name (unsupported, buf) e (form, errors) = cc
      encode_result-Steps fx s howto name (out_of_range, buf) e (form, errors) =
          absurd (omega (arith, counts i.world (range_message g base fcs s howto), errors))

      encode_named-Steps :
          (fx : Fix Symbol) (s : Symbol) (howto : Howto) (o : Option Bytes)
          → howto.name ≡ o
          → StepsIfClean fx (named s howto o) i (encode_howto g base fcs fx s (some howto) i)
      unfolding encode_howto
      encode_named-Steps fx s howto none e (form, errors) =
          let value = fix_value g base fcs i.world fx s howto in
          let given_up = nameless i.buf (fix_address fcs fx) howto value e in
          let some_form =
            ap (λ (r : Code × Bytes). (encode_result g base fcs s howto r i).unsupported_form)
              given_up in
          unfold encode_result in cc
      encode_named-Steps fx s howto (some name) e clean =
          encode_result-Steps fx s howto name _
            (encode_pcrel_field-Encodes i.buf (fix_address fcs fx)
              (fix_value g base fcs i.world fx s howto) bytes howto name e
              (fix_value-small i.world fx s howto))
            clean

      encode_looked_up-Steps :
          (fx : Fix Symbol) (s : Symbol) (o : Option Howto)
          → StepsIfClean fx (looked_up s o) i (encode_howto g base fcs fx s o i)
      encode_looked_up-Steps fx s none (form, errors) = unfold encode_howto in cc
      encode_looked_up-Steps fx s (some howto) clean =
          encode_named-Steps fx s howto howto.name refl clean

      -- In a pass that goes through, a fixup that refers to something is written to its field, and
      -- nothing else changes; every other fixup changes nothing.
      encode_to-Steps :
          (fx : Fix Symbol) (o : Option Symbol)
          → StepsIfClean fx (reference_to i.world fx o) i (encode_to g base fcs fx o i)
      unfolding encode_to
      encode_to-Steps fx none clean = refl
      encode_to-Steps fx (some s) clean =
          either_both
            (λ (ref : Option (Reference Symbol)) (j : Image World). StepsIfClean fx ref i j)
            (g.is_defined i.world s)
            (λ b. encode_looked_up-Steps fx s (g.reloc_type_lookup fx.r_type)) (λ b c. refl) clean

      pub encode_fix-Steps :
          (fx : Fix Symbol) → StepsIfClean fx (reference i.world fx) i (encode_fix g base fcs fx i)
      unfolding encode_fix
      encode_fix-Steps fx = encode_to-Steps fx fx.addsy

    module _ (i : Image World) (fx : Fix Symbol) (s : Symbol) where
      named-HasForm :
          (howto : Howto) (o : Option Bytes)
          → howto.name ≡ o
          → (encode_howto g base fcs fx s (some howto) i).unsupported_form ≡ none
          → HasForm (some howto)
      unfolding encode_howto
      named-HasForm howto none e form =
          let given_up =
            nameless i.buf (fix_address fcs fx) howto (fix_value g base fcs i.world fx s howto) e in
          let some_form =
            ap (λ (r : Code × Bytes). (encode_result g base fcs s howto r i).unsupported_form)
              given_up in
          unfold encode_result in cc
      named-HasForm howto (some name) e form = (howto, name, refl, e)

      looked_up-HasForm :
          (o : Option Howto)
          → (encode_howto g base fcs fx s o i).unsupported_form ≡ none
          → HasForm o
      looked_up-HasForm none form = unfold encode_howto in cc
      looked_up-HasForm (some howto) form = named-HasForm howto howto.name refl form

      -- If no relocation was given up, the one for a defined symbol has a form.
      pub encode_fix-HasForm :
          fx.addsy ≡ some s
          → g.is_defined i.world s ≡ true
          → (encode_fix g base fcs fx i).unsupported_form ≡ none
          → HasForm (g.reloc_type_lookup fx.r_type)
      unfolding encode_fix encode_to
      encode_fix-HasForm e b form =
          let o = g.reloc_type_lookup fx.r_type in
          let at_symbol =
            ap (λ (t : Option Symbol). (encode_to g base fcs fx t i).unsupported_form) e in
          let at_test =
            ap (λ (t : Bool). (if t then encode_howto g base fcs fx s o i else i).unsupported_form)
              b in
          looked_up-HasForm o (sym at_test ∙ sym at_symbol ∙ form)
