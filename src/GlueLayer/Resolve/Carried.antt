-- ===== src/GlueLayer/Resolve/Carried.antt =====
-- `apply_text_fixups` on all bytes of the section.
use nyxstone_tricore_gcc.Base.{
  ℕ, suc, ◌+◌, ◌%◌, ◌^◌, ◌≤◌, ◌≡◌, refl, sym, ap, subst, ◌∙◌, Bool, true, false, Option, none, some,
  List, [], ◌∷◌, ◌++◌, arith, ◌==◌, if◌then◌else◌, length, All, Bytes,
}
use nyxstone_tricore_gcc.Gas.{Fix, Chain, Session, Gas}
use nyxstone_tricore_gcc.GlueLayer.Encode.{Howto, place, rd_le}
use nyxstone_tricore_gcc.GlueLayer.Encode.Slices.{slice, Apart}
use nyxstone_tricore_gcc.GlueLayer.Encode.Buffer.{Holds, field_in}
use nyxstone_tricore_gcc.GlueLayer.Sections.{extract_text_bytes}
use nyxstone_tricore_gcc.GlueLayer.Fixups.{fix_address, restore, Image, apply_chains, fix_value}
use nyxstone_tricore_gcc.GlueLayer.Fixups.Reference.{
  named, looked_up, reference_to, reference, IsClean,
}
use nyxstone_tricore_gcc.GlueLayer.Fixups.Spots.{spots}
use nyxstone_tricore_gcc.GlueLayer.Fixups.Clean.{encode_fixes-Grows}
use nyxstone_tricore_gcc.GlueLayer.Fixups.Carried.{IsFormed, Carried}
use nyxstone_tricore_gcc.GlueLayer.Fixups.Kept.{all_fixes, encode_chains-all_fixes}
use nyxstone_tricore_gcc.GlueLayer.Fixups.Value.{IsValue, fix_value-IsValue}
use nyxstone_tricore_gcc.GlueLayer.Resolve.{with_text, apply_text_fixups}
use nyxstone_tricore_gcc.GlueLayer.Resolve.Places.{
  HasPlaces, first_image, last_image, encoded-Passes, encoded-IsFormed, extracted,
}

module _ (g : Gas) (base : ℕ) (fcs : List (Chain g.Symbol)) (w : g.World) (buf out : Bytes)
    (fx : Fix g.Symbol) (s : g.Symbol) where
  -- The type of relocation of the fixup has a name, and `out` carries the number that leads to the
  -- symbol in the field for it; the opcode is as in `buf`.
  abbrev pub HoldsSymbol : Type 0
  HoldsSymbol =
      let at = fix_address fcs fx in
      (howto : Howto) × (name : Bytes) × (g.reloc_type_lookup fx.r_type ≡ some howto)
      × (howto.name ≡ some name)
      × (v n x : ℕ) × IsValue g base fcs w fx s howto v
      × (at + n ≤ length out)
      × (rd_le out at n ≡ x % 256 ^ n)
      × Holds (field_in howto name) buf at v n x

module _ (g : Gas)
    (counts : (w : g.World) (m : Bytes) → g.had_errors (g.as_bad m w) ≡ suc (g.had_errors w))
    (base : ℕ) where
  open g use {Symbol, World}

  module _ (fcs : List (Chain Symbol)) (w : World) (buf out : Bytes) (fx : Fix Symbol)
      (s : Symbol) where
    abbrev ReferenceIs : Type 0
    ReferenceIs =
        (howto : Howto) × (name : Bytes) × (g.reloc_type_lookup fx.r_type ≡ some howto)
        × (howto.name ≡ some name)
        × (reference g w fx
            ≡ some (record { symbol = s; howto = howto; field = field_in howto name }))

    IsFormed-ReferenceIs :
        fx.addsy ≡ some s → g.is_defined w s ≡ true → IsFormed g base fcs w fx → ReferenceIs
    IsFormed-ReferenceIs e b formed =
        let (howto, name, looked, called) = formed s e b in
        let at_symbol = ap (reference_to g w fx) e in
        let at_test =
          ap (λ (t : Bool). if t then looked_up g s (g.reloc_type_lookup fx.r_type) else none) b in
        (
          howto,
          name,
          looked,
          called,
          at_symbol ∙ at_test ∙ ap (looked_up g s) looked ∙ ap (named g s howto) called,
        )

    Carried-HoldsSymbol :
        ReferenceIs
        → Carried g base fcs w buf out fx (reference g w fx)
        → HoldsSymbol g base fcs w buf out fx s
    Carried-HoldsSymbol (howto, name, looked, called, e) carried =
        let (n, x, room, back, holds) = subst (Carried g base fcs w buf out fx) e carried in
        let value = fix_value g base fcs w fx s howto in
        (
          howto,
          name,
          looked,
          called,
          value,
          n,
          x,
          fix_value-IsValue g base fcs w fx s howto,
          room,
          back,
          holds,
        )

  All-at {ℓ} : {A : Type 0} (P : A → Type ℓ) (xs ys : List A) (x : A) → All P (xs ++ x ∷ ys) → P x
  All-at P [] ys x (h, _) = h
  All-at P (_ ∷ xs) ys x (_, hs) = All-at P xs ys x hs

  module _ (fcs : List (Chain Symbol)) (w : World) where
    -- Behind the first pass.
    abbrev fcs' : List (Chain Symbol)
    fcs' = (apply_chains g fcs fcs w).0

    abbrev w' : World
    w' = (apply_chains g fcs fcs w).2

    abbrev image : Bytes
    image = extract_text_bytes (some fcs')

    -- Behind both.
    abbrev applied : Option Bytes × ℕ × Session Symbol World
    applied = apply_text_fixups g base fcs w

    abbrev out : Bytes
    out = extract_text_bytes applied.2.text

    module _ (ready : HasPlaces g fcs' w') where
      applied-is : applied ≡ (
        (last_image g counts base fcs' w' ready).unsupported_form,
        (apply_chains g fcs fcs w).1,
        with_text g
            (restore (last_image g counts base fcs' w' ready).buf 0 fcs')
            (last_image g counts base fcs' w' ready).world,
      )
      unfolding apply_text_fixups
      applied-is =
          let some_bytes : (length image == 0) ≡ false = ground (arith, ready.some_bytes) in
          simp some_bytes refl

      -- The second pass lowers no count of errors.
      pub applied-More : g.had_errors w' ≤ g.had_errors applied.2.world
      applied-More =
          let flat =
            encode_chains-all_fixes g base fcs' fcs' (first_image g counts base fcs' w' ready) in
          let (form, more) =
            encode_fixes-Grows g base fcs' counts (all_fixes fcs')
              (first_image g counts base fcs' w' ready) in
          omega (
            arith,
            more,
            ap (λ (i : Image World). g.had_errors i.world) flat,
            ap (λ r. g.had_errors r.2.world) applied-is,
          )

      -- Both passes went through.
      module _ (form : applied.0 ≡ none)
          (errors : g.had_errors applied.2.world ≡ g.had_errors w') where
        clean :
            IsClean g
              (first_image g counts base fcs' w' ready)
              (last_image g counts base fcs' w' ready)
        clean = (
          ap (λ r. r.0) (sym applied-is) ∙ form,
          ap (λ r. g.had_errors r.2.world) (sym applied-is) ∙ errors,
        )

        out-encoded : out ≡ (last_image g counts base fcs' w' ready).buf
        out-encoded =
            ap (λ r. extract_text_bytes r.2.text) applied-is
            ∙ extracted g counts base fcs' w' ready clean

        -- If both passes go through and the fixups have places of their own, the bytes of the
        -- section afterwards carry, for every fixup with a defined symbol, the value for the
        -- symbol in the field of a relocation with a name.
        pub apply_text_fixups-HoldsSymbol :
            (xs ys : List (Fix Symbol)) (fx : Fix Symbol) (s : Symbol)
            → all_fixes fcs' ≡ xs ++ fx ∷ ys
            → fx.addsy ≡ some s
            → g.is_defined w' s ≡ true
            → HoldsSymbol g base fcs' w' image out fx s
        apply_text_fixups-HoldsSymbol xs ys fx s place e b =
            let p = encoded-Passes g counts base fcs' w' ready clean in
            let formed = All-at (IsFormed g base fcs' w') xs ys fx (
              subst (All (IsFormed g base fcs' w')) place
                (encoded-IsFormed g counts base fcs' w' ready clean)) in
            let carried =
              All-at
                (λ f.
                  Carried g base fcs' w' image (last_image g counts base fcs' w' ready).buf f
                    (reference g w' f))
                xs ys fx
                (subst
                  (All (λ f.
                    Carried g base fcs' w' image (last_image g counts base fcs' w' ready).buf f
                      (reference g w' f)))
                  place p.all_carried) in
            subst (λ (bs : Bytes). HoldsSymbol g base fcs' w' image bs fx s) (sym out-encoded)
              (Carried-HoldsSymbol fcs' w' image (last_image g counts base fcs' w' ready).buf fx s
                (IsFormed-ReferenceIs fcs' w' image (last_image g counts base fcs' w' ready).buf fx
                  s e b formed)
                carried)

        -- If every message raises gas's count of errors by one, the section behind the first pass
        -- is one image in which the fixups with defined symbols have places of their own
        -- (HasPlaces), and `apply_text_fixups` names no unsupported relocation and counts no error
        -- that the first pass had not counted, then the section is as long as it was behind the
        -- first pass, and every range of it that is apart from the fixups with defined symbols has
        -- the bytes that it had there.
        pub apply_text_fixups-elsewhere :
            (a n : ℕ)
            → All (Apart (a, n)) (spots g fcs' w' image (all_fixes fcs'))
            → (length out ≡ length image) × (slice a n out ≡ slice a n image)
        apply_text_fixups-elsewhere a n h =
            let p = encoded-Passes g counts base fcs' w' ready clean in
            (ap length out-encoded ∙ p.same_length, ap (slice a n) out-encoded ∙ p.elsewhere a n h)
