-- ===== src/GlueLayer/Fixups.antt =====
-- src/nyxstone_glue.c, `apply_text_fixups`, `nyxstone_glue_resolve_text_fixups` and
-- `nyxstone_glue_collect_relocs`. The image of the section is a buffer of its own: allocation
-- succeeds.
pub mod Restore
pub mod Reference
pub mod Spots
pub mod Carried
pub mod Clean
pub mod Kept
pub mod Value
use nyxstone_tricore_gcc.Base.{
  ℕ, zero, suc, ◌+◌, ◌-◌, ◌%◌, ◌^◌, Bool, false, not, Option, none, some, List, [], ◌∷◌, ◌++◌, leb,
  if◌then◌else◌, length, take, drop, Bytes, codes,
}
use nyxstone_tricore_gcc.Gas.{Frag, Fix, Chain, Gas}
use nyxstone_tricore_gcc.Disassemble.{u64_add}
use nyxstone_tricore_gcc.GlueLayer.Encode.{
  Howto, put_bytes, Code, encoded, unsupported, out_of_range, encode_pcrel_field,
}
use nyxstone_tricore_gcc.GlueLayer.Sections.{all_frags, frag_fix_size, frag_fill_size}

abbrev pub u64_sub : ℕ → ℕ → ℕ
u64_sub a b = (a + (2 ^ 64 - b % 2 ^ 64)) % 2 ^ 64

module _ {Symbol : Type 0} where
  unfoldable pub nth_frag_address : ℕ → List (Frag Symbol) → ℕ
  nth_frag_address i [] = 0
  nth_frag_address zero (fr ∷ frs) = fr.address
  nth_frag_address (suc i) (fr ∷ frs) = nth_frag_address i frs

  -- `fx->fx_frag->fr_address + (offsetT) fx->fx_where`
  unfoldable pub fix_address : List (Chain Symbol) → Fix Symbol → ℕ
  unfolding nth_frag_address
  fix_address fcs fx = u64_add (nth_frag_address fx.frag (all_frags fcs)) fx.place

  -- `fx->fx_addsy && !fx->fx_done`
  abbrev pub is_left : Fix Symbol → Bool
  is_left fx = elim fx.addsy [ none ↦ false | some s ↦ not fx.done ]

  -- The image back into the literals, without the fill bytes.
  unfoldable pub restored : Bytes → ℕ → Frag Symbol → Bytes
  unfolding frag_fix_size put_bytes
  restored buf addr fr =
      let n = frag_fix_size fr in
      if leb (u64_add addr n) (length buf)
      then put_bytes 0 (take n (drop addr buf)) fr.literal
      else fr.literal

  unfoldable pub restore_frags : Bytes → ℕ → List (Frag Symbol) → List (Frag Symbol) × ℕ
  unfolding frag_fix_size frag_fill_size restored
  restore_frags buf addr [] = ([], addr)
  restore_frags buf addr (fr ∷ frs) =
      let next = u64_add addr (frag_fix_size fr + frag_fill_size fr) in
      let (rest, end) = restore_frags buf next frs in
      (record fr { literal = restored buf addr fr } ∷ rest, end)

  unfoldable pub restore : Bytes → ℕ → List (Chain Symbol) → List (Chain Symbol)
  unfolding restore_frags
  restore buf addr [] = []
  restore buf addr (fc ∷ fcs) =
      let (frs, end) = restore_frags buf addr fc.frags in
      record fc { frags = frs } ∷ restore buf end fcs

-- The image, `g_unsupported_reloc`, and the state of gas.
pub record Image (World : Type 0) : Type 0 where
  pub buf : Bytes
  pub unsupported_form : Option Bytes
  pub world : World

abbrev pub name_or : Bytes → Howto → Bytes
name_or other howto = elim howto.name [ none ↦ other | some name ↦ name ]

module _ (g : Gas) where
  open g use {
    Symbol, World, is_defined, in_text, symbol_name, symbol_value, resolve_symbol_value,
    md_pcrel_from_section, md_apply_fix, reloc_type_lookup, md_convert_frag,
  }

  -- `val`
  unfoldable pub fix_operand : List (Chain Symbol) → Fix Symbol → Symbol → World → ℕ
  fix_operand fcs fx s w =
      u64_sub (u64_add (symbol_value fcs w s) fx.offset)
        (if fx.pcrel then md_pcrel_from_section fcs fx else 0)

  -- The first pass on one fixup with that symbol, and whether it is counted.
  unfoldable pub apply_to :
      List (Chain Symbol) → Fix Symbol → Option Symbol → World → Fix Symbol × Bool × World
  unfolding fix_operand
  apply_to fcs fx none w = (fx, false, w)
  apply_to fcs fx (some s) w =
      let w' = resolve_symbol_value s w in
      let (fx', w'') = md_apply_fix fx (fix_operand fcs fx s w') w' in
      if is_defined w' s then (fx, false, w') else (fx', is_left fx', w'')

  unfoldable pub apply_fix : List (Chain Symbol) → Fix Symbol → World → Fix Symbol × Bool × World
  unfolding apply_to
  apply_fix fcs fx w = apply_to fcs fx fx.addsy w

  -- The fixups, and the count.
  unfoldable pub apply_fixes :
      List (Chain Symbol) → List (Fix Symbol) → World → List (Fix Symbol) × ℕ × World
  unfolding apply_fix
  apply_fixes fcs [] w = ([], 0, w)
  apply_fixes fcs (fx ∷ fxs) w =
      let (fx', left, w') = apply_fix fcs fx w in
      let (rest, count, end) = apply_fixes fcs fxs w' in
      (fx' ∷ rest, (if left then suc count else count), end)

  unfoldable pub apply_chains :
      List (Chain Symbol) → List (Chain Symbol) → World → List (Chain Symbol) × ℕ × World
  unfolding apply_fixes
  apply_chains fcs [] w = ([], 0, w)
  apply_chains fcs (fc ∷ rest) w =
      let (fxs, count, w') = apply_fixes fcs fc.fixes w in
      let (rest', more, end) = apply_chains fcs rest w' in
      (record fc { fixes = fxs } ∷ rest', count + more, end)

  -- Where the section starts at `base`.
  module _ (base : ℕ) (fcs : List (Chain Symbol)) where
    unfoldable pub fix_value : World → Fix Symbol → Symbol → Howto → ℕ
    fix_value w fx s howto =
        let own = symbol_value fcs w s in
        let sym_abs = if in_text w s then u64_add base own else own in
        let target = u64_add sym_abs fx.offset in
        if howto.pc_relative
        then u64_sub target (u64_add base (md_pcrel_from_section fcs fx))
        else target

    abbrev pub range_message : Symbol → Howto → Bytes
    range_message s howto =
        codes "displacement to '"
        ++ symbol_name s
        ++ codes "' out of range for "
        ++ name_or (codes "branch") howto

    unfoldable pub encode_result : Symbol → Howto → Code × Bytes → Image World → Image World
    encode_result s howto (encoded, buf) i = record i { buf = buf }
    encode_result s howto (unsupported, buf) i = record i {
      buf = buf;
      unsupported_form = some (name_or (codes "<unknown>") howto);
    }
    encode_result s howto (out_of_range, buf) i = record i {
      buf = buf;
      world = g.as_bad (range_message s howto) i.world;
    }

    unfoldable pub encode_howto : Fix Symbol → Symbol → Option Howto → Image World → Image World
    unfolding fix_value fix_address encode_pcrel_field encode_result
    encode_howto fx s none i = record i { unsupported_form = some (codes "<no howto>") }
    encode_howto fx s (some howto) i =
        encode_result s howto
          (encode_pcrel_field i.buf (fix_address fcs fx) howto (fix_value i.world fx s howto)) i

    -- The second pass on one fixup with that symbol.
    unfoldable pub encode_to : Fix Symbol → Option Symbol → Image World → Image World
    unfolding encode_howto
    encode_to fx none i = i
    encode_to fx (some s) i =
        if is_defined i.world s then encode_howto fx s (reloc_type_lookup fx.r_type) i else i

    unfoldable pub encode_fix : Fix Symbol → Image World → Image World
    unfolding encode_to
    encode_fix fx i = encode_to fx fx.addsy i

    unfoldable pub encode_fixes : List (Fix Symbol) → Image World → Image World
    unfolding encode_fix
    encode_fixes [] i = i
    encode_fixes (fx ∷ fxs) i = encode_fixes fxs (encode_fix fx i)

    unfoldable pub encode_chains : List (Chain Symbol) → Image World → Image World
    unfolding encode_fixes
    encode_chains [] i = i
    encode_chains (fc ∷ rest) i = encode_chains rest (encode_fixes fc.fixes i)
