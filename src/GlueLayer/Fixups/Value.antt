-- ===== src/GlueLayer/Fixups/Value.antt =====
-- The value that is encoded for a fixup, against what the relocation asks for.
use nyxstone_tricore_gcc.Base.{ℕ, ◌+◌, ◌%◌, ◌^◌, ◌<◌, ◌≡◌, List, arith, if◌then◌else◌}
use nyxstone_tricore_gcc.Gas.{Fix, Chain, Gas}
use nyxstone_tricore_gcc.GlueLayer.Encode.{Howto}
use nyxstone_tricore_gcc.GlueLayer.Fixups.{fix_value}

module _ (g : Gas) (base : ℕ) (fcs : List (Chain g.Symbol)) (w : g.World) (fx : Fix g.Symbol)
    (s : g.Symbol) (howto : Howto) where
  -- The address of the symbol in a section at `base`.
  abbrev symbol_address : ℕ
  symbol_address = if g.in_text w s then base + g.symbol_value fcs w s else g.symbol_value fcs w s

  -- The address that the value is relative to.
  abbrev relative_to : ℕ
  relative_to = if howto.pc_relative then base + g.md_pcrel_from_section fcs fx else 0

  -- The 64-bit number that leads from there to the symbol and the offset of the fixup.
  abbrev pub IsValue : ℕ → Type 0
  IsValue v = (v < 2 ^ 64) × ((v + relative_to) % 2 ^ 64 ≡ (symbol_address + fx.offset) % 2 ^ 64)

  pub fix_value-IsValue : IsValue (fix_value g base fcs w fx s howto)
  unfolding fix_value
  fix_value-IsValue = ground arith
