-- ===== src/Gas.antt =====
-- The structures of gas that src/nyxstone_glue.c reads and writes, with the fields that it uses, and
-- the functions of gas and of BFD that it calls, as an interface: they are not part of the
-- repository. `World` is all the state of gas beside the text section.
use nyxstone_tricore_gcc.Base.{ℕ, Bool, Option, List, Bytes, ℤ}
use nyxstone_tricore_gcc.GlueLayer.Encode.{Howto}

pub data FragType : Type 0 where
  unset_frag : FragType
  rs_fill : FragType
  rs_align : FragType
  rs_align_code : FragType
  rs_org : FragType
  rs_machine_dependent : FragType
  other_frag : FragType

-- `fragS`. `open_fix` is the result of `frag_now_fix()` for the frag that is both the last of its
-- chain and `frag_now`, and `none` for all others. The literal has room for the fixed part and the
-- pattern behind it.
pub record Frag (Symbol : Type 0) : Type 0 where
  pub kind : FragType
  pub fix : ℕ
  pub var : ℕ
  pub offset : ℤ
  pub subtype : ℕ
  pub symbol : Option Symbol
  pub literal : Bytes
  pub address : ℕ
  pub open_fix : Option ℕ

-- `fixS`; `frag` is the place of its frag in the section. Offsets are `valueT`, below 2 ^ 64.
pub record Fix (Symbol : Type 0) : Type 0 where
  pub addsy : Option Symbol
  pub offset : ℕ
  pub frag : ℕ
  pub place : ℕ
  pub pcrel : Bool
  pub r_type : ℕ
  pub done : Bool
  pub addnumber : ℤ

-- `frchainS`
pub record Chain (Symbol : Type 0) : Type 0 where
  pub frags : List (Frag Symbol)
  pub fixes : List (Fix Symbol)

-- The text section, `none` if `seg_info` gives NULL, and the rest.
pub record Session (Symbol World : Type 0) : Type 0 where
  pub text : Option (List (Chain Symbol))
  pub world : World

pub record Gas : Type 1 where
  pub Symbol : Type 0
  pub World : Type 0
  pub symbol_find : Bytes → World → Option Symbol
  pub is_defined : World → Symbol → Bool
  pub in_text : World → Symbol → Bool
  pub symbol_name : Symbol → Bytes
  -- S_GET_VALUE, which reads the addresses of the frags
  pub symbol_value : List (Chain Symbol) → World → Symbol → ℕ
  pub resolve_symbol_value : Symbol → World → World
  -- S_SET_SEGMENT to the absolute section and S_SET_VALUE
  pub set_absolute : Symbol → ℕ → World → World
  -- symbol_new in the absolute section and symbol_table_insert
  pub new_absolute : Bytes → ℕ → World → World
  -- symbol_end, symbol_begin, and the reset of the sections for data
  pub reset_symbols : World → World
  pub reset_data : World → World
  pub as_bad : Bytes → World → World
  pub had_errors : World → ℕ
  -- what gas has written to `stderr` since the last call, write by write
  pub printed : World → List Bytes × World
  pub colon : Bytes → Session Symbol World → Session Symbol World
  pub fb_label_instance_inc : ℕ → World → World
  pub fb_label_name : ℕ → ℕ → World → Bytes
  pub md_assemble : Bytes → Session Symbol World → Session Symbol World
  -- `equals` and `cons` on the text at `input_line_pointer`
  pub equals : Bytes → Bytes → Session Symbol World → Session Symbol World
  pub cons : ℕ → Bytes → Session Symbol World → Session Symbol World
  -- `frag_more` and the copy to the place that it returns
  pub frag_more : Bytes → Session Symbol World → Session Symbol World
  pub frag_align : ℕ → ℤ → ℕ → Session Symbol World → Session Symbol World
  -- `frag_var (rs_org, 1, 1, 0, NULL, target, NULL)` and the fill byte
  pub frag_org : ℕ → ℕ → Session Symbol World → Session Symbol World
  -- the links of `md_relax_table`
  pub rlx_more : ℕ → ℕ
  -- whether a size changed
  pub relax_segment : ℕ → Session Symbol World → Bool × Session Symbol World
  -- on the frag at that place
  pub md_convert_frag : ℕ → Session Symbol World → Session Symbol World
  pub md_pcrel_from_section : List (Chain Symbol) → Fix Symbol → ℕ
  -- called with fixups whose symbol is attached only; gas changes no bytes of the section then
  pub md_apply_fix : Fix Symbol → ℕ → World → Fix Symbol × World
  pub reloc_type_lookup : ℕ → Option Howto
