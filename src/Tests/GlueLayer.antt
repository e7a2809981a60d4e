-- ===== src/Tests/GlueLayer.antt =====
-- Runs of the glue layer over a small stand-in for gas, and its theorems at concrete inputs.
use nyxstone_tricore_gcc.Base.{
  ℕ, suc, ◌*◌, ◌≡◌, refl, Bool, true, false, Option, none, some, List, [], ◌∷◌, map, arith, ltb,
  ◌==◌, if◌then◌else◌, length, codes, c_str, pos,
}
use nyxstone_tricore_gcc.Gas.{Fix, Chain, Session, Gas}
use nyxstone_tricore_gcc.Expected.{value}
use nyxstone_tricore_gcc.Literal.{parse_int}
use nyxstone_tricore_gcc.Assemble.{RelocationInfo, AssembleCore, do_assemble}
use nyxstone_tricore_gcc.GlueLayer.Encode.{Howto}
use nyxstone_tricore_gcc.GlueLayer.Relax.{chain_head, chain_terminal}
use nyxstone_tricore_gcc.GlueLayer.Relax.Chains.{
  IsTable, IsLongest, IsShortest, chain_head-chain_terminal,
}
use nyxstone_tricore_gcc.GlueLayer.Capture.{Capture, begin_capture, write_all, end_capture}
use nyxstone_tricore_gcc.GlueLayer.Capture.Log.{HasRoom, joined, end_capture-write_all}
use nyxstone_tricore_gcc.GlueLayer.Resolve.{apply_text_fixups, collect_relocs}
use nyxstone_tricore_gcc.GlueLayer.Resolve.Left.{KeepsSymbols}
use nyxstone_tricore_gcc.GlueLayer.Forward.{fresh_frag, reset, layer_text, glue_layer}
use nyxstone_tricore_gcc.GlueLayer.Complete.{ended_layer, do_assemble-NothingLost}
use nyxstone_tricore_gcc.GlueLayer.Undefined.{still_undefined}
use nyxstone_tricore_gcc.GlueLayer.Forward.Reset.{reset-empty}
use nyxstone_tricore_gcc.Tests.Sections.{three}

abbrev pub branch_howto : Howto
branch_howto = record {
  name = some (codes "R_TRICORE_24REL");
  dst_mask = 0xffffff00;
  bitpos = 0;
  pc_relative = true;
  elf_type = 3;
}

-- Symbols are numbers, the first ten are defined; the state is the count of errors.
abbrev Toy : Type 0
Toy = Session ℕ ℕ

-- Four bytes and a branch to an undefined symbol.
abbrev add_branch : Chain ℕ → Chain ℕ
add_branch fc = record {
  frags = record (fresh_frag none) { fix = 4; literal = 0x6d ∷ 0 ∷ 0 ∷ 0 ∷ [] } ∷ fc.frags;
  fixes =
      record {
        addsy = some 20;
        offset = 0;
        frag = 0;
        place = 0;
        pcrel = true;
        r_type = 0;
        done = false;
        addnumber = pos 0;
      }
      ∷ fc.fixes;
}

abbrev add_first : Option (List (Chain ℕ)) → Option (List (Chain ℕ))
add_first none = none
add_first (some []) = some []
add_first (some (fc ∷ fcs)) = some (add_branch fc ∷ fcs)

abbrev pub small_gas : Gas
small_gas = record {
  Symbol = ℕ;
  World = ℕ;
  symbol_find = λ name w. some (length name);
  is_defined = λ w s. ltb s 10;
  in_text = λ w s. ltb s 10;
  symbol_name = λ s. codes "far";
  symbol_value = λ fcs w s. 4 * s;
  resolve_symbol_value = λ s w. w;
  set_absolute = λ s v w. w;
  new_absolute = λ name v w. w;
  reset_symbols = λ w. w;
  reset_data = λ w. w;
  as_bad = λ text w. suc w;
  had_errors = λ w. w;
  printed = λ w. ([], w);
  colon = λ name s. s;
  fb_label_instance_inc = λ n w. w;
  fb_label_name = λ n k w. [];
  md_assemble = λ line s. record s { text = add_first s.text };
  equals = λ name text s. s;
  cons = λ n text s. s;
  frag_more = λ bs s. s;
  frag_align = λ p fill max s. s;
  frag_org = λ target fill s. s;
  rlx_more = λ i. if i == 1 then 2 else 0;
  relax_segment = λ pass s. (false, s);
  md_convert_frag = λ i s. s;
  md_pcrel_from_section = λ fcs fx. fx.place;
  md_apply_fix = λ fx v w. (record fx { addnumber = pos fx.offset }, w);
  reloc_type_lookup = λ r. some branch_howto;
}

abbrev small_gas-KeepsSymbols : KeepsSymbols small_gas
small_gas-KeepsSymbols = record {
  Resolved = λ w s. Unit;
  resolves = λ w s. tt;
  resolve_keeps = λ w t s h. (tt, refl);
  apply_keeps = λ w fx v s h. (tt, refl);
  error_keeps = λ w text s h. (tt, refl);
  print_keeps = λ w s. refl;
  apply_symbol = λ w fx v. refl;
}

abbrev one_chain : List (Chain ℕ)
one_chain = record { frags = fresh_frag (some 0) ∷ []; fixes = [] } ∷ []

unfoldable pub fresh_layer : (glue_layer small_gas).State
unfolding glue_layer
fresh_layer = record {
  session = record { text = some one_chain; world = 0 };
  unsupported_form = none;
  capture = record { log = record { text = []; cap = 0 }; active = false };
}

abbrev one_relocation : AssembleCore
one_relocation = record {
  bytes = 0x6d ∷ 0 ∷ 0 ∷ 0 ∷ [];
  relocations =
      record {
        offset = 8;
        addend = some (pos 0);
        symbol = record { name = codes "far"; address = 0 };
        relocation_type = 3;
      }
      ∷ [];
}

far_assembled :
    (do_assemble (glue_layer small_gas) (codes "j far") 8 [] true fresh_layer).0
    ≡ value one_relocation
unfolding do_assemble glue_layer parse_int fresh_layer
far_assembled = refl

do_assemble-NothingLost_example :
    let left =
      still_undefined small_gas
        (ended_layer small_gas (codes "j far") 8 [] true fresh_layer).session in
    (map (λ (r : RelocationInfo). r.symbol.name) one_relocation.relocations
      ≡ map small_gas.symbol_name left)
    × (◌≡◌ {A = Bool} true false → left ≡ [])
do_assemble-NothingLost_example =
    do_assemble-NothingLost small_gas small_gas-KeepsSymbols (codes "j far") 8 [] true fresh_layer
      one_relocation far_assembled

-- A relaxation table with one link.
abbrev one_link_table : ℕ → ℕ
one_link_table i = if i == 1 then 2 else 0

one_link_table-IsTable : IsTable one_link_table
one_link_table-IsTable = record {
  rank = λ i. if i == 1 then 0 else 1;
  rank_small = λ i. ground arith;
  rank_grows = λ i h. ground (arith, h);
}

chain_head-chain_terminal_example :
    IsShortest one_link_table one_link_table-IsTable 2 (chain_head one_link_table 2)
    × IsLongest one_link_table one_link_table-IsTable 2 (chain_terminal one_link_table 2)
    × (chain_terminal one_link_table (chain_head one_link_table 2)
        ≡ chain_terminal one_link_table 2)
chain_head-chain_terminal_example =
    chain_head-chain_terminal one_link_table one_link_table-IsTable 2 (omega arith)

head_found : ◌≡◌ {A = ℕ} (chain_head one_link_table 2) 1
unfolding chain_head
head_found = refl

abbrev idle : Capture
idle = record { log = record { text = []; cap = 0 }; active = false }

end_capture-write_all_example :
    let (c', out) = write_all (codes "a" ∷ codes "b" ∷ []) (begin_capture idle) in
    let (text, c'') = end_capture c' in
    (text ≡ c_str (joined (codes "a" ∷ codes "b" ∷ [])))
    × HasRoom c'.log
    × (out ≡ [])
    × ((write_all (codes "c" ∷ []) c'').1 ≡ joined (codes "c" ∷ []))
end_capture-write_all_example =
    end_capture-write_all (codes "a" ∷ codes "b" ∷ []) (codes "c" ∷ []) idle

-- `j` to 16 bytes ahead.
abbrev pub undefined_fix : Fix ℕ
undefined_fix = record {
  addsy = some 20;
  offset = 0;
  frag = 0;
  place = 0;
  pcrel = true;
  r_type = 0;
  done = false;
  addnumber = pos 0;
}

abbrev two_fixes : List (Chain ℕ)
two_fixes =
    record {
      frags = three ∷ [];
      fixes = undefined_fix ∷ record undefined_fix { addsy = some 3; r_type = 1 } ∷ [];
    }
    ∷ []

one_left : (apply_text_fixups small_gas 0 two_fixes 0).1 ≡ 1
unfolding apply_text_fixups
one_left = refl

reset-empty_example :
    let s : Session ℕ ℕ = record { text = some two_fixes; world = 0 } in
    (layer_text small_gas (reset small_gas s) ≡ [])
    × (collect_relocs small_gas (reset small_gas s) ≡ [])
reset-empty_example = reset-empty small_gas (record { text = some two_fixes; world = 0 })
