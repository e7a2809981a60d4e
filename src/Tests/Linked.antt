-- ===== src/Tests/Linked.antt =====
-- The passes over the fixups at concrete inputs, over a stand-in for gas.
use nyxstone_tricore_gcc.Base.{
  ℕ, ◌≡◌, refl, sym, subst, inr, true, false, Option, none, some, List, [], ◌∷◌, arith, length, All,
  codes,
}
use nyxstone_tricore_gcc.Gas.{Frag, Fix, Chain, Gas}
use nyxstone_tricore_gcc.Expected.{value}
use nyxstone_tricore_gcc.Literal.{parse_int}
use nyxstone_tricore_gcc.Assemble.{AssembleCore, parsed, do_assemble}
use nyxstone_tricore_gcc.GlueLayer.Encode.{field_of, form_name, rd_le}
use nyxstone_tricore_gcc.GlueLayer.Encode.Slices.{slice, Apart}
use nyxstone_tricore_gcc.GlueLayer.Sections.{
  frag_fix_size, frag_fill_size, layout, finalize_align_org, extract_text_bytes,
}
use nyxstone_tricore_gcc.GlueLayer.Relax.{relax_branches}
use nyxstone_tricore_gcc.Process.{read_source}
use nyxstone_tricore_gcc.GlueLayer.Fixups.{fix_address, apply_chains}
use nyxstone_tricore_gcc.GlueLayer.Fixups.Reference.{width}
use nyxstone_tricore_gcc.GlueLayer.Fixups.Spots.{spots}
use nyxstone_tricore_gcc.GlueLayer.Fixups.Kept.{all_fixes}
use nyxstone_tricore_gcc.GlueLayer.Resolve.{Layer, apply_text_fixups, org_errors, convert_relaxed}
use nyxstone_tricore_gcc.GlueLayer.Resolve.Errors.{CountsErrors}
use nyxstone_tricore_gcc.GlueLayer.Resolve.Places.{HasPlaces}
use nyxstone_tricore_gcc.GlueLayer.Resolve.Carried.{HoldsSymbol, apply_text_fixups-elsewhere}
use nyxstone_tricore_gcc.GlueLayer.Forward.{fresh_frag, glue_layer}
use nyxstone_tricore_gcc.GlueLayer.Linked.{passed, converted, parsed_layer, do_assemble-HoldsSymbol}
use nyxstone_tricore_gcc.Tests.GlueLayer.{small_gas, undefined_fix}

-- A branch to a defined symbol.
abbrev near_fix : Fix ℕ
near_fix = record undefined_fix { addsy = some 3 }

abbrev near_chain : Chain ℕ → Chain ℕ
near_chain fc = record {
  frags = record (fresh_frag none) { fix = 4; literal = 0x6d ∷ 0 ∷ 0 ∷ 0 ∷ [] } ∷ fc.frags;
  fixes = near_fix ∷ fc.fixes;
}

abbrev near_first : Option (List (Chain ℕ)) → Option (List (Chain ℕ))
near_first none = none
near_first (some []) = some []
near_first (some (fc ∷ fcs)) = some (near_chain fc ∷ fcs)

abbrev near_gas : Gas
near_gas = record small_gas { md_assemble = λ line s. record s { text = near_first s.text } }

near_gas-CountsErrors : CountsErrors near_gas
near_gas-CountsErrors = record {
  counts = λ w m. refl;
  resolve_more = λ w s. omega arith;
  apply_more = λ w fx v. omega arith;
  relax_more = λ n s. omega arith;
  convert_more = λ n s. omega arith;
  print_same = λ w. refl;
}

unfoldable near_layer : (glue_layer near_gas).State
unfolding glue_layer
near_layer = record {
  session = record {
    text = some (record { frags = fresh_frag (some 0) ∷ []; fixes = [] } ∷ []);
    world = 0;
  };
  unsupported_form = none;
  capture = record { log = record { text = []; cap = 0 }; active = false };
}

abbrev near_core : AssembleCore
near_core = record { bytes = 0x6d ∷ 0 ∷ 6 ∷ 0 ∷ []; relocations = [] }

near_assembled :
    (do_assemble (glue_layer near_gas) (codes "j near") 8 [] true near_layer).0 ≡ value near_core
unfolding do_assemble glue_layer parse_int near_layer
near_assembled = refl

abbrev near_frag : Frag ℕ
near_frag = record (fresh_frag none) { fix = 4; literal = 0x6d ∷ 0 ∷ 0 ∷ 0 ∷ [] }

abbrev near_laid : List (Chain ℕ)
near_laid =
    record {
      frags = near_frag ∷ record (fresh_frag (some 0)) { address = 4 } ∷ [];
      fixes = near_fix ∷ [];
    }
    ∷ []

-- The layer behind the source.
abbrev near_parsed : Layer ℕ ℕ
near_parsed = parsed_layer near_gas (codes "j near") 8 [] true near_layer

near_converted : converted near_gas near_parsed ≡ record { text = some near_laid; world = 0 }
unfolding parsed_layer near_layer convert_relaxed relax_branches glue_layer parse_int parsed
    read_source
near_converted = refl

near_passed : passed near_gas near_laid 0 ≡ (near_laid, 0, 0)
unfolding apply_chains layout finalize_align_org org_errors
near_passed = refl

near_image : extract_text_bytes (some near_laid) ≡ 0x6d ∷ 0 ∷ 0 ∷ 0 ∷ []
unfolding extract_text_bytes
near_image = refl

near-HasPlaces : HasPlaces near_gas near_laid 0
unfolding extract_text_bytes frag_fix_size frag_fill_size fix_address width field_of form_name rd_le
near-HasPlaces = record {
  settled = (((omega arith, omega arith), refl), (((omega arith, omega arith), refl), tt));
  bytes = (omega arith, (omega arith, (omega arith, (omega arith, tt))));
  some_bytes = omega arith;
  short = omega arith;
  apart = (tt, tt);
  fills_apart = ((inr (omega arith), tt), ((inr (omega arith), tt), tt));
}

do_assemble-HoldsSymbol_example :
    HoldsSymbol near_gas 8 near_laid 0 (0x6d ∷ 0 ∷ 0 ∷ 0 ∷ []) (0x6d ∷ 0 ∷ 6 ∷ 0 ∷ []) near_fix 3
unfolding extract_text_bytes apply_chains layout finalize_align_org org_errors
do_assemble-HoldsSymbol_example =
    do_assemble-HoldsSymbol near_gas near_gas-CountsErrors (codes "j near") 8 [] true near_layer
      near_core near_laid 0 near_converted near-HasPlaces near_assembled [] [] near_fix 3 refl refl
      refl

-- The same branch in front of two bytes of data.
abbrev data_frag : Frag ℕ
data_frag = record (fresh_frag none) { fix = 2; literal = 7 ∷ 8 ∷ []; address = 4 }

abbrev long_chains : List (Chain ℕ)
long_chains = record { frags = near_frag ∷ data_frag ∷ []; fixes = near_fix ∷ [] } ∷ []

long-HasPlaces : HasPlaces near_gas long_chains 0
unfolding extract_text_bytes frag_fix_size frag_fill_size fix_address width field_of form_name rd_le
long-HasPlaces = record {
  settled = (((omega arith, omega arith), refl), (((omega arith, omega arith), refl), tt));
  bytes =
      (omega arith, (omega arith, (omega arith, (omega arith, (omega arith, (omega arith, tt))))));
  some_bytes = omega arith;
  short = omega arith;
  apart = (tt, tt);
  fills_apart = ((inr (omega arith), tt), ((inr (omega arith), tt), tt));
}

long_spots :
    spots near_gas long_chains 0 (extract_text_bytes (some long_chains)) (all_fixes long_chains)
    ≡ (0, 4) ∷ []
unfolding extract_text_bytes fix_address width field_of form_name rd_le
long_spots = refl

abbrev long_out : List ℕ
long_out = 0x6d ∷ 0 ∷ 6 ∷ 0 ∷ 7 ∷ 8 ∷ []

apply_text_fixups-elsewhere_example : (length long_out ≡ 6) × (slice 4 2 long_out ≡ 7 ∷ 8 ∷ [])
unfolding apply_chains apply_text_fixups extract_text_bytes
apply_text_fixups-elsewhere_example =
    apply_text_fixups-elsewhere near_gas (λ w m. refl) 8 long_chains 0 long-HasPlaces refl refl 4 2
      (subst (All (Apart (4, 2))) (sym long_spots) (inr (omega arith), tt))
