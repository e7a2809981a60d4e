-- ===== src/GlueLayer/Relax.antt =====
-- src/nyxstone_glue.c, `chain_head`, `chain_terminal` and `relax_branches`.

pub mod Chains
use nyxstone_tricore_gcc.Base.{
  ℕ, zero, suc, ◌-◌, none, some, List, [], ◌∷◌, map, ◌==◌, if◌then◌else◌,
}
use nyxstone_tricore_gcc.Gas.{unset_frag, rs_fill, rs_machine_dependent, Frag, Chain, Session, Gas}
use nyxstone_tricore_gcc.GlueLayer.Sections.{frag_fix_size, layout}

-- MD_RELAX_TABLE_N
abbrev pub table_size : ℕ
table_size = 37

module _ (rlx_more : ℕ → ℕ) where
  -- The first state from `i` on, `n` of them, that is linked to `sub`; 0 if there is none.
  unfoldable pub predecessor_from : ℕ → ℕ → ℕ → ℕ
  predecessor_from zero i sub = 0
  predecessor_from (suc n) i sub =
      let later = predecessor_from n (suc i) sub in if rlx_more i == sub then i else later

  unfoldable pub predecessor : ℕ → ℕ
  unfolding predecessor_from
  predecessor sub = predecessor_from (table_size - 1) 1 sub

  -- The loops, with the rounds that `guard` still allows.
  unfoldable pub head_loop : ℕ → ℕ → ℕ
  unfolding predecessor
  head_loop zero sub = sub
  head_loop (suc n) sub =
      let earlier = head_loop n (predecessor sub) in if predecessor sub == 0 then sub else earlier

  unfoldable pub chain_head : ℕ → ℕ
  unfolding head_loop
  chain_head sub = head_loop table_size sub

  unfoldable pub terminal_loop : ℕ → ℕ → ℕ
  terminal_loop zero sub = sub
  terminal_loop (suc n) sub =
      let later = terminal_loop n (rlx_more sub) in if rlx_more sub == 0 then sub else later

  unfoldable pub chain_terminal : ℕ → ℕ
  unfolding terminal_loop
  chain_terminal sub = terminal_loop table_size sub

module _ (g : Gas) where
  open g use {Symbol, World, in_text, relax_segment}

  -- The open frag gets its size, and a frag of no type becomes an empty fill.
  unfoldable pub settle : Frag Symbol → Frag Symbol
  unfolding frag_fix_size
  settle fr =
      let sized = record fr { fix = frag_fix_size fr } in
      elim fr.kind [ unset_frag ↦ record sized { kind = rs_fill; var = 0 } | _ ↦ sized ]

  -- Branches to this section start short, all others stay long.
  unfoldable pub start_form : World → Frag Symbol → Frag Symbol
  unfolding chain_head chain_terminal
  start_form w fr = elim fr.kind [
    | rs_machine_dependent ↦ elim fr.symbol [
      | none ↦ fr
      | some s ↦ record fr {
        subtype =
            if in_text w s
            then chain_head g.rlx_more fr.subtype
            else chain_terminal g.rlx_more fr.subtype;
      }
    ]
    | _ ↦ fr
  ]

  abbrev pub on_frags : (Frag Symbol → Frag Symbol) → List (Chain Symbol) → List (Chain Symbol)
  on_frags f [] = []
  on_frags f (fc ∷ fcs) = record fc { frags = map f fc.frags } ∷ on_frags f fcs

  -- `for (pass = 0; relax_segment (…, pass) && pass < 32; ++pass)`, from `pass` on with the rounds
  -- that are left.
  unfoldable pub relax_loop : ℕ → ℕ → Session Symbol World → Session Symbol World
  relax_loop zero pass s = (relax_segment pass s).1
  relax_loop (suc n) pass s =
      let (changed, s') = relax_segment pass s in
      let again = relax_loop n (suc pass) s' in if changed then again else s'

  unfoldable pub relax_branches : Session Symbol World → Session Symbol World
  unfolding settle start_form layout relax_loop
  relax_branches s = elim s.text [
    | none ↦ s
    | some [] ↦ s
    | some (fc ∷ fcs) ↦
        let prepared = on_frags (start_form s.world) (layout 0 (on_frags settle (fc ∷ fcs))) in
        relax_loop 32 0 (record s { text = some prepared })
  ]
