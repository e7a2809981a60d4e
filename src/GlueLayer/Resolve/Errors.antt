-- ===== src/GlueLayer/Resolve/Errors.antt =====
-- The count of errors over the fixup pass.
use nyxstone_tricore_gcc.Base.{
  ℕ, zero, suc, ◌≤◌, ◌≡◌, Bool, Option, none, some, List, [], ◌∷◌, arith, either, length, drop,
  Bytes, codes,
}
use nyxstone_tricore_gcc.Gas.{Frag, Fix, Chain, Session, Gas}
use nyxstone_tricore_gcc.GlueLayer.Sections.{all_frags}
use nyxstone_tricore_gcc.GlueLayer.Relax.{relax_loop, relax_branches}
use nyxstone_tricore_gcc.GlueLayer.Fixups.{
  fix_operand, apply_to, apply_fix, apply_fixes, apply_chains,
}
use nyxstone_tricore_gcc.GlueLayer.Resolve.{
  is_machine_dependent, resolve_targets, convert_nth, convert_frags, org_errors, convert_relaxed,
}

-- What the layer relies on: the count of gas grows by one with every error that is reported, and
-- no call of the fixup pass lowers it.
pub record CountsErrors (g : Gas) : Type 0 where
  pub counts : (w : g.World) (m : Bytes) → g.had_errors (g.as_bad m w) ≡ suc (g.had_errors w)
  pub resolve_more :
      (w : g.World) (s : g.Symbol) → g.had_errors w ≤ g.had_errors (g.resolve_symbol_value s w)
  pub apply_more :
      (w : g.World) (fx : Fix g.Symbol) (v : ℕ)
      → g.had_errors w ≤ g.had_errors (g.md_apply_fix fx v w).1
  pub relax_more :
      (n : ℕ) (s : Session g.Symbol g.World)
      → g.had_errors s.world ≤ g.had_errors (g.relax_segment n s).1.world
  pub convert_more :
      (n : ℕ) (s : Session g.Symbol g.World)
      → g.had_errors s.world ≤ g.had_errors (g.md_convert_frag n s).world
  pub print_same : (w : g.World) → g.had_errors (g.printed w).1 ≡ g.had_errors w

module _ (g : Gas) (k : CountsErrors g) where
  open g use {Symbol, World}

  -- There are as many errors, or more.
  abbrev pub More : World → World → Type 0
  More w w' = g.had_errors w ≤ g.had_errors w'

  relax_loop-More :
      (n pass : ℕ) (s : Session Symbol World) → More s.world (relax_loop g n pass s).world
  unfolding relax_loop
  relax_loop-More zero pass s = k.relax_more pass s
  relax_loop-More (suc n) pass s =
      let (changed, s') = g.relax_segment pass s in
      either (λ (t : Session Symbol World). More s.world t.world) changed
        (λ b. omega (arith, k.relax_more pass s, relax_loop-More n (suc pass) s'))
        (λ b. k.relax_more pass s)

  pub relax_branches-More :
      (t : Option (List (Chain Symbol))) (w : World)
      → More w (relax_branches g (record { text = t; world = w })).world
  unfolding relax_branches
  relax_branches-More none w = omega arith
  relax_branches-More (some []) w = omega arith
  relax_branches-More (some (fc ∷ fcs)) w = relax_loop-More 32 0 _

  either_symbol :
      (o : Option Symbol) (w : World)
      → More w (elim o [ none ↦ w | some s ↦ g.resolve_symbol_value s w ])
  either_symbol none w = omega arith
  either_symbol (some s) w = k.resolve_more w s

  resolve_targets-More : (frs : List (Frag Symbol)) (w : World) → More w (resolve_targets g frs w)
  unfolding resolve_targets
  resolve_targets-More [] w = omega arith
  resolve_targets-More (fr ∷ frs) w =
      let w' : World = elim fr.symbol [ none ↦ w | some s ↦ g.resolve_symbol_value s w ] in
      either (λ (v : World). More w (resolve_targets g frs v)) (is_machine_dependent g fr) {x = w'}
        (λ b. omega (arith, either_symbol fr.symbol w, resolve_targets-More frs w'))
        (λ b. resolve_targets-More frs w)

  convert_nth-More :
      (i : ℕ) (frs : List (Frag Symbol)) (s : Session Symbol World)
      → More s.world (convert_nth g i frs s).world
  convert_nth-More i [] s = omega arith
  convert_nth-More i (fr ∷ frs) s =
      either (λ (t : Session Symbol World). More s.world t.world) (is_machine_dependent g fr)
        {y = s} (λ b. k.convert_more i s) (λ b. omega arith)

  convert_frags-More :
      (n i : ℕ) (t : Option (List (Chain Symbol))) (w : World)
      → More w (convert_frags g n i (record { text = t; world = w })).world
  unfolding convert_frags
  convert_frags-More zero i t w = omega arith
  convert_frags-More (suc n) i none w = omega arith
  convert_frags-More (suc n) i (some fcs) w =
      let s = convert_nth g i (drop i (all_frags fcs)) (record { text = some fcs; world = w }) in
      omega (
        arith,
        convert_nth-More i (drop i (all_frags fcs)) (record { text = some fcs; world = w }),
        convert_frags-More n (suc i) s.text s.world,
      )

  pub convert_relaxed-More :
      (t : Option (List (Chain Symbol))) (w : World)
      → More w (convert_relaxed g (record { text = t; world = w })).world
  unfolding convert_relaxed
  convert_relaxed-More none w = omega arith
  convert_relaxed-More (some fcs) w = omega (
    arith,
    resolve_targets-More (all_frags fcs) w,
    convert_frags-More (length (all_frags fcs)) 0 (some fcs) (resolve_targets g (all_frags fcs) w),
  )

  pub org_errors-More : (n : ℕ) (w : World) → More w (org_errors g n w)
  unfolding org_errors
  org_errors-More zero w = omega arith
  org_errors-More (suc n) w =
      let message = codes "attempt to move .org backwards" in
      omega (arith, k.counts w message, org_errors-More n (g.as_bad message w))

  apply_to-More :
      (fcs : List (Chain Symbol)) (fx : Fix Symbol) (o : Option Symbol) (w : World)
      → More w (apply_to g fcs fx o w).2
  unfolding apply_to
  apply_to-More fcs fx none w = omega arith
  apply_to-More fcs fx (some s) w =
      let w' = g.resolve_symbol_value s w in
      let val = fix_operand g fcs fx s w' in
      either (λ (o : Fix Symbol × Bool × World). More w o.2) (g.is_defined w' s)
        (λ b. k.resolve_more w s) (λ b. omega (arith, k.resolve_more w s, k.apply_more w' fx val))

  apply_fixes-More :
      (fcs : List (Chain Symbol)) (fxs : List (Fix Symbol)) (w : World)
      → More w (apply_fixes g fcs fxs w).2
  unfolding apply_fixes apply_fix
  apply_fixes-More fcs [] w = omega arith
  apply_fixes-More fcs (fx ∷ fxs) w =
      let w' = (apply_to g fcs fx fx.addsy w).2 in
      omega (arith, apply_to-More fcs fx fx.addsy w, apply_fixes-More fcs fxs w')

  pub apply_chains-More :
      (fcs rest : List (Chain Symbol)) (w : World) → More w (apply_chains g fcs rest w).2
  unfolding apply_chains
  apply_chains-More fcs [] w = omega arith
  apply_chains-More fcs (fc ∷ rest) w =
      let w' = (apply_fixes g fcs fc.fixes w).2 in
      omega (arith, apply_fixes-More fcs fc.fixes w, apply_chains-More fcs rest w')
