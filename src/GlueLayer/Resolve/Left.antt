-- ===== src/GlueLayer/Resolve/Left.antt =====
-- The count of `apply_text_fixups` against the relocations that are collected afterwards.
use nyxstone_tricore_gcc.GlueLayer.Fixups.{is_left, fix_operand, apply_to}
use nyxstone_tricore_gcc.GlueLayer.Resolve.{collect_fix}
use nyxstone_tricore_gcc.Base.{
  ℕ, suc, ◌≡◌, refl, ap, ◌∙◌, Bool, true, false, Option, none, some, List, arith, if◌then◌else◌,
  either, length, Bytes,
}
use nyxstone_tricore_gcc.Gas.{Fix, Chain, Gas}
use nyxstone_tricore_gcc.Glue.{RawReloc}

-- What the layer relies on: a symbol that has been resolved stays defined or undefined while other
-- symbols are resolved, fixups applied and errors reported and printed; and `md_apply_fix` leaves its symbol
-- attached to a fixup.
pub record KeepsSymbols (g : Gas) : Type 1 where
  pub Resolved : g.World → g.Symbol → Type 0
  pub resolves : (w : g.World) (s : g.Symbol) → Resolved (g.resolve_symbol_value s w) s
  pub resolve_keeps :
      (w : g.World) (t s : g.Symbol)
      → Resolved w s
      → Resolved (g.resolve_symbol_value t w) s
        × (g.is_defined (g.resolve_symbol_value t w) s ≡ g.is_defined w s)
  pub apply_keeps :
      (w : g.World) (fx : Fix g.Symbol) (v : ℕ) (s : g.Symbol)
      → Resolved w s
      → Resolved (g.md_apply_fix fx v w).1 s
        × (g.is_defined (g.md_apply_fix fx v w).1 s ≡ g.is_defined w s)
  pub error_keeps :
      (w : g.World) (message : Bytes) (s : g.Symbol)
      → Resolved w s
      → Resolved (g.as_bad message w) s × (g.is_defined (g.as_bad message w) s ≡ g.is_defined w s)
  pub print_keeps : (w : g.World) (s : g.Symbol) → g.is_defined (g.printed w).1 s ≡ g.is_defined w s
  pub apply_symbol :
      (w : g.World) (fx : Fix g.Symbol) (v : ℕ) → (g.md_apply_fix fx v w).0.addsy ≡ fx.addsy

module _ (g : Gas) (k : KeepsSymbols g) where
  open g use {Symbol, World}

  -- No resolved symbol has become defined or undefined.
  abbrev pub Later : World → World → Type 0
  Later w w' =
      (s : Symbol) → k.Resolved w s → k.Resolved w' s × (g.is_defined w' s ≡ g.is_defined w s)

  pub Later-trans : (w w' w'' : World) → Later w w' → Later w' w'' → Later w w''
  Later-trans w w' w'' p q s h = let (r, e) = p s h in let (r', e') = q s r in (r', e' ∙ e)

  pub apply_to-Later :
      (fcs : List (Chain Symbol)) (fx : Fix Symbol) (o : Option Symbol) (w : World)
      → Later w (apply_to g fcs fx o w).2
  unfolding apply_to
  apply_to-Later fcs fx none w s h = (h, refl)
  apply_to-Later fcs fx (some t) w s h =
      let w' = g.resolve_symbol_value t w in
      let (r, e) = k.resolve_keeps w t s h in
      let val = fix_operand g fcs fx t w' in
      let (r', e') = k.apply_keeps w' fx val s r in
      either
        (λ (o : Fix Symbol × Bool × World).
          k.Resolved o.2 s × (g.is_defined o.2 s ≡ g.is_defined w s))
        (g.is_defined w' t) (λ b. (r, e)) (λ b. (r', e' ∙ e))

  -- One fixup is one relocation if it is counted, and none otherwise.
  module _ (fcs' : List (Chain Symbol)) (wf : World) (rest : List RawReloc) where
    abbrev pub counted : Bool → ℕ
    counted left = if left then suc (length rest) else length rest

    abbrev pub IsCounted : Fix Symbol × Bool × World → Type 0
    IsCounted (fx, left, w) =
        Later w wf → length (collect_fix g fcs' wf fx fx.addsy rest) ≡ counted left

    with_symbol :
        (fx : Fix Symbol) (s : Symbol) (n : ℕ)
        → fx.addsy ≡ some s
        → length (collect_fix g fcs' wf fx (some s) rest) ≡ n
        → length (collect_fix g fcs' wf fx fx.addsy rest) ≡ n
    with_symbol fx s n e h =
        ap (λ (o : Option Symbol). length (collect_fix g fcs' wf fx o rest)) e ∙ h

    defined-IsCounted :
        (fx : Fix Symbol) (s : Symbol) (w : World)
        → fx.addsy ≡ some s
        → k.Resolved w s
        → g.is_defined w s ≡ true
        → IsCounted (fx, false, w)
    unfolding collect_fix
    defined-IsCounted fx s w e r b later =
        let (stays, same) = later s r in with_symbol fx s _ e (ground (arith, same, b))

    left-IsCounted :
        (fx : Fix Symbol) (s : Symbol) (w : World)
        → fx.addsy ≡ some s
        → k.Resolved w s
        → g.is_defined w s ≡ false
        → IsCounted (fx, is_left fx, w)
    unfolding collect_fix
    left-IsCounted fx s w e r b later =
        let (stays, same) = later s r in with_symbol fx s _ e (ground (arith, same, b, e))

    pub apply_to-IsCounted :
        (fcs : List (Chain Symbol)) (fx : Fix Symbol) (o : Option Symbol) (w : World)
        → fx.addsy ≡ o
        → IsCounted (apply_to g fcs fx o w)
    unfolding apply_to collect_fix
    apply_to-IsCounted fcs fx none w e =
        λ later. ap (λ (o : Option Symbol). length (collect_fix g fcs' wf fx o rest)) e
    apply_to-IsCounted fcs fx (some s) w e =
        let w' = g.resolve_symbol_value s w in
        let r = k.resolves w s in
        let val = fix_operand g fcs fx s w' in
        let (r', e') = k.apply_keeps w' fx val s r in
        either IsCounted (g.is_defined w' s) (defined-IsCounted fx s w' e r) (λ b.
          left-IsCounted (g.md_apply_fix fx val w').0 s (g.md_apply_fix fx val w').1
            (k.apply_symbol w' fx val ∙ e) r' (e' ∙ b))
