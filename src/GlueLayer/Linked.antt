-- ===== src/GlueLayer/Linked.antt =====
-- The driver over the glue layer: what the bytes hold.
use nyxstone_tricore_gcc.Base.{
  ℕ, ◌≡◌, sym, ap, subst, ◌∙◌, Bool, true, Option, some, List, ◌∷◌, ◌++◌, arith, Bytes,
}
use nyxstone_tricore_gcc.Gas.{Fix, Chain, Session, Gas}
use nyxstone_tricore_gcc.Expected.{value}
use nyxstone_tricore_gcc.Assemble.{LabelDefinition, AssembleCore, do_assemble}
use nyxstone_tricore_gcc.Assemble.Checks.{after_parse, do_assemble-Succeeds}
use nyxstone_tricore_gcc.GlueLayer.Sections.{layout, finalize_align_org, extract_text_bytes}
use nyxstone_tricore_gcc.GlueLayer.Relax.{relax_branches}
use nyxstone_tricore_gcc.GlueLayer.Fixups.{apply_chains}
use nyxstone_tricore_gcc.GlueLayer.Fixups.Kept.{all_fixes}
use nyxstone_tricore_gcc.GlueLayer.Resolve.{
  Layer, apply_text_fixups, org_errors, place_text, resolve_relaxed, convert_relaxed,
  resolve_text_fixups, unsupported_reloc,
}
use nyxstone_tricore_gcc.GlueLayer.Resolve.Errors.{
  CountsErrors, More, relax_branches-More, convert_relaxed-More, org_errors-More, apply_chains-More,
}
use nyxstone_tricore_gcc.GlueLayer.Resolve.Places.{HasPlaces}
use nyxstone_tricore_gcc.GlueLayer.Resolve.Carried.{
  HoldsSymbol, applied-More, apply_text_fixups-HoldsSymbol,
}
use nyxstone_tricore_gcc.GlueLayer.Forward.{flush, stop_capture, layer_text, glue_layer}

module _ (g : Gas) where
  open g use {Symbol, World}

  -- The section that the passes over the fixups begin with, where `fcs` is what relaxation leaves.
  abbrev pub laid_out : List (Chain Symbol) → World → List (Chain Symbol)
  laid_out fcs w = layout 0 (finalize_align_org (g.symbol_value fcs w) 0 fcs).0

  abbrev pub laid_world : List (Chain Symbol) → World → World
  laid_world fcs w = org_errors g (finalize_align_org (g.symbol_value fcs w) 0 fcs).1 w

  -- The section and the state of gas behind the first pass.
  abbrev pub passed : List (Chain Symbol) → World → List (Chain Symbol) × ℕ × World
  passed fcs w = apply_chains g (laid_out fcs w) (laid_out fcs w) (laid_world fcs w)

  abbrev pub converted : Layer Symbol World → Session Symbol World
  converted l = convert_relaxed g (relax_branches g l.session)

  module _ (source : Bytes) (address : ℕ) (labels : List LabelDefinition) (with_relocs : Bool)
      (s : (glue_layer g).State) where
    -- The layer behind the source and the label definitions.
    unfoldable pub parsed_layer : Layer Symbol World
    unfolding glue_layer
    parsed_layer = after_parse (glue_layer g) source address labels with_relocs s

module _ (g : Gas) (k : CountsErrors g) where
  open g use {Symbol, World}

  converted-More : (l : Layer Symbol World) → More g k l.session.world (converted g l).world
  converted-More l =
      let s = relax_branches g l.session in
      omega (
        arith,
        relax_branches-More g k l.session.text l.session.world,
        convert_relaxed-More g k s.text s.world,
      )

  passed-More : (fcs : List (Chain Symbol)) (w : World) → More g k w (passed g fcs w).2
  passed-More fcs w = omega (
    arith,
    org_errors-More g k (finalize_align_org (g.symbol_value fcs w) 0 fcs).1 w,
    apply_chains-More g k (laid_out g fcs w) (laid_out g fcs w) (laid_world g fcs w),
  )

  -- The layer behind `stop_capture`.
  module _ (base : ℕ) (l : Layer Symbol World) (fcs : List (Chain Symbol)) where
    abbrev applied : Option Bytes × ℕ × Session Symbol World
    applied =
        apply_text_fixups g base (laid_out g fcs (converted g l).world)
          (laid_world g fcs (converted g l).world)

    abbrev ended : Layer Symbol World
    ended = (stop_capture g (resolve_text_fixups g base l).1).1

    resolved-is :
        (converted g l).text ≡ some fcs
        → (resolve_text_fixups g base l).1
          ≡ record l { session = applied.2; unsupported_form = applied.0 }
    unfolding resolve_text_fixups resolve_relaxed place_text
    resolved-is e =
        ap
          (λ (t : Option (List (Chain Symbol))).
            (resolve_relaxed g base t (converted g l).world l).1)
          e

    ended-text : (converted g l).text ≡ some fcs → ended.session.text ≡ applied.2.text
    unfolding stop_capture flush
    ended-text e = ap (λ (m : Layer Symbol World). m.session.text) (resolved-is e)

    ended-form : (converted g l).text ≡ some fcs → ended.unsupported_form ≡ applied.0
    unfolding stop_capture flush
    ended-form e = ap (λ (m : Layer Symbol World). m.unsupported_form) (resolved-is e)

    ended-errors :
        (converted g l).text ≡ some fcs
        → g.had_errors ended.session.world ≡ g.had_errors applied.2.world
    unfolding stop_capture flush
    ended-errors e =
        k.print_same (resolve_text_fixups g base l).1.session.world
        ∙ ap (λ (m : Layer Symbol World). g.had_errors m.session.world) (resolved-is e)

  module _ (source : Bytes) (address : ℕ) (labels : List LabelDefinition) (with_relocs : Bool)
      (s : (glue_layer g).State) (c : AssembleCore) where
    abbrev HoldsAt : List (Chain Symbol) → World → Type 0
    HoldsAt fcs w =
        HasPlaces g (passed g fcs w).0 (passed g fcs w).2
        → (do_assemble (glue_layer g) source address labels with_relocs s).0 ≡ value c
        → (xs ys : List (Fix Symbol)) (fx : Fix Symbol) (target : Symbol)
        → all_fixes (passed g fcs w).0 ≡ xs ++ fx ∷ ys
        → fx.addsy ≡ some target
        → g.is_defined (passed g fcs w).2 target ≡ true
        → HoldsSymbol g address (passed g fcs w).0 (passed g fcs w).2
            (extract_text_bytes (some (passed g fcs w).0)) c.bytes fx target

    abbrev before_fixups : Layer Symbol World
    before_fixups = parsed_layer g source address labels with_relocs s

    do_assemble-HoldsAt :
        (fcs : List (Chain Symbol))
        → (converted g before_fixups).text ≡ some fcs
        → HoldsAt fcs (converted g before_fixups).world
    unfolding glue_layer layer_text unsupported_reloc parsed_layer
    do_assemble-HoldsAt fcs e ready h xs ys fx target place at defined =
        let facts =
          (do_assemble-Succeeds (glue_layer g) source address labels with_relocs s c).0 h in
        let l = before_fixups in
        let w = (converted g l).world in
        let form = sym (ended-form address l fcs e) ∙ facts.all_supported in
        let errors : g.had_errors (applied address l fcs).2.world
            ≡ g.had_errors (passed g fcs w).2 =
          omega (
            arith,
            facts.no_fixup_error,
            facts.no_parse_error,
            ended-errors address l fcs e,
            converted-More l,
            passed-More fcs w,
            applied-More g k.counts address (laid_out g fcs w) (laid_world g fcs w) ready,
          ) in
        let bytes =
          facts.bytes_are
          ∙ ap (λ (t : Option (List (Chain Symbol))). extract_text_bytes t)
              (ended-text address l fcs e) in
        subst
          (λ (bs : Bytes).
            HoldsSymbol g address (passed g fcs w).0 (passed g fcs w).2
              (extract_text_bytes (some (passed g fcs w).0)) bs fx target)
          (sym bytes)
          (apply_text_fixups-HoldsSymbol g k.counts address (laid_out g fcs w) (laid_world g fcs w)
            ready form errors xs ys fx target place at defined)

    -- If gas counts errors, a value of `do_assemble` is a section whose fixups went through. Where
    -- `fcs` is the section behind relaxation, and the fixups have places of their own, the bytes
    -- of the value carry, for every fixup with a defined symbol, the number that leads to the
    -- symbol in a section at `address`, in the field of a relocation with a name.
    pub do_assemble-HoldsSymbol :
        (fcs : List (Chain Symbol)) (w : World)
        → converted g (parsed_layer g source address labels with_relocs s)
          ≡ record { text = some fcs; world = w }
        → HasPlaces g (passed g fcs w).0 (passed g fcs w).2
        → (do_assemble (glue_layer g) source address labels with_relocs s).0 ≡ value c
        → (xs ys : List (Fix Symbol)) (fx : Fix Symbol) (target : Symbol)
        → all_fixes (passed g fcs w).0 ≡ xs ++ fx ∷ ys
        → fx.addsy ≡ some target
        → g.is_defined (passed g fcs w).2 target ≡ true
        → HoldsSymbol g address
            (passed g fcs w).0
            (passed g fcs w).2
            (extract_text_bytes (some (passed g fcs w).0))
            c.bytes
            fx
            target
    do_assemble-HoldsSymbol fcs w e =
        subst (HoldsAt fcs) (ap (λ t. t.world) e) (do_assemble-HoldsAt fcs (ap (λ t. t.text) e))
