-- ===== src/GlueLayer/Resolve/Count.antt =====
-- The count of `nyxstone_glue_resolve_text_fixups` is the number of relocations that
-- `nyxstone_glue_collect_relocs` lists then.
use nyxstone_tricore_gcc.GlueLayer.Fixups.{
  restore_frags, restore, Image, apply_fix, apply_fixes, apply_chains, range_message, encode_result,
  encode_howto, encode_to, encode_fix, encode_fixes, encode_chains,
}
use nyxstone_tricore_gcc.GlueLayer.Resolve.{
  apply_text_fixups, collect_fixes, collect_chains, collect_relocs,
}
use nyxstone_tricore_gcc.GlueLayer.Resolve.Left.{
  KeepsSymbols, Later, Later-trans, apply_to-Later, apply_to-IsCounted,
}
use nyxstone_tricore_gcc.Base.{
  ℕ, ◌≡◌, refl, sym, ap, ◌∙◌, Option, none, some, List, [], ◌∷◌, ◌++◌, arith, ◌==◌, either, length,
  length-append, Bytes,
}
use nyxstone_tricore_gcc.Gas.{Fix, Chain, Session, Gas}
use nyxstone_tricore_gcc.GlueLayer.Encode.{Howto, Code, encoded, unsupported, out_of_range}
use nyxstone_tricore_gcc.GlueLayer.Sections.{extract_text_bytes}

module _ (g : Gas) (k : KeepsSymbols g) where
  open g use {Symbol, World}

  apply_fixes-Later :
      (fcs : List (Chain Symbol)) (fxs : List (Fix Symbol)) (w : World)
      → Later g k w (apply_fixes g fcs fxs w).2
  unfolding apply_fixes apply_fix
  apply_fixes-Later fcs [] w = λ s h. (h, refl)
  apply_fixes-Later fcs (fx ∷ fxs) w =
      let w' = (apply_fix g fcs fx w).2 in
      Later-trans g k w w' (apply_fixes g fcs fxs w').2 (apply_to-Later g k fcs fx fx.addsy w)
        (apply_fixes-Later fcs fxs w')

  apply_chains-Later :
      (fcs rest : List (Chain Symbol)) (w : World) → Later g k w (apply_chains g fcs rest w).2
  unfolding apply_chains
  apply_chains-Later fcs [] w = λ s h. (h, refl)
  apply_chains-Later fcs (fc ∷ rest) w =
      let w' = (apply_fixes g fcs fc.fixes w).2 in
      Later-trans g k w w' (apply_chains g fcs rest w').2 (apply_fixes-Later fcs fc.fixes w)
        (apply_chains-Later fcs rest w')

  module _ (fcs' : List (Chain Symbol)) (wf : World) where
    apply_fixes-counted :
        (fcs : List (Chain Symbol)) (fxs : List (Fix Symbol)) (w : World)
        → Later g k (apply_fixes g fcs fxs w).2 wf
        → length (collect_fixes g fcs' wf (apply_fixes g fcs fxs w).0) ≡ (apply_fixes g fcs fxs w).1
    unfolding apply_fixes apply_fix collect_fixes
    apply_fixes-counted fcs [] w later = refl
    apply_fixes-counted fcs (fx ∷ fxs) w later =
        let w' = (apply_fix g fcs fx w).2 in
        let rest = collect_fixes g fcs' wf (apply_fixes g fcs fxs w').0 in
        let end = (apply_fixes g fcs fxs w').2 in
        let then_later = Later-trans g k w' end wf (apply_fixes-Later fcs fxs w') later in
        ground (
          arith,
          apply_to-IsCounted g k fcs' wf rest fcs fx fx.addsy w refl then_later,
          apply_fixes-counted fcs fxs w' later,
        )

    apply_chains-counted :
        (fcs rest : List (Chain Symbol)) (w : World)
        → Later g k (apply_chains g fcs rest w).2 wf
        → length (collect_chains g fcs' wf (apply_chains g fcs rest w).0)
          ≡ (apply_chains g fcs rest w).1
    unfolding apply_chains collect_chains
    apply_chains-counted fcs [] w later = refl
    apply_chains-counted fcs (fc ∷ rest) w later =
        let (fxs, count, w') = apply_fixes g fcs fc.fixes w in
        let (fcs'', more, end) = apply_chains g fcs rest w' in
        let then_later = Later-trans g k w' end wf (apply_chains-Later fcs rest w') later in
        omega (
          arith,
          length-append (collect_fixes g fcs' wf fxs) (collect_chains g fcs' wf fcs''),
          apply_fixes-counted fcs fc.fixes w then_later,
          apply_chains-counted fcs rest w' later,
        )

    collect_chains-restore :
        (buf : Bytes) (addr : ℕ) (fcs : List (Chain Symbol))
        → collect_chains g fcs' wf (restore buf addr fcs) ≡ collect_chains g fcs' wf fcs
    unfolding collect_chains restore
    collect_chains-restore buf addr [] = refl
    collect_chains-restore buf addr (fc ∷ fcs) =
        let end = (restore_frags buf addr fc.frags).1 in
        ap (λ r. collect_fixes g fcs' wf fc.fixes ++ r) (collect_chains-restore buf end fcs)

  -- The second pass only reports errors.
  module _ (base : ℕ) (fcs : List (Chain Symbol)) where
    encode_result-Later :
        (s : Symbol) (howto : Howto) (r : Code × Bytes) (i : Image World)
        → Later g k i.world (encode_result g base fcs s howto r i).world
    unfolding encode_result
    encode_result-Later s howto (encoded, buf) i = λ t h. (h, refl)
    encode_result-Later s howto (unsupported, buf) i = λ t h. (h, refl)
    encode_result-Later s howto (out_of_range, buf) i =
        k.error_keeps i.world (range_message g base fcs s howto)

    encode_howto-Later :
        (fx : Fix Symbol) (s : Symbol) (o : Option Howto) (i : Image World)
        → Later g k i.world (encode_howto g base fcs fx s o i).world
    unfolding encode_howto
    encode_howto-Later fx s none i = λ t h. (h, refl)
    encode_howto-Later fx s (some howto) i = encode_result-Later s howto _ i

    encode_fix-Later :
        (fx : Fix Symbol) (o : Option Symbol) (i : Image World)
        → Later g k i.world (encode_to g base fcs fx o i).world
    unfolding encode_to
    encode_fix-Later fx none i = λ t h. (h, refl)
    encode_fix-Later fx (some s) i =
        either (λ (j : Image World). Later g k i.world j.world) (g.is_defined i.world s)
          (λ b. encode_howto-Later fx s (g.reloc_type_lookup fx.r_type) i) (λ b t h. (h, refl))

    encode_fixes-Later :
        (fxs : List (Fix Symbol)) (i : Image World)
        → Later g k i.world (encode_fixes g base fcs fxs i).world
    unfolding encode_fixes encode_fix
    encode_fixes-Later [] i = λ t h. (h, refl)
    encode_fixes-Later (fx ∷ fxs) i =
        let i' = encode_fix g base fcs fx i in
        Later-trans g k i.world i'.world (encode_fixes g base fcs fxs i').world
          (encode_fix-Later fx fx.addsy i) (encode_fixes-Later fxs i')

    encode_chains-Later :
        (rest : List (Chain Symbol)) (i : Image World)
        → Later g k i.world (encode_chains g base fcs rest i).world
    unfolding encode_chains
    encode_chains-Later [] i = λ t h. (h, refl)
    encode_chains-Later (fc ∷ rest) i =
        let i' = encode_fixes g base fcs fc.fixes i in
        Later-trans g k i.world i'.world (encode_chains g base fcs rest i').world
          (encode_fixes-Later fc.fixes i) (encode_chains-Later rest i')

  -- Over a gas that keeps symbols (GlueLayer/Resolve/Left), the driver's two views of what is left
  -- to the linker agree: the count that the fixup pass returns is the number of relocations that
  -- are listed afterwards.
  pub apply_text_fixups-collect_relocs :
      (base : ℕ) (fcs : List (Chain Symbol)) (w : World)
      → let (form, count, s) = apply_text_fixups g base fcs w in count ≡ length (collect_relocs g s)
  unfolding apply_text_fixups collect_relocs
  apply_text_fixups-collect_relocs base fcs w =
      let (fcs', count, w') = apply_chains g fcs fcs w in
      let buf = extract_text_bytes (some fcs') in
      let i : Image World = record { buf = buf; unsupported_form = none; world = w' } in
      let i' = encode_chains g base fcs' fcs' i in
      let put_back = restore i'.buf 0 fcs' in
      either (λ (o : Option Bytes × ℕ × Session Symbol World). o.1 ≡ length (collect_relocs g o.2))
        (length buf == 0) (λ b. sym (apply_chains-counted fcs' w' fcs fcs w (λ t h. (h, refl))))
        (λ b. sym (
          ap length (collect_chains-restore put_back i'.world i'.buf 0 fcs')
          ∙ apply_chains-counted put_back i'.world fcs fcs w
              (encode_chains-Later base fcs' fcs' i)))
