-- ===== src/GlueLayer/Forward/Reset.antt =====
-- The text section behind `nyxstone_glue_reset`.
use nyxstone_tricore_gcc.Base.{
  ℕ, ◌≡◌, refl, ap, ◌∙◌, Option, none, some, List, [], ◌∷◌, replicate, Bytes,
}
use nyxstone_tricore_gcc.Gas.{Chain, Session, Gas}
use nyxstone_tricore_gcc.GlueLayer.Sections.{extract_chains, extract_text_bytes}
use nyxstone_tricore_gcc.GlueLayer.Resolve.{collect_chains, collect_text, collect_relocs}
use nyxstone_tricore_gcc.GlueLayer.Forward.{reset_chains, reset_text, reset, layer_text}

module _ {Symbol : Type 0} where
  closed-empty : (fcs : List (Chain Symbol)) → extract_chains (reset_chains none fcs) [] 0 ≡ ([], 0)
  unfolding extract_chains reset_chains
  closed-empty [] = refl
  closed-empty (fc ∷ fcs) = closed-empty fcs

  reset_chains-empty :
      (fcs : List (Chain Symbol)) → extract_chains (reset_chains (some 0) fcs) [] 0 ≡ ([], 0)
  unfolding extract_chains reset_chains
  reset_chains-empty [] = refl
  reset_chains-empty (fc ∷ fcs) = closed-empty fcs

module _ (g : Gas) where
  open g use {Symbol, World}

  no_fixups :
      (o : Option ℕ) (fcs' : List (Chain Symbol)) (w : World) (fcs : List (Chain Symbol))
      → collect_chains g fcs' w (reset_chains o fcs) ≡ []
  unfolding collect_chains reset_chains
  no_fixups o fcs' w [] = refl
  no_fixups o fcs' w (fc ∷ fcs) = no_fixups none fcs' w fcs

  reset_text-empty :
      (o : Option (List (Chain Symbol))) (w : World)
      → (extract_text_bytes (reset_text g o) ≡ []) × (collect_text g w (reset_text g o) ≡ [])
  unfolding extract_text_bytes reset_text collect_text
  reset_text-empty none w = (refl, refl)
  reset_text-empty (some fcs) w =
      let fresh = reset_chains (some 0) fcs in
      let e = reset_chains-empty fcs in
      (
        ap (λ (r : Bytes × ℕ). (extract_chains fresh (replicate r.1 0) 0).0) e
            ∙ ap (λ (r : Bytes × ℕ). r.0) e,
        no_fixups (some 0) fresh w fcs,
      )

  -- Whatever the session held, after a reset the text section has no bytes and no relocation.
  pub reset-empty :
      (s : Session Symbol World)
      → (layer_text g (reset g s) ≡ []) × (collect_relocs g (reset g s) ≡ [])
  unfolding reset layer_text collect_relocs
  reset-empty s = reset_text-empty s.text (g.reset_data (g.reset_symbols s.world))
