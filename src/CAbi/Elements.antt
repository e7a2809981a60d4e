-- ===== src/CAbi/Elements.antt =====
-- What the array that a successful call hands out leads to.
pub mod Filled
pub mod Relocs
pub mod Loop
use nyxstone_tricore_gcc.Base.{
  ℕ, ◌≡◌, refl, sym, ap, subst, Bool, Option, none, some, List, [], ◌∷◌, length,
}
use nyxstone_tricore_gcc.Glue.{Glue}
use nyxstone_tricore_gcc.Disassemble.{Instruction}
use nyxstone_tricore_gcc.CAbi.Store.{Element, array, Store}
use nyxstone_tricore_gcc.CAbi.Convert.{fill_instruction, cleared_instruction, convert_instructions}
use nyxstone_tricore_gcc.CAbi.Entry.{Out, array_out, array_given, give_instructions}
use nyxstone_tricore_gcc.CAbi.Release.{fill_instruction-Fills}
use nyxstone_tricore_gcc.CAbi.Elements.Filled.{
  HoldsInstruction, HoldsInstruction-same, fill_instruction-Holds,
}
use nyxstone_tricore_gcc.CAbi.Elements.Loop.{AllHeld, convert-HoldsArray}

module _ (fails : ℕ → Bool) where
  -- The output is an array with an element for each instruction, in order.
  abbrev pub HoldsInstructions : List Instruction → List Out → Store → Type 0
  HoldsInstructions v outs s =
      (p : ℕ) × (l : List Element) × (outs ≡ array_out (some p) (length v) ∷ [])
      × (s.live p ≡ some (array l))
      × AllHeld HoldsInstruction v l s

  pub give_instructions-HoldsInstructions :
      (v : List Instruction) (s : Store) (outs : List Out) (t : Store)
      → give_instructions fails v s ≡ (some outs, t)
      → HoldsInstructions v outs t
  unfolding give_instructions convert_instructions
  give_instructions-HoldsInstructions v s outs t h =
      go (convert_instructions fails v s).0 (convert_instructions fails v s).1 refl h
    where
      go :
          (p : Option ℕ) (u : Store)
          → ◌≡◌ {A = Option ℕ × Store} (convert_instructions fails v s) (p, u)
          → array_given fails (length v) (p, u) ≡ (some outs, t)
          → HoldsInstructions v outs t
      go none u made h' = cc (ap (λ k. k.0) h')
      go (some p) u made h' =
          let (l, at, rest) =
            convert-HoldsArray fails (fill_instruction fails) (cleared_instruction fails)
              HoldsInstruction (fill_instruction-Fills fails) (fill_instruction-Holds fails)
              HoldsInstruction-same v s p u made in
          let given_out : some (array_out (some p) (length v) ∷ []) ≡ some outs =
            ap (λ k. k.0) h' in
          let store : u ≡ t = ap (λ k. k.1) h' in
          (
            p,
            l,
            sym (cc given_out),
            subst (λ (k : Store). k.live p ≡ some (array l)) store at,
            subst (λ (k : Store). AllHeld HoldsInstruction v l k) store rest,
          )
