-- ===== src/CAbi/Convert.antt =====
-- src/nyxstone_c.cpp, `dup_string`, `convert_instructions` and `convert_relocations`.
-- `p[len] = '\0'` behind the bytes.
use nyxstone_tricore_gcc.Base.{
  ℕ, suc, ◌-◌, Bool, true, false, Option, none, some, List, [], ◌∷◌, ◌++◌, if◌then◌else◌, length,
  is_empty, replicate, Bytes, ℤ, pos,
}
use nyxstone_tricore_gcc.Disassemble.{Instruction}
use nyxstone_tricore_gcc.Assemble.{RelocationInfo}
use nyxstone_tricore_gcc.CAbi.Store.{
  Element, instruction_element, reloc_element, chars, array, Store, malloc, write, free_array,
}

module _ (fails : ℕ → Bool) where
  unfoldable pub dup_string : Bytes → Store → Option ℕ × Store
  unfolding malloc
  dup_string text s = malloc fails (chars (text ++ 0 ∷ [])) s

  -- An element that is filled in, or the elements that the clean-up frees beside the earlier ones.
  pub data Filled : Type 0 where
    complete : Element → Filled
    broken : List Element → Filled

  abbrev pub fill_bytes : Instruction → Option ℕ → Option ℕ × Store → Filled × Store
  fill_bytes i assembly (none, s) = (broken (instruction_element i.address assembly none 0 ∷ []), s)
  fill_bytes i assembly (some p, s) =
      (complete (instruction_element i.address assembly (some p) (length i.bytes)), s)

  abbrev pub fill_rest : Instruction → Option ℕ × Store → Filled × Store
  fill_rest i (none, s) = (broken [], s)
  fill_rest i (some p, s) =
      if is_empty i.bytes
      then (complete (instruction_element i.address (some p) none 0), s)
      else fill_bytes i (some p) (malloc fails (chars i.bytes) s)

  -- The loop's body in `convert_instructions`.
  unfoldable pub fill_instruction : Instruction → Store → Filled × Store
  unfolding dup_string malloc
  fill_instruction i s = fill_rest i (dup_string i.assembly s)

  abbrev pub addend_or_zero : Option ℤ → ℤ
  addend_or_zero none = pos 0
  addend_or_zero (some a) = a

  abbrev pub has_addend : Option ℤ → Bool
  has_addend none = false
  has_addend (some a) = true

  abbrev pub fill_name : RelocationInfo → Option ℕ × Store → Filled × Store
  fill_name r (none, s) = (broken [], s)
  fill_name r (some p, s) = (
    complete (
        reloc_element r.offset (addend_or_zero r.addend) (has_addend r.addend) r.relocation_type
          (some p) r.symbol.address),
    s,
  )

  -- The loop's body in `convert_relocations`.
  unfoldable pub fill_reloc : RelocationInfo → Store → Filled × Store
  unfolding dup_string
  fill_reloc r s = fill_name r (dup_string r.symbol.name s)

  -- The loop over either list, into the array at `arr` of which `done` is filled in; an element that
  -- `calloc` has cleared is `cleared`.
  module _ {A : Type 0} (fill : A → Store → Filled × Store) (cleared : Element) where
    unfoldable pub convert_loop : ℕ → List Element → List A → Store → Option ℕ × Store
    unfolding free_array write
    convert_loop arr done [] s = (some arr, s)
    convert_loop arr done (v ∷ vs) s =
        let (f, s') = fill v s in
        elim f [
          | complete e ↦
              convert_loop arr (done ++ e ∷ []) vs
                (write arr (array (done ++ e ∷ replicate (length vs) cleared)) s')
          | broken l ↦ (
            none,
            free_array (some arr) (length (done ++ l)) (
                write arr (array ((done ++ l) ++ replicate (suc (length vs) - length l) cleared))
                  s'),
          )
        ]

    unfoldable pub convert : List A → Store → Option ℕ × Store
    unfolding convert_loop malloc
    convert vs s =
        let (p, s') = malloc fails (array (replicate (length vs) cleared)) s in
        elim p [ none ↦ (none, s') | some arr ↦ convert_loop arr [] vs s' ]

  abbrev pub cleared_instruction : Element
  cleared_instruction = instruction_element 0 none none 0

  abbrev pub cleared_reloc : Element
  cleared_reloc = reloc_element 0 (pos 0) false 0 none 0

  unfoldable pub convert_instructions : List Instruction → Store → Option ℕ × Store
  unfolding convert fill_instruction
  convert_instructions = convert fill_instruction cleared_instruction

  unfoldable pub convert_relocations : List RelocationInfo → Store → Option ℕ × Store
  unfolding convert fill_reloc
  convert_relocations = convert fill_reloc cleared_reloc
