-- ===== src/Api/Relocations.antt =====
-- The relocations that the methods with relocations report.
-- The address that stands with a name: that of the first label so named, or 0 if no label has it.
use nyxstone_tricore_gcc.Base.{
  ℕ, ◌+◌, ◌%◌, ◌^◌, ◌≡◌, refl, ap, ◌∙◌, ◌≢◌, ◌⊎◌, inl, inr, true, Option, none, some, List, [], ◌∷◌,
  ◌++◌, map, if◌then◌else◌, Bool-cases, All, Bytes, bytes_eq, bytes_eq_iff, ℤ,
}
use nyxstone_tricore_gcc.Expected.{value, ◌>>=◌, >>=-eq-value}
use nyxstone_tricore_gcc.Glue.{RawReloc, Glue}
use nyxstone_tricore_gcc.Decoder.{PrintInsn}
use nyxstone_tricore_gcc.Assemble.{
  LabelDefinition, RelocationInfo, AssembleCore, address_hint, text_or_empty, relocation_info,
  parsed, parse_failed, assembled, core, do_assemble,
}
use nyxstone_tricore_gcc.Assemble.Checks.{concluded-Accepted, Accepted-concluded}
use nyxstone_tricore_gcc.Api.{AssembleWithRelocsResult, as_relocs_result, assemble_with_relocs}

abbrev pub IsHint : List LabelDefinition → Bytes → ℕ → Type 0
IsHint labels name a =
    ((earlier : List LabelDefinition) × (l : LabelDefinition) × (later : List LabelDefinition)
      × (labels ≡ earlier ++ l ∷ later)
      × All (λ k. k.name ≢ name) earlier
      × (l.name ≡ name)
      × (a ≡ l.address))
    ⊎ (All (λ k. k.name ≢ name) labels × (a ≡ 0))

pub address_hint-IsHint :
    (labels : List LabelDefinition) (name : Bytes) → IsHint labels name (address_hint labels name)
unfolding address_hint
address_hint-IsHint [] name = inr (tt, refl)
address_hint-IsHint (l ∷ ls) name = elim (Bool-cases (bytes_eq l.name name)) [
  | inl e ↦ inl ([], l, ls, refl, tt, (bytes_eq_iff l.name name).0 e, rw e refl)
  | inr n ↦
      let differs : l.name ≢ name = λ q. cc (n, (bytes_eq_iff l.name name).1 q) in
      let same : address_hint (l ∷ ls) name ≡ address_hint ls name = rw (n, address_hint) in
      elim (address_hint-IsHint ls name) [
        | inl (earlier, k, later, a, b, c, d) ↦
            inl (l ∷ earlier, k, later, ap (λ t. l ∷ t) a, (differs, b), c, same ∙ d)
        | inr (a, b) ↦ inr ((differs, a), same ∙ b)
      ]
]

-- A reported relocation and the one of gas that it stands for.
abbrev pub IsReported : ℕ → List LabelDefinition → RawReloc → RelocationInfo → Type 0
IsReported address labels raw info =
    (info.offset ≡ (address + raw.offset) % 2 ^ 64)
    × (info.addend ≡ (if raw.has_addend then some raw.addend else none))
    × (info.symbol.name ≡ text_or_empty raw.symbol_name)
    × IsHint labels info.symbol.name info.symbol.address
    × (info.relocation_type ≡ raw.reloc_type)

abbrev pub AllReported : ℕ → List LabelDefinition → List RawReloc → List RelocationInfo → Type 0
AllReported address labels [] [] = Unit
AllReported address labels (r ∷ rs) (i ∷ is) =
    IsReported address labels r i × AllReported address labels rs is
AllReported address labels _ _ = ⊥

map-AllReported :
    (address : ℕ) (labels : List LabelDefinition) (rs : List RawReloc)
    → AllReported address labels rs (map (relocation_info address labels) rs)
unfolding relocation_info
map-AllReported address labels [] = tt
map-AllReported address labels (r ∷ rs) = (
  (refl, refl, refl, address_hint-IsHint labels (text_or_empty r.symbol_name), refl),
  map-AllReported address labels rs,
)

abbrev pub without_hint : RelocationInfo → ℕ × Option ℤ × Bytes × ℕ
without_hint i = (i.offset, i.addend, i.symbol.name, i.relocation_type)

map-without_hint :
    (address : ℕ) (labels others : List LabelDefinition) (rs : List RawReloc)
    → map without_hint (map (relocation_info address others) rs)
      ≡ map without_hint (map (relocation_info address labels) rs)
unfolding relocation_info
map-without_hint address labels others [] = refl
map-without_hint address labels others (r ∷ rs) =
    ap (λ t. without_hint (relocation_info address labels r) ∷ t)
      (map-without_hint address labels others rs)

do_assemble-labels :
    (g : Glue) (source : Bytes) (address : ℕ) (labels others : List LabelDefinition) (s : g.State)
    (c : AssembleCore)
    → (do_assemble g source address labels true s).0 ≡ value c
    → ((do_assemble g source address others true s).1
        ≡ (do_assemble g source address labels true s).1)
      × (c ≡ core g address labels true (do_assemble g source address labels true s).1)
      × ((do_assemble g source address others true s).0
          ≡ value (core g address others true (do_assemble g source address labels true s).1))
unfolding do_assemble assembled parsed parse_failed
do_assemble-labels g source address labels others s c h =
    let a =
      concluded-Accepted g address labels true (assembled g source address labels true s) c h in
    (
      refl,
      a.result,
      Accepted-concluded g address others true (assembled g source address others true s) _
          (record {
            no_directive_error = a.no_directive_error;
            no_violation = a.no_violation;
            no_parse_error = a.no_parse_error;
            all_supported = a.all_supported;
            no_fixup_error = a.no_fixup_error;
            all_resolved = refl;
            result = refl;
          }),
    )

module _ (g : Glue) (print_insn : PrintInsn) (source : Bytes) (address : ℕ) (s : g.State) where
  -- A result of `assemble_with_relocs` lists the relocations of the final state, each once and in
  -- order: at its offset from the start address, modulo 2 ^ 64, with its addend if it has one, its
  -- type, and its symbol's name, empty if it has none, with the address of the first label of that
  -- name or 0.
  pub assemble_with_relocs-AllReported :
      (labels : List LabelDefinition) {r : AssembleWithRelocsResult}
      → (assemble_with_relocs g print_insn source address labels s).0 ≡ value r
      → AllReported address labels
          (g.collect_relocs (assemble_with_relocs g print_insn source address labels s).1)
          r.relocations
  unfolding assemble_with_relocs
  assemble_with_relocs-AllReported labels {r} h =
      let (c, ok, e) =
        >>=-eq-value (do_assemble g source address labels true s).0
          (λ c. value (as_relocs_result c)) h in
      let final = (do_assemble g source address labels true s).1 in
      let read : c.relocations ≡ map (relocation_info address labels) (g.collect_relocs final) =
        unfold do_assemble core in
        ap (λ x. x.relocations)
          (concluded-Accepted g address labels true (assembled g source address labels true s) c
            (unfold do_assemble in ok)).result in
      let same : r.relocations ≡ c.relocations = cc in
      rw (same, read) (map-AllReported address labels (g.collect_relocs final))

  -- Label definitions are hints only: with other ones, `assemble_with_relocs` leaves the same state
  -- and returns the same bytes and as many relocations, at the same offsets and with the same addends,
  -- symbol names and types.
  pub assemble_with_relocs-labels :
      (labels others : List LabelDefinition) {r : AssembleWithRelocsResult}
      → (assemble_with_relocs g print_insn source address labels s).0 ≡ value r
      → ((assemble_with_relocs g print_insn source address others s).1
          ≡ (assemble_with_relocs g print_insn source address labels s).1)
        × (q : AssembleWithRelocsResult) × ((assemble_with_relocs g print_insn source address others
              s).0
            ≡ value q)
        × (q.bytes ≡ r.bytes)
        × (map without_hint q.relocations ≡ map without_hint r.relocations)
  unfolding assemble_with_relocs
  assemble_with_relocs-labels labels others {r} h =
      let (c, ok, e) =
        >>=-eq-value (do_assemble g source address labels true s).0
          (λ c. value (as_relocs_result c)) h in
      let (state, result, other) = do_assemble-labels g source address labels others s c ok in
      let final = (do_assemble g source address labels true s).1 in
      let was : as_relocs_result (core g address labels true final) ≡ r = r_is result e in
      (
        state,
        as_relocs_result (core g address others true final),
        ap (λ r. r >>= (λ c. value (as_relocs_result c))) other,
        unfold core in ap (λ t. t.bytes) was,
        unfold core in
            map-without_hint address labels others (g.collect_relocs final)
            ∙ ap (λ t. map without_hint t.relocations) was,
      )
    where
      r_is :
          {c : AssembleCore} {t : AssembleCore}
          → c ≡ t
          → value (as_relocs_result c) ≡ value r
          → as_relocs_result t ≡ r
      r_is p e = cc
