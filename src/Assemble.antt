-- ===== src/Assemble.antt =====
-- src/nyxstone.cpp, `do_assemble` with `clean_gas_diag`, and the records of
-- include/nyxstone/nyxstone.h that it fills.
pub mod Checks
pub mod TextOnly
use nyxstone_tricore_gcc.Base.{
  ℕ, Bool, not, ◌&&◌, ◌||◌, Option, none, some, List, [], ◌∷◌, ◌++◌, map, ltb, ◌==◌, if◌then◌else◌,
  is_empty, Bytes, codes, bytes_eq, c_str, ℤ,
}
use nyxstone_tricore_gcc.Text.{ltrim, rtrim}
use nyxstone_tricore_gcc.Expected.{Expected, value, error}
use nyxstone_tricore_gcc.Driver.{GlueCall, Driver}
use nyxstone_tricore_gcc.Glue.{RawReloc, Glue}
use nyxstone_tricore_gcc.Process.{clean, read_source}
use nyxstone_tricore_gcc.Disassemble.{u64_add}

pub record LabelDefinition : Type 0 where
  pub name : Bytes
  pub address : ℕ

pub record RelocationSymbol : Type 0 where
  pub name : Bytes
  pub address : ℕ

pub record RelocationInfo : Type 0 where
  pub offset : ℕ
  pub addend : Option ℤ
  pub symbol : RelocationSymbol
  pub relocation_type : ℕ

pub record AssembleCore : Type 0 where
  pub bytes : Bytes
  pub relocations : List RelocationInfo

-- The lines that `std::getline` reads; an empty one behind a last newline is skipped by the caller.
unfoldable pub lines_from : Bytes → Bytes → List Bytes
lines_from cur [] = cur ∷ []
lines_from cur (c ∷ cs) =
    let cut = cur ∷ lines_from [] cs in
    let more = lines_from (cur ++ c ∷ []) cs in if c == b'\n' then cut else more

-- One line of the captured text behind what is kept so far.
unfoldable pub add_line : Bytes → Bytes → Bytes
unfolding ltrim rtrim bytes_eq
add_line out line =
    let l = ltrim (rtrim line) in
    if is_empty l || bytes_eq l (codes "Assembler messages:")
    then out
    else if is_empty out
    then l
    else out ++ (codes "; " ++ l)

unfoldable pub add_lines : Bytes → List Bytes → Bytes
unfolding add_line
add_lines out [] = out
add_lines out (l ∷ ls) = add_lines (add_line out l) ls

unfoldable pub clean_gas_diag : Bytes → Bytes
unfolding add_lines lines_from c_str
clean_gas_diag captured = add_lines [] (lines_from [] (c_str captured))

-- The address of the first label of that name; 0 is the field's default.
unfoldable pub address_hint : List LabelDefinition → Bytes → ℕ
unfolding bytes_eq
address_hint [] name = 0
address_hint (l ∷ ls) name = if bytes_eq l.name name then l.address else address_hint ls name

abbrev pub text_or_empty : Option Bytes → Bytes
text_or_empty none = []
text_or_empty (some s) = s

unfoldable pub relocation_info : ℕ → List LabelDefinition → RawReloc → RelocationInfo
unfolding address_hint
relocation_info address labels r = record {
  offset = u64_add address r.offset;
  addend = if r.has_addend then some r.addend else none;
  symbol = record {
    name = text_or_empty r.symbol_name;
    address = address_hint labels (text_or_empty r.symbol_name);
  };
  relocation_type = r.reloc_type;
}

-- The names of the undefined labels, behind those of the earlier ones.
unfoldable pub join_names : Bytes → List RawReloc → Bytes
join_names names [] = names
join_names names (r ∷ rs) =
    join_names
      (elim r.symbol_name [
        | none ↦ names
        | some n ↦ (if is_empty names then [] else names ++ codes ", ") ++ n
      ])
      rs

unfoldable pub undefined_labels : List RawReloc → Bytes
unfolding join_names
undefined_labels raw =
    let names = join_names [] raw in
    codes "assemble: undefined label(s): "
    ++ ((if is_empty names then codes "<unknown>" else names)
        ++ codes " (define them in the source or pass a LabelDefinition)")

abbrev pub section_error : Bytes
section_error = codes "assemble: directive switches active section (only .text is allowed)"

unfoldable pub unsupported_error : Bytes → Bytes
unsupported_error bad =
    codes "assemble: unsupported relocation "
    ++ (bad ++ codes " (local branch displacement could not be encoded)")

abbrev or_default : Bytes → Bytes → Bytes
or_default diag text = codes "assemble: " ++ (if is_empty diag then text else diag)

module _ (g : Glue) where
  open g use {
    State, reset, begin_capture, end_capture, perform, define_abs, had_errors, resolve_text_fixups,
    unsupported_reloc, collect_relocs, extract_text_bytes,
  }

  unfoldable pub perform_all : List GlueCall → State → State
  perform_all [] s = s
  perform_all (c ∷ cs) s = perform_all cs (perform c s)

  unfoldable pub define_labels : List LabelDefinition → State → State
  unfolding c_str
  define_labels [] s = s
  define_labels (l ∷ ls) s = define_labels ls (define_abs (c_str l.name) l.address s)

  -- The state behind the source and the label definitions, and what was found in the source.
  unfoldable pub parsed : Bytes → List LabelDefinition → Bool → State → State
  unfolding perform_all define_labels
  parsed source labels with_relocs s =
      let s' = perform_all (read_source source).calls (begin_capture (reset s)) in
      if with_relocs then s' else define_labels labels s'

  -- What the checks behind the fixup pass look at.
  pub record Outcome : Type 0 where
    pub driver : Driver
    pub parse_err : Bool
    pub unresolved : ℕ
    pub diag : Bytes
    pub errs_before : ℕ
    pub final : State

  -- `parse_err`
  unfoldable pub parse_failed : Bytes → List LabelDefinition → Bool → State → Bool
  unfolding parsed
  parse_failed source labels with_relocs s =
      not (had_errors (parsed source labels with_relocs s) == had_errors (reset s))

  unfoldable pub resolved : Bool → ℕ → State → ℕ × State
  resolved clean address s = if clean then resolve_text_fixups address s else (0, s)

  -- Up to and with `clean_gas_diag(nyxstone_glue_end_capture())`.
  unfoldable pub assembled : Bytes → ℕ → List LabelDefinition → Bool → State → Outcome
  unfolding parsed parse_failed resolved clean_gas_diag read_source
  assembled source address labels with_relocs s =
      let d = read_source source in
      let bad_parse = parse_failed source labels with_relocs s in
      let clean = not bad_parse && not d.section_violation && is_empty d.directive_error in
      let (unresolved, s') = resolved clean address (parsed source labels with_relocs s) in
      let (captured, s'') = end_capture s' in
      record {
        driver = d;
        parse_err = bad_parse;
        unresolved = unresolved;
        diag = clean_gas_diag captured;
        errs_before = had_errors (reset s);
        final = s'';
      }

  unfoldable pub core : ℕ → List LabelDefinition → Bool → State → AssembleCore
  unfolding relocation_info
  core address labels with_relocs s = record {
    bytes = extract_text_bytes s;
    relocations =
        if with_relocs then map (relocation_info address labels) (collect_relocs s) else [];
  }

  -- The checks, in their order, and the result.
  unfoldable pub concluded : ℕ → List LabelDefinition → Bool → Outcome → Expected AssembleCore
  unfolding core undefined_labels
  concluded address labels with_relocs o =
      if not (is_empty o.driver.directive_error)
      then error (codes "assemble: " ++ o.driver.directive_error)
      else if o.driver.section_violation
      then error section_error
      else if o.parse_err
      then error (or_default o.diag (codes "gas parse/encode error"))
      else elim (unsupported_reloc o.final) [
        | some bad ↦ error (unsupported_error bad)
        | none ↦
            if not (had_errors o.final == o.errs_before)
            then error (or_default o.diag (codes "gas error during relax/fixup"))
            else if not with_relocs && ltb 0 o.unresolved
            then error (undefined_labels (collect_relocs o.final))
            else value (core address labels with_relocs o.final)
      ]

  unfoldable pub do_assemble :
      Bytes → ℕ → List LabelDefinition → Bool → State → Expected AssembleCore × State
  unfolding assembled concluded
  do_assemble source address labels with_relocs s =
      let o = assembled source address labels with_relocs s in
      (concluded address labels with_relocs o, o.final)
