-- ===== src/Disassemble.antt =====
-- src/nyxstone.cpp, `do_disassemble`, and the instruction record of include/nyxstone/nyxstone.h.
pub mod Cover
use nyxstone_tricore_gcc.Base.{
  ℕ, zero, suc, ◌+◌, ◌-◌, ◌/◌, ◌%◌, ◌^◌, Bool, not, ◌||◌, Option, none, some, List, [], ◌∷◌, ◌++◌,
  ltb, ◌==◌, if◌then◌else◌, length, take, drop, Bytes, codes, pos, ltb_ℤ,
}
use nyxstone_tricore_gcc.Expected.{Expected, value, error}
use nyxstone_tricore_gcc.Decoder.{PrintInsn, Decoded, decoded, disasm_one}

pub record Instruction : Type 0 where
  pub address : ℕ
  pub assembly : Bytes
  pub bytes : Bytes

-- Arithmetic on `uint64_t`.
abbrev pub u64_add : ℕ → ℕ → ℕ
u64_add a b = (a + b) % 2 ^ 64

abbrev hex_digit : ℕ → ℕ
hex_digit v = if ltb v 10 then v + b'0' else v - 10 + b'a'

-- `std::hex`; `fuel` bounds the count of digits.
unfoldable pub hex_digits : ℕ → ℕ → Bytes
hex_digits zero n = hex_digit n ∷ []
hex_digits (suc fuel) n =
    let more = hex_digits fuel (n / 16) ++ hex_digit (n % 16) ∷ [] in
    if ltb n 16 then hex_digit n ∷ [] else more

unfoldable pub decode_error : ℕ → Bytes
unfolding hex_digits
decode_error off =
    codes "disassemble: libopcodes failed to decode at offset 0x" ++ hex_digits off off

-- `count == 0 || decoded < count`
abbrev pub may_decode : ℕ → ℕ → Bool
may_decode count decoded = count == 0 || ltb decoded count

-- `rc <= 0 || n == 0`
unfoldable pub failed : Decoded → Bool
failed d = not (ltb_ℤ (pos 0) d.rc) || d.consumed == 0

-- `ins.assembly = text ? text : ""`
unfoldable pub instruction : ℕ → Decoded → Bytes → Instruction
instruction addr d rest = record {
  address = addr;
  assembly = elim d.text [ none ↦ [] | some t ↦ t ];
  bytes = take d.consumed rest;
}

abbrev pub prepend :
    Instruction → Option (Expected (List Instruction)) → Option (Expected (List Instruction))
prepend i none = none
prepend i (some (error e)) = some (error e)
prepend i (some (value l)) = some (value (i ∷ l))

-- The loop, on the bytes from `off` on; `none` if the fuel runs out.
module _ (print_insn : PrintInsn) (address count : ℕ) where
  unfoldable pub disassemble_loop : ℕ → ℕ → ℕ → Bytes → Option (Expected (List Instruction))
  disassemble_loop fuel off done [] = some (value [])
  disassemble_loop zero off done (c ∷ cs) = none
  disassemble_loop (suc fuel) off done (c ∷ cs) =
      let d = disasm_one print_insn (c ∷ cs) (u64_add address off) in
      let go = disassemble_loop fuel (off + d.consumed) (suc done) (drop d.consumed (c ∷ cs)) in
      let more = prepend (instruction (u64_add address off) d (c ∷ cs)) go in
      if not (may_decode count done)
      then some (value [])
      else if failed d
      then some (error (decode_error off))
      else more

abbrev pub result_of : Option (Expected (List Instruction)) → Expected (List Instruction)
result_of none = error []
result_of (some r) = r

-- Each round takes a byte or more, so the fuel is enough: `disassemble_loop_total`.
unfoldable pub do_disassemble : PrintInsn → Bytes → ℕ → ℕ → Expected (List Instruction)
unfolding disassemble_loop failed instruction disasm_one decode_error
do_disassemble print_insn bytes address count =
    result_of (disassemble_loop print_insn address count (length bytes) 0 0 bytes)
