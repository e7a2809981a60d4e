-- ===== src/GlueLayer/Encode/Operand.antt =====
-- What an instruction word means, independently of the code that builds it: the formats of the
-- TriCore's operands.
use nyxstone_tricore_gcc.Base.{ℕ, ◌+◌, ◌-◌, ◌*◌, ◌/◌, ◌%◌, ◌^◌, ◌<◌, ◌≡◌, ltb, if◌then◌else◌}
use nyxstone_tricore_gcc.GlueLayer.Encode.{
  Form, rel24, abs24, abs18, abs18_14, hi, hiadj, lo, const16, lo2, off16, off10, rel15, rel8, rel4,
  rel4_2, rel5, sconst9, zconst9, const8, illegal_form, unknown_form,
}

abbrev pub field : ℕ → ℕ → ℕ → ℕ
field k w x = x / 2 ^ k % 2 ^ w

-- A field of `w` bits as a `long`, in two's complement.
abbrev pub sign_extend : ℕ → ℕ → ℕ
sign_extend w x = if ltb x (2 ^ (w - 1)) then x else x + 2 ^ 64 - 2 ^ w

-- The 24 bits of the B format, and the 18 of the ABS format.
abbrev pub bits24 : ℕ → ℕ
bits24 w = field 16 16 w + 2 ^ 16 * field 8 8 w

abbrev pub bits18 : ℕ → ℕ
bits18 w = field 16 6 w + 2 ^ 6 * field 28 4 w + 2 ^ 10 * field 22 4 w + 2 ^ 14 * field 12 4 w

-- The 16 bits of the BOL format.
abbrev pub bits16 : ℕ → ℕ
bits16 w = field 16 6 w + 2 ^ 6 * field 28 4 w + 2 ^ 10 * field 22 6 w

-- The operand in a word, as the number that the processor takes it for.
unfoldable pub operand : Form → ℕ → ℕ
operand rel24 w = sign_extend 25 (2 * bits24 w)
operand abs24 w = 2 * (bits24 w % 2 ^ 20) + 2 ^ 28 * (bits24 w / 2 ^ 20)
operand abs18 w = bits18 w % 2 ^ 14 + 2 ^ 28 * (bits18 w / 2 ^ 14)
operand abs18_14 w = 2 ^ 14 * bits18 w
operand hi w = field 12 16 w
operand hiadj w = field 12 16 w
operand lo w = field 12 16 w
operand const16 w = sign_extend 16 (field 12 16 w)
operand lo2 w = bits16 w
operand off16 w = sign_extend 16 (bits16 w)
operand off10 w = sign_extend 10 (field 16 6 w + 2 ^ 6 * field 28 4 w)
operand rel15 w = sign_extend 16 (2 * field 16 15 w)
operand rel8 w = sign_extend 9 (2 * field 8 8 w)
operand rel4 w = 2 * field 8 4 w
operand rel4_2 w = 2 ^ 64 - 32 + 2 * field 8 4 w
operand rel5 w = 2 * (field 8 4 w + 2 ^ 4 * field 7 1 w)
operand sconst9 w = sign_extend 9 (field 12 9 w)
operand zconst9 w = field 12 9 w
operand const8 w = field 8 8 w
operand illegal_form w = 0
operand unknown_form w = 0

-- The part of a value that a form has room for: absolute addresses have 32 bits, the others are
-- whole, or half a word. The high half for `hiadj` is one more if the low half is negative.
unfoldable pub meant : Form → ℕ → ℕ
meant abs24 v = v % 2 ^ 32
meant abs18 v = v % 2 ^ 32
meant abs18_14 v = v % 2 ^ 32
meant hi v = v / 2 ^ 16 % 2 ^ 16
meant hiadj v = (v + 2 ^ 15) / 2 ^ 16 % 2 ^ 16
meant lo v = v % 2 ^ 16
meant lo2 v = v % 2 ^ 16
meant f v = v

-- A word without its operand.
unfoldable pub opcode : Form → ℕ → ℕ
opcode rel24 w = field 0 8 w
opcode abs24 w = field 0 8 w
opcode abs18 w = field 0 12 w + 2 ^ 26 * field 26 2 w
opcode abs18_14 w = field 0 12 w + 2 ^ 26 * field 26 2 w
opcode hi w = field 0 12 w + 2 ^ 28 * field 28 4 w
opcode hiadj w = field 0 12 w + 2 ^ 28 * field 28 4 w
opcode lo w = field 0 12 w + 2 ^ 28 * field 28 4 w
opcode const16 w = field 0 12 w + 2 ^ 28 * field 28 4 w
opcode lo2 w = field 0 16 w
opcode off16 w = field 0 16 w
opcode off10 w = field 0 16 w + 2 ^ 22 * field 22 6 w
opcode rel15 w = field 0 16 w + 2 ^ 31 * field 31 1 w
opcode rel8 w = field 0 8 w + 2 ^ 16 * field 16 16 w
opcode rel4 w = field 0 8 w + 2 ^ 12 * field 12 20 w
opcode rel4_2 w = field 0 8 w + 2 ^ 12 * field 12 20 w
opcode rel5 w = field 0 7 w + 2 ^ 12 * field 12 20 w
opcode sconst9 w = field 0 12 w + 2 ^ 21 * field 21 11 w
opcode zconst9 w = field 0 12 w + 2 ^ 21 * field 21 11 w
opcode const8 w = field 0 8 w + 2 ^ 16 * field 16 16 w
opcode illegal_form w = 0
opcode unknown_form w = 0

-- A word that carries the value in the operand and the rest of the old word.
pub record Carries (f : Form) (op v w : ℕ) : Type 0 where
  pub is_word : w < 2 ^ 32
  pub operand_is : operand f w ≡ meant f v
  pub opcode_is : opcode f w ≡ opcode f op
