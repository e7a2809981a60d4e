-- ===== src/Decoder.antt =====
-- src/nyxstone_glue.c, `nyxstone_glue_disasm_one` and its callbacks. libopcodes' decoder is the
-- parameter `print_insn`: given the bytes from the instruction on and its address, its result and
-- what it prints through the callbacks, in order. Memory is not exhausted.
pub mod Addresses
use nyxstone_tricore_gcc.Base.{
  ℕ, zero, suc, ◌+◌, ◌-◌, ◌/◌, ◌%◌, ◌^◌, Bool, true, false, not, ◌&&◌, ◌||◌, Option, none, some,
  List, [], ◌∷◌, ◌++◌, ltb, ◌==◌, if◌then◌else◌, take, Bytes, codes, c_str, ℤ, pos, negsuc,
}

-- What one call of a callback prints: a formatted text, or the address of a branch target.
pub data Piece : Type 0 where
  printed_text : Bytes → Piece
  printed_address : ℕ → Piece

abbrev pub PrintInsn : Type 0
PrintInsn = Bytes → ℕ → ℤ × List Piece

-- A digit of `printf`'s `%x`.
unfoldable pub hex_digit : ℕ → ℕ
hex_digit d = if ltb d 10 then d + b'0' else d - 10 + b'a'

-- `%x` on a number below `16 ^ suc n`.
unfoldable pub hex_digits : ℕ → ℕ → Bytes
unfolding hex_digit
hex_digits zero v = hex_digit v ∷ []
hex_digits (suc n) v =
    let more = hex_digits n (v / 16) ++ hex_digit (v % 16) ∷ [] in
    if ltb v 16 then hex_digit v ∷ [] else more

-- `dis_print_address`: the text that it hands to the printf callback.
unfoldable pub dis_print_address : ℕ → Bytes
unfolding hex_digits
dis_print_address addr = codes "0x" ++ hex_digits 7 (addr % 2 ^ 32)

unfoldable pub text_of_piece : Piece → Bytes
unfolding dis_print_address
text_of_piece (printed_text text) = text
text_of_piece (printed_address addr) = dis_print_address addr

-- `dis_printf` and `dis_printf_styled`: the text goes through a buffer of 256 bytes with a NUL, so
-- 255 bytes of it are appended at most. The buffer stays NULL (`none`) until a text is not empty.
unfoldable pub dis_printf : Option Bytes → Bytes → Option Bytes
dis_printf buf [] = buf
dis_printf none (c ∷ cs) = some (take 255 (c ∷ cs))
dis_printf (some b) (c ∷ cs) = some (b ++ take 255 (c ∷ cs))

unfoldable pub dis_print_all : Option Bytes → List Piece → Option Bytes
unfolding dis_printf text_of_piece
dis_print_all buf [] = buf
dis_print_all buf (t ∷ ts) = dis_print_all (dis_printf buf (text_of_piece t)) ts

-- `while (*p && *p != '>') ++p` stops at a `>`.
unfoldable pub has_close : Bytes → Bool
has_close [] = false
has_close (c ∷ cs) = c == b'>' || has_close cs

-- At `r`: a space, then `<`, and a `>` behind them.
unfoldable pub opens_annotation : ℕ → Bytes → Bool
unfolding has_close
opens_annotation c [] = false
opens_annotation c (d ∷ cs) = c == b' ' && d == b'<' && has_close cs

-- The loop of `strip_addr_annotation`; the flag says that `r` is on its way to the `>` at `p`.
unfoldable pub strip_annotation_from : Bool → Bytes → Bytes
unfolding opens_annotation
strip_annotation_from inside [] = []
strip_annotation_from true (c ∷ cs) = strip_annotation_from (not (c == b'>')) cs
strip_annotation_from false (c ∷ cs) =
    let skipped = strip_annotation_from true cs in
    let kept = c ∷ strip_annotation_from false cs in if opens_annotation c cs then skipped else kept

unfoldable pub strip_addr_annotation : Bytes → Bytes
unfolding strip_annotation_from
strip_addr_annotation = strip_annotation_from false

-- The result, the text at `*text_out` and the count at `*n_consumed`.
pub record Decoded : Type 0 where
  pub rc : ℤ
  pub text : Option Bytes
  pub consumed : ℕ

-- `ctx.buf` with its annotations stripped, or `strdup("")`.
unfoldable pub text_of : Option Bytes → Bytes
unfolding strip_addr_annotation c_str
text_of none = []
text_of (some b) = strip_addr_annotation (c_str b)

unfoldable pub decoded : ℤ → Option Bytes → Decoded
unfolding text_of
decoded (pos zero) buf = record { rc = pos 0; text = none; consumed = 0 }
decoded (pos (suc n)) buf = record { rc = pos (suc n); text = some (text_of buf); consumed = suc n }
decoded (negsuc n) buf = record { rc = negsuc n; text = none; consumed = 0 }

unfoldable pub disasm_one : PrintInsn → Bytes → ℕ → Decoded
unfolding decoded dis_print_all
disasm_one print_insn bytes addr =
    let (n, pieces) = print_insn bytes addr in decoded n (dis_print_all none pieces)
