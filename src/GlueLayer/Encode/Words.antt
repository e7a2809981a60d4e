-- ===== src/GlueLayer/Encode/Words.antt =====
-- src/nyxstone_glue.c, `rd_le` and `wr_le`, and the operators on `uint32_t` and `long`.
use nyxstone_tricore_gcc.Base.{
  ℕ, zero, suc, ◌+◌, ◌-◌, ◌*◌, ◌/◌, ◌%◌, ◌^◌, bit_and, bit_or, Bool, not, ◌||◌, [], ◌∷◌, ltb, ◌==◌,
  if◌then◌else◌, drop, Bytes, ℤ, pos, negsuc, ltb_ℤ,
}
use nyxstone_tricore_gcc.Data.{le_bytes}

-- `memcpy` into a buffer; what does not fit is dropped, which no call makes happen.
unfoldable pub put_bytes : ℕ → Bytes → Bytes → Bytes
put_bytes i bs [] = []
put_bytes zero [] (c ∷ buf) = c ∷ buf
put_bytes zero (b ∷ bs) (c ∷ buf) = b ∷ put_bytes zero bs buf
put_bytes (suc i) bs (c ∷ buf) = c ∷ put_bytes i bs buf

-- On `uint32_t`.
abbrev pub shl32 : ℕ → ℕ → ℕ
shl32 x k = x * 2 ^ k % 2 ^ 32

abbrev pub not32 : ℕ → ℕ
not32 m = 2 ^ 32 - 1 - m

abbrev pub low32 : ℕ → ℕ
low32 v = v % 2 ^ 32

-- The loop of `rd_le` from byte `i` on.
unfoldable pub rd_loop : ℕ → ℕ → ℕ → Bytes → ℕ
rd_loop zero i w bs = w
rd_loop (suc n) i w [] = w
rd_loop (suc n) i w (b ∷ bs) = rd_loop n (i + 1) (bit_or w (shl32 b (8 * i))) bs

unfoldable pub rd_le : Bytes → ℕ → ℕ → ℕ
unfolding rd_loop
rd_le buf at n = rd_loop n 0 0 (drop at buf)

unfoldable pub wr_le : Bytes → ℕ → ℕ → ℕ → Bytes
unfolding put_bytes le_bytes
wr_le buf at n w = put_bytes at (le_bytes n w) buf

-- What a `long` stands for.
unfoldable pub signed64 : ℕ → ℤ
signed64 v = if ltb v (2 ^ 63) then pos v else negsuc (2 ^ 64 - 1 - v)

-- `val < lo || val > hi`
abbrev pub outside : ℤ → ℤ → ℕ → Bool
outside lo hi v = ltb_ℤ (signed64 v) lo || ltb_ℤ hi (signed64 v)

-- `val & mask` is not 0
abbrev pub has_any : ℕ → ℕ → Bool
has_any v mask = not (bit_and v mask == 0)

-- `val >>= 1` on a `long`
abbrev pub sar1 : ℕ → ℕ
sar1 v = v / 2 + (if ltb v (2 ^ 63) then 0 else 2 ^ 63)
