-- ===== src/GlueLayer/Encode/Slices.antt =====
-- What a write leaves alone: the bytes of any range that is apart from it.
use nyxstone_tricore_gcc.Base.{
  ℕ, zero, suc, ◌+◌, ◌*◌, ◌≤◌, bit_or, ◌≡◌, refl, sym, ap, ◌∙◌, ◌⊎◌, inl, inr, [], ◌∷◌, arith,
  length, take, drop, Bytes,
}
use nyxstone_tricore_gcc.GlueLayer.Encode.{put_bytes, shl32, rd_loop, rd_le}

-- `n` bytes from `a` on.
abbrev pub slice : ℕ → ℕ → Bytes → Bytes
slice a n buf = take n (drop a buf)

-- Ranges, given by their beginnings and lengths, with no byte in common.
abbrev pub Apart : ℕ × ℕ → ℕ × ℕ → Type 0
Apart (a, n) (b, m) = (a + n ≤ b) ⊎ (b + m ≤ a)

pub Apart-sym : (r s : ℕ × ℕ) → Apart r s → Apart s r
Apart-sym r s (inl h) = inr h
Apart-sym r s (inr h) = inl h

behind-put_bytes :
    (bs buf : Bytes) (a : ℕ) → length bs ≤ a → drop a (put_bytes 0 bs buf) ≡ drop a buf
unfolding put_bytes
behind-put_bytes bs [] a h = refl
behind-put_bytes [] (c ∷ buf) a h = refl
behind-put_bytes (b ∷ bs) (c ∷ buf) zero h = absurd (omega arith)
behind-put_bytes (b ∷ bs) (c ∷ buf) (suc a) h = behind-put_bytes bs buf a (omega arith)

pub slice-put_bytes :
    (at : ℕ) (bs buf : Bytes) (a n : ℕ)
    → Apart (a, n) (at, length bs)
    → slice a n (put_bytes at bs buf) ≡ slice a n buf
unfolding put_bytes
slice-put_bytes at bs buf a zero h = refl
slice-put_bytes at bs [] a (suc n) h = refl
slice-put_bytes zero bs (c ∷ buf) a (suc n) (inl h) = absurd (omega arith)
slice-put_bytes zero bs (c ∷ buf) a (suc n) (inr h) =
    ap (take (suc n)) (behind-put_bytes bs (c ∷ buf) a (omega arith))
slice-put_bytes (suc at) bs (c ∷ buf) zero (suc n) (inl h) =
    ap (λ r. c ∷ r) (slice-put_bytes at bs buf 0 n (inl (omega arith)))
slice-put_bytes (suc at) bs (c ∷ buf) zero (suc n) (inr h) = absurd (omega arith)
slice-put_bytes (suc at) bs (c ∷ buf) (suc a) (suc n) (inl h) =
    slice-put_bytes at bs buf a (suc n) (inl (omega arith))
slice-put_bytes (suc at) bs (c ∷ buf) (suc a) (suc n) (inr h) =
    slice-put_bytes at bs buf a (suc n) (inr (omega arith))

pub length-put_bytes : (at : ℕ) (bs buf : Bytes) → length (put_bytes at bs buf) ≡ length buf
unfolding put_bytes
length-put_bytes at bs [] = refl
length-put_bytes zero [] (c ∷ buf) = refl
length-put_bytes zero (b ∷ bs) (c ∷ buf) = ap suc (length-put_bytes zero bs buf)
length-put_bytes (suc at) bs (c ∷ buf) = ap suc (length-put_bytes at bs buf)

rd_loop-take : (n i w : ℕ) (bs : Bytes) → rd_loop n i w (take n bs) ≡ rd_loop n i w bs
unfolding rd_loop
rd_loop-take zero i w bs = refl
rd_loop-take (suc n) i w [] = refl
rd_loop-take (suc n) i w (b ∷ bs) = rd_loop-take n (i + 1) (bit_or w (shl32 b (8 * i))) bs

-- Reading looks at its own bytes only.
pub rd_le-slice :
    (x y : Bytes) (at n : ℕ) → slice at n x ≡ slice at n y → rd_le x at n ≡ rd_le y at n
unfolding rd_le
rd_le-slice x y at n e =
    sym (rd_loop-take n 0 0 (drop at x)) ∙ ap (rd_loop n 0 0) e ∙ rd_loop-take n 0 0 (drop at y)
