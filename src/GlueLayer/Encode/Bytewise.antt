-- ===== src/GlueLayer/Encode/Bytewise.antt =====
-- `rd_le` and `wr_le` at a place of a buffer.
use nyxstone_tricore_gcc.Base.Fields.{bit_or-split, bit_or-zero, zero-bit_or}
use nyxstone_tricore_gcc.Base.Bits.{pow_pos}
use nyxstone_tricore_gcc.Data.Words.{value_of, value_of-le_bytes, length-le_bytes}
use nyxstone_tricore_gcc.Base.{
  ℕ, zero, suc, ◌+◌, ◌*◌, ◌/◌, ◌%◌, ◌^◌, ◌≤◌, ◌<◌, bit_or, ◌≡◌, refl, sym, ap, ◌∙◌, [], ◌∷◌, ◌++◌,
  arith, length, take, drop, All, Bytes,
}
use nyxstone_tricore_gcc.Data.{le_bytes}
use nyxstone_tricore_gcc.GlueLayer.Encode.{put_bytes, shl32, rd_loop, rd_le, wr_le}
use mathlib.Core.Path.{ap₂}
use native.Mathlib.Nat.{pow-succ', one-le-pow}

abbrev pub AreBytes : Bytes → Type 0
AreBytes = All (λ b. b < 256)

above : (k acc b : ℕ) → acc < 2 ^ k → bit_or acc (2 ^ k * b) ≡ acc + 2 ^ k * b
above k acc b h =
    let left : acc ≡ acc + 2 ^ k * 0 = omega arith in
    let right : 2 ^ k * b ≡ 0 + 2 ^ k * b = omega arith in
    ap₂ bit_or left right
    ∙ bit_or-split k acc 0 0 b h (pow_pos k)
    ∙ ap₂ (λ (x y : ℕ). x + 2 ^ k * y) (bit_or-zero acc) (zero-bit_or b)

-- Byte `i` of a word is put above the bytes below it.
put_byte :
    (i acc b : ℕ)
    → i < 4
    → acc < 2 ^ (8 * i)
    → b < 256
    → (bit_or acc (shl32 b (8 * i)) ≡ acc + 2 ^ (8 * i) * b)
      × (acc + 2 ^ (8 * i) * b < 2 ^ (8 * (i + 1)))
      × (2 ^ (8 * (i + 1)) ≡ 2 ^ (8 * i) * 256)
put_byte zero acc b h p q =
    let e : shl32 b 0 ≡ 1 * b = omega arith in
    (ap (bit_or acc) e ∙ above 0 acc b p, omega arith, refl)
put_byte (suc zero) acc b h p q =
    let e : shl32 b 8 ≡ 256 * b = omega arith in
    (ap (bit_or acc) e ∙ above 8 acc b p, omega arith, refl)
put_byte (suc (suc zero)) acc b h p q =
    let e : shl32 b 16 ≡ 65536 * b = omega arith in
    (ap (bit_or acc) e ∙ above 16 acc b p, omega arith, refl)
put_byte (suc (suc (suc zero))) acc b h p q =
    let e : shl32 b 24 ≡ 16777216 * b = omega arith in
    (ap (bit_or acc) e ∙ above 24 acc b p, omega arith, refl)
put_byte (suc (suc (suc (suc i)))) acc b h p q = absurd (omega arith)

-- The loop reads the bytes, lowest first.
rd_loop-value_of :
    (n i acc : ℕ) (bs : Bytes)
    → n + i ≤ 4
    → acc < 2 ^ (8 * i)
    → AreBytes bs
    → rd_loop n i acc bs ≡ acc + 2 ^ (8 * i) * value_of (take n bs)
unfolding rd_loop
rd_loop-value_of zero i acc bs h p q = omega arith
rd_loop-value_of (suc n) i acc [] h p q = omega arith
rd_loop-value_of (suc n) i acc (b ∷ bs) h p (q, qs) =
    let (put, small, wider) = put_byte i acc b (omega arith) p q in
    let next = acc + 2 ^ (8 * i) * b in
    let rest = value_of (take n bs) in
    ap (λ (x : ℕ). rd_loop n (i + 1) x bs) put
    ∙ rd_loop-value_of n (i + 1) next bs (omega arith) small qs
    ∙ ap (λ (m : ℕ). next + m * rest) wider
    ∙ omega arith

AreBytes-drop : (n : ℕ) (bs : Bytes) → AreBytes bs → AreBytes (drop n bs)
AreBytes-drop zero bs h = h
AreBytes-drop (suc n) [] h = h
AreBytes-drop (suc n) (b ∷ bs) (h, hs) = AreBytes-drop n bs hs

value_of-small : (n : ℕ) (bs : Bytes) → AreBytes bs → value_of (take n bs) < 256 ^ n
value_of-small zero bs h = omega arith
value_of-small (suc n) [] h = omega (arith, one-le-pow (suc n) 256 (omega arith))
value_of-small (suc n) (b ∷ bs) (h, hs) = omega (arith, value_of-small n bs hs, pow-succ' 256 n)

pub rd_le-value_of :
    (buf : Bytes) (at n : ℕ)
    → n ≤ 4
    → AreBytes buf
    → rd_le buf at n ≡ value_of (take n (drop at buf))
unfolding rd_le
rd_le-value_of buf at n h q =
    rd_loop-value_of n 0 0 (drop at buf) (omega arith) (omega arith) (AreBytes-drop at buf q)
    ∙ omega arith

pub rd_le-small : (buf : Bytes) (at n : ℕ) → n ≤ 4 → AreBytes buf → rd_le buf at n < 256 ^ n
rd_le-small buf at n h q =
    omega
      (arith, rd_le-value_of buf at n h q, value_of-small n (drop at buf) (AreBytes-drop at buf q))

-- Where bytes are written, up to `m`, only these change.
pub put_bytes-replaces :
    (at : ℕ) (bs buf : Bytes) (m : ℕ)
    → m ≡ at + length bs
    → m ≤ length buf
    → put_bytes at bs buf ≡ take at buf ++ (bs ++ drop m buf)
unfolding put_bytes
put_bytes-replaces zero [] [] zero e h = refl
put_bytes-replaces zero [] (c ∷ buf) zero e h = refl
put_bytes-replaces zero [] buf (suc m) e h = absurd (omega arith)
put_bytes-replaces zero (b ∷ bs) buf zero e h = absurd (omega arith)
put_bytes-replaces zero (b ∷ bs) [] (suc m) e h = absurd (omega arith)
put_bytes-replaces zero (b ∷ bs) (c ∷ buf) (suc m) e h =
    ap (λ r. b ∷ r) (put_bytes-replaces zero bs buf m (omega arith) (omega arith))
put_bytes-replaces (suc at) bs buf zero e h = absurd (omega arith)
put_bytes-replaces (suc at) bs [] (suc m) e h = absurd (omega arith)
put_bytes-replaces (suc at) bs (c ∷ buf) (suc m) e h =
    ap (λ r. c ∷ r) (put_bytes-replaces at bs buf m (omega arith) (omega arith))

read_written :
    (at : ℕ) (bs buf : Bytes)
    → at + length bs ≤ length buf
    → take (length bs) (drop at (put_bytes at bs buf)) ≡ bs
unfolding put_bytes
read_written zero [] buf h = refl
read_written zero (b ∷ bs) [] h = absurd (omega arith)
read_written zero (b ∷ bs) (c ∷ buf) h = ap (λ r. b ∷ r) (read_written zero bs buf (omega arith))
read_written (suc at) bs [] h = absurd (omega arith)
read_written (suc at) bs (c ∷ buf) h = read_written at bs buf (omega arith)

AreBytes-put_bytes :
    (at : ℕ) (bs buf : Bytes) → AreBytes bs → AreBytes buf → AreBytes (put_bytes at bs buf)
unfolding put_bytes
AreBytes-put_bytes zero bs [] p q = q
AreBytes-put_bytes (suc at) bs [] p q = q
AreBytes-put_bytes zero [] (c ∷ buf) p q = q
AreBytes-put_bytes zero (b ∷ bs) (c ∷ buf) (p, ps) (q, qs) =
    (p, AreBytes-put_bytes zero bs buf ps qs)
AreBytes-put_bytes (suc at) bs (c ∷ buf) p (q, qs) = (q, AreBytes-put_bytes at bs buf p qs)

le_bytes-AreBytes : (n w : ℕ) → AreBytes (le_bytes n w)
unfolding le_bytes
le_bytes-AreBytes zero w = tt
le_bytes-AreBytes (suc n) w = (omega arith, le_bytes-AreBytes n (w / 256))

pub AreBytes-wr_le : (buf : Bytes) (at n w : ℕ) → AreBytes buf → AreBytes (wr_le buf at n w)
unfolding wr_le
AreBytes-wr_le buf at n w h = AreBytes-put_bytes at (le_bytes n w) buf (le_bytes-AreBytes n w) h

-- What is written is read back.
pub rd_le-wr_le :
    (buf : Bytes) (at n w : ℕ)
    → n ≤ 4
    → at + n ≤ length buf
    → AreBytes buf
    → rd_le (wr_le buf at n w) at n ≡ w % 256 ^ n
unfolding wr_le
rd_le-wr_le buf at n w h room bytes =
    let bs = le_bytes n w in
    let size = length-le_bytes n w in
    let written = read_written at bs buf (omega arith) in
    rd_le-value_of (wr_le buf at n w) at n h (AreBytes-wr_le buf at n w bytes)
    ∙ ap (λ (m : ℕ). value_of (take m (drop at (put_bytes at bs buf)))) (sym size)
    ∙ ap value_of written
    ∙ value_of-le_bytes n w

pub wr_le-replaces :
    (buf : Bytes) (at n w : ℕ)
    → at + n ≤ length buf
    → wr_le buf at n w ≡ take at buf ++ (le_bytes n w ++ drop (at + n) buf)
unfolding wr_le
wr_le-replaces buf at n w room =
    put_bytes-replaces at (le_bytes n w) buf (at + n) (omega (arith, length-le_bytes n w)) room
