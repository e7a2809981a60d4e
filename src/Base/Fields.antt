-- ===== src/Base/Fields.antt =====
-- `&` and `|` on numbers that are rows of fields, lowest first.
use Prim.Native.Nat.{
  ℕ, zero, suc, ◌+◌, ◌-◌, ◌*◌, ◌/◌, ◌%◌, ◌^◌, ◌≤◌, ◌<◌, min, max, bit_and, bit_or, bitwise,
  bit_and-bitwise, bit_or-bitwise, digits,
}
use mathlib.Core.Path.{◌≡◌, refl, ap, ap₂, ◌∙◌}
use mathlib.Core.List.{List, [], ◌∷◌}
use mathlib.Core.Bool.{Bool, true, false}
use native.Mathlib.Omega.{arith}
use native.Mathlib.Nat.{pow-suc, one-le-pow, le_refl, mod-lt, mod-add-div, mul-add}

module _ (z : ℕ → ℕ) (f : ℕ → ℕ → ℕ) where
  enough_rounds : (n m a b : ℕ) → a ≤ n → a ≤ m → digits z f n a b ≡ digits z f m a b
  enough_rounds zero zero a b p q = refl
  enough_rounds zero (suc m) zero b p q = refl
  enough_rounds zero (suc m) (suc a) b p q = absurd (omega arith)
  enough_rounds (suc n) zero zero b p q = refl
  enough_rounds (suc n) zero (suc a) b p q = absurd (omega arith)
  enough_rounds (suc n) (suc m) zero b p q = refl
  enough_rounds (suc n) (suc m) (suc a) b p q =
      rw (enough_rounds n m (suc a / 2) (b / 2) (omega arith) (omega arith))

  lowest :
      (a b : ℕ)
      → bitwise z f (suc a) b ≡ bitwise z f (suc a / 2) (b / 2) * 2 + f (suc a % 2) (b % 2)
  lowest a b =
      omega (arith, enough_rounds a (suc a / 2) (suc a / 2) (b / 2) (omega arith) (le_refl _))

bit_or-lowest : (a b : ℕ) → bit_or a b ≡ bit_or (a / 2) (b / 2) * 2 + max (a % 2) (b % 2)
bit_or-lowest zero b = simp bit_or-bitwise (omega arith)
bit_or-lowest (suc a) b = simp bit_or-bitwise (lowest (λ y. y) max a b)

bit_and-lowest : (a b : ℕ) → bit_and a b ≡ bit_and (a / 2) (b / 2) * 2 + min (a % 2) (b % 2)
bit_and-lowest zero b = simp bit_and-bitwise (omega arith)
bit_and-lowest (suc a) b = simp bit_and-bitwise (lowest (λ y. 0) min a b)

doubled : (q k : ℕ) → 2 ^ suc k * q ≡ 2 * (2 ^ k * q)
doubled q k = omega (arith, ap (λ (t : ℕ). t * q) (pow-suc 2 k))

-- Splitting off the lowest `k` digits.
module _ (f : ℕ → ℕ → ℕ) (f_zero : f 0 0 ≡ 0) where
  split_none :
      (a b x y : ℕ)
      → a < 2 ^ 0
      → b < 2 ^ 0
      → f (a + 2 ^ 0 * x) (b + 2 ^ 0 * y) ≡ f a b + 2 ^ 0 * f x y
  split_none a b x y p q =
      let a_zero : a ≡ 0 = omega arith in
      let b_zero : b ≡ 0 = omega arith in
      let left : a + 2 ^ 0 * x ≡ x = omega arith in
      let right : b + 2 ^ 0 * y ≡ y = omega arith in
      omega (arith, ap₂ f left right, ap₂ f a_zero b_zero, f_zero)

pub bit_and-split :
    (k a b x y : ℕ)
    → a < 2 ^ k
    → b < 2 ^ k
    → bit_and (a + 2 ^ k * x) (b + 2 ^ k * y) ≡ bit_and a b + 2 ^ k * bit_and x y
bit_and-split zero a b x y p q = split_none bit_and refl a b x y p q
bit_and-split (suc k) a b x y p q = ground (
  arith,
  bit_and-lowest (a + 2 ^ suc k * x) (b + 2 ^ suc k * y),
  bit_and-lowest a b,
  doubled x k,
  doubled y k,
  doubled (bit_and x y) k,
  bit_and-split k (a / 2) (b / 2) x y (omega (arith, pow-suc 2 k)) (omega (arith, pow-suc 2 k)),
)

pub bit_or-split :
    (k a b x y : ℕ)
    → a < 2 ^ k
    → b < 2 ^ k
    → bit_or (a + 2 ^ k * x) (b + 2 ^ k * y) ≡ bit_or a b + 2 ^ k * bit_or x y
bit_or-split zero a b x y p q = split_none bit_or refl a b x y p q
bit_or-split (suc k) a b x y p q = ground (
  arith,
  bit_or-lowest (a + 2 ^ suc k * x) (b + 2 ^ suc k * y),
  bit_or-lowest a b,
  doubled x k,
  doubled y k,
  doubled (bit_or x y) k,
  bit_or-split k (a / 2) (b / 2) x y (omega (arith, pow-suc 2 k)) (omega (arith, pow-suc 2 k)),
)

bit_or-zero_below : (k a : ℕ) → a ≤ k → bit_or a 0 ≡ a
bit_or-zero_below k zero h = refl
bit_or-zero_below zero (suc a) h = absurd (omega arith)
bit_or-zero_below (suc k) (suc a) h =
    omega (arith, bit_or-lowest (suc a) 0, bit_or-zero_below k (suc a / 2) (omega arith))

pub bit_or-zero : (a : ℕ) → bit_or a 0 ≡ a
bit_or-zero a = bit_or-zero_below a a (le_refl _)

pub zero-bit_or : (a : ℕ) → bit_or 0 a ≡ a
zero-bit_or a = simp bit_or-bitwise refl

bit_and-zero_below : (k a : ℕ) → a ≤ k → bit_and a 0 ≡ 0
bit_and-zero_below k zero h = refl
bit_and-zero_below zero (suc a) h = absurd (omega arith)
bit_and-zero_below (suc k) (suc a) h =
    omega (arith, bit_and-lowest (suc a) 0, bit_and-zero_below k (suc a / 2) (omega arith))

pub bit_and-zero : (a : ℕ) → bit_and a 0 ≡ 0
bit_and-zero a = bit_and-zero_below a a (le_refl _)

ones_below : (k r : ℕ) → r < 2 ^ k → bit_and r (2 ^ k - 1) ≡ r
ones_below zero r h = omega (arith, bit_and-zero r)
ones_below (suc k) r h =
    let halved : (2 ^ suc k - 1) / 2 ≡ 2 ^ k - 1 = omega (arith, pow-suc 2 k) in
    let half : r / 2 < 2 ^ k = omega (arith, pow-suc 2 k) in
    omega (
      arith,
      bit_and-lowest r (2 ^ suc k - 1),
      ap (bit_and (r / 2)) halved,
      ones_below k (r / 2) half,
      pow-suc 2 k,
    )

-- A mask of ones keeps the digits that it covers.
pub bit_and-ones : (k a : ℕ) → bit_and a (2 ^ k - 1) ≡ a % 2 ^ k
bit_and-ones k a =
    let positive : 0 < 2 ^ k = one-le-pow k 2 (omega arith) in
    let low : a % 2 ^ k < 2 ^ k = mod-lt a positive in
    let left : a ≡ a % 2 ^ k + 2 ^ k * (a / 2 ^ k) = omega (arith, mod-add-div a (2 ^ k)) in
    let right : 2 ^ k - 1 ≡ (2 ^ k - 1) + 2 ^ k * 0 = omega arith in
    ap₂ bit_and left right
    ∙ bit_and-split k (a % 2 ^ k) (2 ^ k - 1) (a / 2 ^ k) 0 low (omega arith)
    ∙ omega (arith, ones_below k (a % 2 ^ k) low, ap (λ t. 2 ^ k * t) (bit_and-zero (a / 2 ^ k)))

-- A mask of `w` ones from digit `k` on.
pub bit_and-field : (k w a : ℕ) → bit_and a (2 ^ k * (2 ^ w - 1)) ≡ 2 ^ k * (a / 2 ^ k % 2 ^ w)
bit_and-field k w a =
    let low : a % 2 ^ k < 2 ^ k = mod-lt a (one-le-pow k 2 (omega arith)) in
    let left : a ≡ a % 2 ^ k + 2 ^ k * (a / 2 ^ k) = omega (arith, mod-add-div a (2 ^ k)) in
    let right : 2 ^ k * (2 ^ w - 1) ≡ 0 + 2 ^ k * (2 ^ w - 1) = omega arith in
    ap₂ bit_and left right
    ∙ bit_and-split k (a % 2 ^ k) 0 (a / 2 ^ k) (2 ^ w - 1) low (omega arith)
    ∙ omega (arith, bit_and-zero (a % 2 ^ k), ap (λ t. 2 ^ k * t) (bit_and-ones w (a / 2 ^ k)))

-- A number as a row of fields of given widths, the lowest first.
abbrev pub pack : List ℕ → List ℕ → ℕ
pack [] fs = 0
pack (w ∷ ws) [] = 0
pack (w ∷ ws) (f ∷ fs) = f + 2 ^ w * pack ws fs

abbrev pub IsRow : List ℕ → List ℕ → Type 0
IsRow [] fs = Unit
IsRow (w ∷ ws) [] = ⊥
IsRow (w ∷ ws) (f ∷ fs) = (f < 2 ^ w) × IsRow ws fs

-- A mask covers each field whole or not at all.
abbrev pub masks : List ℕ → List Bool → List ℕ
masks [] bs = []
masks (w ∷ ws) [] = 0 ∷ masks ws []
masks (w ∷ ws) (true ∷ bs) = (2 ^ w - 1) ∷ masks ws bs
masks (w ∷ ws) (false ∷ bs) = 0 ∷ masks ws bs

abbrev pub kept : List Bool → List ℕ → List ℕ
kept bs [] = []
kept [] (f ∷ fs) = 0 ∷ kept [] fs
kept (true ∷ bs) (f ∷ fs) = f ∷ kept bs fs
kept (false ∷ bs) (f ∷ fs) = 0 ∷ kept bs fs

pub bit_and-masks :
    (ws : List ℕ) (bs : List Bool) (fs : List ℕ)
    → IsRow ws fs
    → bit_and (pack ws fs) (pack ws (masks ws bs)) ≡ pack ws (kept bs fs)
bit_and-masks [] bs fs r = refl
bit_and-masks (w ∷ ws) bs [] r = absurd r
bit_and-masks (w ∷ ws) [] (f ∷ fs) r =
    bit_and-split w f 0 (pack ws fs) (pack ws (masks ws [])) r.0 (one-le-pow w 2 (omega arith))
    ∙ omega (arith, bit_and-zero f, ap (λ t. 2 ^ w * t) (bit_and-masks ws [] fs r.1))
bit_and-masks (w ∷ ws) (true ∷ bs) (f ∷ fs) r =
    let positive : 0 < 2 ^ w = one-le-pow w 2 (omega arith) in
    bit_and-split w f (2 ^ w - 1) (pack ws fs) (pack ws (masks ws bs)) r.0 (omega arith)
    ∙ omega (arith, ones_below w f r.0, ap (λ t. 2 ^ w * t) (bit_and-masks ws bs fs r.1))
bit_and-masks (w ∷ ws) (false ∷ bs) (f ∷ fs) r =
    bit_and-split w f 0 (pack ws fs) (pack ws (masks ws bs)) r.0 (one-le-pow w 2 (omega arith))
    ∙ omega (arith, bit_and-zero f, ap (λ t. 2 ^ w * t) (bit_and-masks ws bs fs r.1))

-- `|` with a field at digit `k`, where the other number has none.
pub bit_or-field :
    (k w x y : ℕ) → x < 2 ^ w → y / 2 ^ k % 2 ^ w ≡ 0 → bit_or y (2 ^ k * x) ≡ y + 2 ^ k * x
bit_or-field k w x y h e =
    let positive : 0 < 2 ^ k = one-le-pow k 2 (omega arith) in
    let wide : 0 < 2 ^ w = one-le-pow w 2 (omega arith) in
    let low : y % 2 ^ k < 2 ^ k = mod-lt y positive in
    let high : y / 2 ^ k ≡ 0 + 2 ^ w * (y / 2 ^ k / 2 ^ w) =
      omega (arith, e, mod-add-div (y / 2 ^ k) (2 ^ w)) in
    let row : y ≡ y % 2 ^ k + 2 ^ k * (y / 2 ^ k) = omega (arith, mod-add-div y (2 ^ k)) in
    let field : 2 ^ k * x ≡ 0 + 2 ^ k * x = omega arith in
    let only : x ≡ x + 2 ^ w * 0 = omega arith in
    let above : bit_or (y / 2 ^ k) x ≡ y / 2 ^ k + x =
      ap₂ bit_or high only
      ∙ bit_or-split w 0 x (y / 2 ^ k / 2 ^ w) 0 wide h
      ∙ omega (arith, high, zero-bit_or x, ap (λ t. 2 ^ w * t) (bit_or-zero (y / 2 ^ k / 2 ^ w))) in
    ap₂ bit_or row field
    ∙ bit_or-split k (y % 2 ^ k) 0 (y / 2 ^ k) x low positive
    ∙ omega (
      arith,
      row,
      bit_or-zero (y % 2 ^ k),
      ap (λ t. 2 ^ k * t) above,
      mul-add (2 ^ k) (y / 2 ^ k) x,
    )

-- `&` with a mask, on a number that is known to be a row.
pub bit_and-kept :
    (ws : List ℕ) (bs : List Bool) (fs : List ℕ) (x : ℕ)
    → x ≡ pack ws fs
    → IsRow ws fs
    → bit_and x (pack ws (masks ws bs)) ≡ pack ws (kept bs fs)
bit_and-kept ws bs fs x a p = rw a (bit_and-masks ws bs fs p)

-- A number of three fields whose middle one is cleared and set again.
pub set_middle :
    (k w r a b c x op : ℕ)
    → op ≡ pack (k ∷ w ∷ r ∷ []) (a ∷ b ∷ c ∷ [])
    → IsRow (k ∷ w ∷ r ∷ []) (a ∷ b ∷ c ∷ [])
    → x < 2 ^ w
    → bit_or
        (bit_and op (pack (k ∷ w ∷ r ∷ []) (masks (k ∷ w ∷ r ∷ []) (true ∷ false ∷ true ∷ []))))
        (2 ^ k * x)
      ≡ a + 2 ^ k * (x + 2 ^ w * c)
set_middle k w r a b c x op e row h =
    let wide : 0 < 2 ^ w = one-le-pow w 2 (omega arith) in
    let positive : 0 < 2 ^ k = one-le-pow k 2 (omega arith) in
    let top : 2 ^ r * 0 ≡ 0 = omega arith in
    let cleared : pack (k ∷ w ∷ r ∷ []) (a ∷ 0 ∷ c ∷ []) ≡ a + 2 ^ k * (0 + 2 ^ w * c) =
      rw top (ap (λ t. a + 2 ^ k * (0 + 2 ^ w * t)) (omega arith)) in
    let field : 2 ^ k * x ≡ 0 + 2 ^ k * x = omega arith in
    let only : x ≡ x + 2 ^ w * 0 = omega arith in
    let above : bit_or (0 + 2 ^ w * c) x ≡ x + 2 ^ w * c =
      ap (bit_or (0 + 2 ^ w * c)) only
      ∙ bit_or-split w 0 x c 0 wide h
      ∙ omega (arith, zero-bit_or x, ap (λ t. 2 ^ w * t) (bit_or-zero c)) in
    ap₂ bit_or
      (bit_and-kept (k ∷ w ∷ r ∷ []) (true ∷ false ∷ true ∷ []) (a ∷ b ∷ c ∷ []) op e row ∙ cleared)
      field
    ∙ bit_or-split k a 0 (0 + 2 ^ w * c) x row.0 positive
    ∙ omega (arith, bit_or-zero a, ap (λ t. 2 ^ k * t) above)
