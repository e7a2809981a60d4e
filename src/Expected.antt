-- ===== src/Expected.antt =====
-- `tl::expected<T, std::string>`, as far as src/nyxstone.cpp uses it.
use nyxstone_tricore_gcc.Base.{◌≡◌, refl, Bytes}

pub data Expected {ℓ} (A : Type ℓ) : Type ℓ where
  value : A → Expected A
  error : Bytes → Expected A

-- `if (!r) return tl::make_unexpected(r.error());` and the code behind it.
infixl 5 ◌>>=◌
abbrev pub ◌>>=◌ {ℓ κ} : {A : Type ℓ} {B : Type κ} → Expected A → (A → Expected B) → Expected B
value a >>= f = f a
error e >>= f = error e

pub >>=-eq-value {ℓ κ} :
    {A : Type ℓ} {B : Type κ} (m : Expected A) (f : A → Expected B) {b : B}
    → (m >>= f) ≡ value b
    → (a : A) × (m ≡ value a) × (f a ≡ value b)
>>=-eq-value (value a) f h = (a, refl, h)
>>=-eq-value (error e) f h = cc
