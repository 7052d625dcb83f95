-- ===== src/Rust.antt =====
-- What the code uses of Rust's standard library on machine-width integers: the checked operations
-- of u64 and u128 and the narrowing conversion, each an Option. An unsigned value is a plain
-- number; the range of a parameter is a hypothesis where it matters.
pub mod Signed
pub mod Float
use pumpfun_solana_smart_con.Base.{
  ◌≡◌, refl, ◌⊎◌, inl, inr, ℕ, ◌+◌, ◌-◌, ◌*◌, ◌/◌, ◌^◌, ◌<◌, Option, none, some, ltb, ◌==◌,
  if◌then◌else◌,
}

abbrev pub u64_bound : ℕ
u64_bound = 2 ^ 64

abbrev pub u128_bound : ℕ
u128_bound = 2 ^ 128

abbrev pub IsU8 : ℕ → Type 0
IsU8 x = x < 256

abbrev pub IsU64 : ℕ → Type 0
IsU64 x = x < u64_bound

-- `u128::checked_add`.
abbrev pub checked_add : ℕ → ℕ → Option ℕ
checked_add a b = if ltb (a + b) u128_bound then some (a + b) else none

-- `u128::checked_mul`.
abbrev pub checked_mul : ℕ → ℕ → Option ℕ
checked_mul a b = if ltb (a * b) u128_bound then some (a * b) else none

-- `checked_sub`, at u64 and u128 alike.
abbrev pub checked_sub : ℕ → ℕ → Option ℕ
checked_sub a b = if ltb a b then none else some (a - b)

-- `u128::checked_div`.
abbrev pub checked_div : ℕ → ℕ → Option ℕ
checked_div a b = if b == 0 then none else some (a / b)

-- `TryInto<u64>` followed by `ok()`.
abbrev pub try_into_u64 : ℕ → Option ℕ
try_into_u64 a = if ltb a u64_bound then some a else none

-- `?` on an Option.
infixl 5 ◌>>=◌
abbrev pub ◌>>=◌ {ℓ κ} : {A : Type ℓ} {B : Type κ} → Option A → (A → Option B) → Option B
none >>= f = none
some a >>= f = f a

-- Rust's `Result`.
pub data Result {ℓ κ} (E : Type ℓ) (A : Type κ) : Type (ℓ ⊔ κ) where
  ok : A → Result E A
  err : E → Result E A

pub Result-cases {ℓ κ} :
    {E : Type ℓ} {A : Type κ} (r : Result E A) → ((a : A) × (r ≡ ok a)) ⊎ ((e : E) × (r ≡ err e))
Result-cases (ok a) = inl (a, refl)
Result-cases (err e) = inr (e, refl)
