-- ===== src/Rust/Signed.antt =====
-- i64 beside u64: the casts between them and the checked subtraction.
use pumpfun_solana_smart_con.Base.{
  ℕ, suc, ◌+◌, ◌-◌, ◌^◌, ◌<◌, ◌≡◌, Bool, false, Option, none, some, arith, ltb, leb, if◌then◌else◌,
}
use pumpfun_solana_smart_con.Rust.{u64_bound}

-- `negsuc n` is -(n + 1).
pub data ℤ : Type 0 where
  pos : ℕ → ℤ
  negsuc : ℕ → ℤ

abbrev pub pos_part : ℤ → ℕ
pos_part (pos n) = n
pos_part (negsuc n) = 0

abbrev pub neg_part : ℤ → ℕ
neg_part (pos n) = 0
neg_part (negsuc n) = suc n

abbrev pub i64_bound : ℕ
i64_bound = 2 ^ 63

-- `x as i64` for a u64, which keeps the 64 bits.
unfoldable pub as_i64 : ℕ → ℤ
as_i64 x = if ltb x i64_bound then pos x else negsuc (u64_bound - 1 - x)

-- `d as u64` for an i64.
unfoldable pub as_u64 : ℤ → ℕ
as_u64 (pos n) = n
as_u64 (negsuc n) = u64_bound - 1 - n

abbrev in_i64 : ℤ → Bool
in_i64 (pos n) = ltb n i64_bound
in_i64 (negsuc n) = ltb n i64_bound

-- a - b, as an integer.
abbrev sub_ℕ : ℕ → ℕ → ℤ
sub_ℕ a b = if leb b a then pos (a - b) else negsuc (b - a - 1)

-- `a - b` at i64: out of range it overflows, which is a panic under `overflow-checks`.
unfoldable pub i64_sub : ℤ → ℤ → Option ℤ
i64_sub a b =
    let d = sub_ℕ (pos_part a + neg_part b) (neg_part a + pos_part b) in
    if in_i64 d then some d else none

-- `d > 0`
unfoldable pub is_positive : ℤ → Bool
is_positive (pos n) = ltb 0 n
is_positive (negsuc n) = false

-- Below 2^63 the difference of two u64 values is exact.
pub i64_sub-as_i64 :
    (x y : ℕ)
    → x < i64_bound
    → y < i64_bound
    → (d : ℤ) × (i64_sub (as_i64 x) (as_i64 y) ≡ some d)
      × (is_positive d ≡ ltb y x)
      × (y < x → as_u64 d ≡ x - y)
unfolding i64_sub as_i64 is_positive as_u64
i64_sub-as_i64 x y hx hy = (sub_ℕ x y, ground arith, ground arith, ground arith)
