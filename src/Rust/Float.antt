-- ===== src/Rust/Float.antt =====
-- What programs/pump-raydium/src/utils.rs uses of Rust's f64, as IEEE 754 has it with rounding to
-- the nearest, ties to even. A size is counted in the least positive double, 2 ^ -1074, so that
-- every finite double is a natural number with a sign.
pub mod Rounding
use pumpfun_solana_smart_con.Base.{
  ℕ, zero, suc, ◌+◌, ◌-◌, ◌*◌, ◌/◌, ◌%◌, ◌^◌, Bool, true, false, not, ltb, ◌==◌, ◌&&◌, ◌||◌,
  if◌then◌else◌,
}
use pumpfun_solana_smart_con.Rust.{u64_bound}

pub data F64 : Type 0 where
  nan : F64
  infinity : (negative : Bool) → F64
  finite : (negative : Bool) (size : ℕ) → F64

-- The size of 1.0.
unfoldable pub unit : ℕ
unit = 2 ^ 1074

-- The distance of the doubles around `n / d`: the least power of two, from `g` on, of which fewer
-- than 2 ^ 53 make `n / d`.
unfoldable pub grain : (fuel n d g : ℕ) → ℕ
grain zero n d g = g
grain (suc fuel) n d g =
    let wider = grain fuel n d (2 * g) in if ltb n (d * g * 2 ^ 53) then g else wider

-- More than enough for a quotient of products of two finite sizes.
unfoldable pub grain_fuel : ℕ
grain_fuel = 5000

-- Whether the remainder `r` of a division by `d` with the quotient `q` is rounded up.
abbrev pub rounds_up : (q r d : ℕ) → Bool
rounds_up q r d = ltb d (2 * r) || (2 * r == d && not (q % 2 == 0))

abbrev pub round_by : (n d g : ℕ) → ℕ
round_by n d g =
    let q = n / (d * g) in let r = n % (d * g) in (if rounds_up q r (d * g) then q + 1 else q) * g

-- The double next to `n / d`, with no bound above.
unfoldable pub rounded : (n d : ℕ) → ℕ
rounded n d = round_by n d (grain grain_fuel n d 1)

-- From 2 ^ 1024 on the result is infinite.
unfoldable pub of_size : (negative : Bool) (size : ℕ) → F64
of_size negative size =
    if ltb size (2 ^ 1024 * unit) then finite negative size else infinity negative

abbrev pub xor : Bool → Bool → Bool
xor true b = not b
xor false b = b

-- `u64 as f64`.
unfoldable pub as_f64 : ℕ → F64
as_f64 v = of_size false (rounded (v * unit) 1)

unfoldable pub div : F64 → F64 → F64
div nan y = nan
div (infinity s) nan = nan
div (infinity s) (infinity t) = nan
div (infinity s) (finite t y) = infinity (xor s t)
div (finite s x) nan = nan
div (finite s x) (infinity t) = finite (xor s t) 0
div (finite s x) (finite t y) =
    if y == 0
    then if x == 0 then nan else infinity (xor s t)
    else of_size (xor s t) (rounded (x * unit) y)

unfoldable pub mul : F64 → F64 → F64
mul nan y = nan
mul (infinity s) nan = nan
mul (infinity s) (infinity t) = infinity (xor s t)
mul (infinity s) (finite t y) = if y == 0 then nan else infinity (xor s t)
mul (finite s x) nan = nan
mul (finite s x) (infinity t) = if x == 0 then nan else infinity (xor s t)
mul (finite s x) (finite t y) = of_size (xor s t) (rounded (x * y) unit)

-- `f64 as u64`, which truncates and saturates, and makes 0 of what is no number.
unfoldable pub as_u64 : F64 → ℕ
as_u64 nan = 0
as_u64 (infinity negative) = if negative then 0 else u64_bound - 1
as_u64 (finite negative size) =
    let whole = size / unit in
    if negative then 0 else if ltb whole u64_bound then whole else u64_bound - 1
