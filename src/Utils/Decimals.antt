-- ===== src/Utils/Decimals.antt =====
-- The conversions with decimals of programs/pump-raydium/src/utils.rs: what both directions share.
pub mod RoundTrip
use pumpfun_solana_smart_con.Base.{
  ℕ, zero, suc, Bool, refl, sym, ap, ◌∙◌, ◌+◌, ◌-◌, ◌*◌, ◌/◌, ◌^◌, ◌≤◌, ◌<◌, ◌≡◌, false, true, ltb,
  ◌==◌, arith, if◌then◌else◌,
}
use pumpfun_solana_smart_con.Rust.{IsU64, u64_bound}
use pumpfun_solana_smart_con.Rust.Float.{
  F64, nan, infinity, finite, unit, grain_fuel, rounded, of_size, as_f64, as_u64, div, mul,
}
use pumpfun_solana_smart_con.Rust.Float.Rounding.{Near, rounded-Near, rounded-exact}
use native.Mathlib.Nat.{
  le_of_mul-le-mul_right, le-div_iff_mul-le, div-lt_iff_lt-mul, pow-le-pow_right, zero-div,
  zero-mod, zero-mul, one-le-pow,
}
use pumpfun_solana_smart_con.Utils.{ten, convert_to_float, convert_from_float}

-- The size of 1.0 beside the numbers that occur.
pub unit_large : 2 ^ 200 < unit
unfolding unit
unit_large = omega arith

unit_power : unit ≡ 2 ^ 1074
unfolding unit
unit_power = refl

-- What is far below 2 ^ 1024 is finite.
pub of_size-finite : (s : Bool) (k : ℕ) → k ≤ 2 ^ 200 * unit → of_size s k ≡ finite s k
unfolding of_size
of_size-finite s k small = ground (arith, unit_large)

-- A product grows with its first factor.
pub mul_mono : {x y : ℕ} (d : ℕ) → x ≤ y → x * d ≤ y * d
mul_mono d p = grind arith

-- A whole number below 2 ^ 53 is a double.
pub as_f64-exact : (v : ℕ) → v < 2 ^ 53 → as_f64 v ≡ finite false (v * unit)
unfolding as_f64
as_f64-exact v few =
    let same = rounded-exact 1074 v unit few unit_power in
    let small : v * unit ≤ 2 ^ 200 * unit = mul_mono unit (omega arith) in
    rw same (of_size-finite false (v * unit) small)
