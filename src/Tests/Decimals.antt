-- ===== src/Tests/Decimals.antt =====
-- Runs of the conversions with decimals of programs/pump-raydium/src/utils.rs.
use pumpfun_solana_smart_con.Base.{◌+◌, ◌*◌, ◌/◌, ◌^◌, ◌≤◌, ◌≡◌, refl, false, arith}
use pumpfun_solana_smart_con.Rust.Float.{
  F64, nan, infinity, finite, unit, grain, grain_fuel, rounded, of_size, as_f64, as_u64, div, mul,
}
use pumpfun_solana_smart_con.Utils.{ten, convert_to_float, convert_from_float}
use pumpfun_solana_smart_con.Utils.Decimals.{unit_large, as_f64-exact}
use pumpfun_solana_smart_con.Utils.Decimals.RoundTrip.{convert_round_trip}
use native.Mathlib.Nat.{mul-div_cancel}

-- Powers of ten, for whole exponents.
ten_to : F64 → F64 → F64
ten_to x nan = nan
ten_to x (infinity s) = infinity false
ten_to x (finite s y) = finite false (10 ^ (y / unit) * unit)

ten_to_nine : ten_to ten (as_f64 9) ≡ finite false (10 ^ 9 * unit)
unfolding ten_to
ten_to_nine =
    let whole : 9 * unit / unit ≡ 9 = mul-div_cancel 9 (omega (arith, unit_large)) in
    rw (as_f64-exact 9 (omega arith)) (rw whole refl)

-- One lamport is lost: 1.000000007 * 10 ^ 9 is just below a whole number.
lost_lamport : convert_from_float ten_to (convert_to_float ten_to 1_000_000_007 9) 9 ≡ 1_000_000_006
unfolding convert_from_float convert_to_float div mul as_f64 as_u64 of_size rounded grain grain_fuel
    unit ten_to
lost_lamport = refl

kept_lamports : convert_from_float ten_to (convert_to_float ten_to 2_039_280 9) 9 ≡ 2_039_280
unfolding convert_from_float convert_to_float div mul as_f64 as_u64 of_size rounded grain grain_fuel
    unit ten_to
kept_lamports = refl

convert_round_trip_example :
    let w = convert_from_float ten_to (convert_to_float ten_to 1_000_000_007 9) 9 in
    (w ≤ 1_000_000_007) × (1_000_000_007 ≤ w + 1)
convert_round_trip_example =
    convert_round_trip ten_to 9 (10 ^ 9 * unit) ten_to_nine (omega arith) (omega arith)
      1_000_000_007 (omega arith)
