-- ===== src/Utils/Decimals/RoundTrip.antt =====
-- An amount that is converted to a float and back, by programs/pump-raydium/src/utils.rs.
use pumpfun_solana_smart_con.Base.{
  ℕ, zero, suc, refl, ap, ◌∙◌, ◌+◌, ◌-◌, ◌*◌, ◌/◌, ◌^◌, ◌≤◌, ◌<◌, ◌≡◌, false, ◌==◌, arith,
}
use pumpfun_solana_smart_con.Rust.{IsU64}
use pumpfun_solana_smart_con.Rust.Float.{
  as_f64, F64, finite, unit, grain_fuel, rounded, of_size, as_u64, div, mul,
}
use pumpfun_solana_smart_con.Rust.Float.Rounding.{Near, rounded-Near}
use native.Mathlib.Nat.{
  le_of_mul-le-mul_right, le-div_iff_mul-le, div-lt_iff_lt-mul, zero-div, zero-mod, zero-mul,
}
use pumpfun_solana_smart_con.Utils.{ten, convert_to_float, convert_from_float}
use pumpfun_solana_smart_con.Utils.Decimals.{unit_large, of_size-finite, mul_mono, as_f64-exact}

-- The fuel is enough for every quotient here.
fuel_large : 2 ^ 400 ≤ 2 ^ grain_fuel
unfolding grain_fuel
fuel_large = omega arith

unit_fuel : 2 ^ 400 * unit ≤ 2 ^ grain_fuel
unfolding grain_fuel unit
unit_fuel = omega arith

pred_mul : (v k : ℕ) → 0 < v → (v - 1) * k + k ≡ v * k
pred_mul zero k pos = absurd (omega arith)
pred_mul (suc v) k pos =
    let less : suc v - 1 ≡ v = omega arith in
    let more : suc v * k ≡ v * k + k = grind arith in rw (less, more) refl

module _ (v p : ℕ) (few : v < 2 ^ 52) (some_value : 0 < v) (above : unit ≤ p)
    (small : p ≤ 2 ^ 80 * unit) where
  abbrev quotient : ℕ
  quotient = rounded (v * unit * unit) p

  abbrev product : ℕ
  product = rounded (quotient * p) unit

  square_large : 2 ^ 200 * unit ≤ unit * unit
  square_large = mul_mono unit (omega (arith, unit_large))

  value_large : unit * unit ≤ v * unit * unit
  value_large =
      let m : 1 * unit ≤ v * unit = mul_mono unit some_value in
      let k : 1 * unit * unit ≤ v * unit * unit = mul_mono unit m in
      let one : 1 * unit ≡ unit = omega arith in rw one at k

  value_small : v * unit * unit + unit * unit ≤ 2 ^ 52 * (unit * unit)
  value_small =
      let m : (v + 1) * unit ≤ 2 ^ 52 * unit = mul_mono unit (omega arith) in
      let k : (v + 1) * unit * unit ≤ 2 ^ 52 * unit * unit = mul_mono unit m in grind arith

  fuel_enough : 2 ^ 400 * (unit * unit) ≤ unit * 2 ^ grain_fuel
  fuel_enough =
      let m : 2 ^ 400 * unit * unit ≤ 2 ^ grain_fuel * unit = mul_mono unit unit_fuel in grind arith

  fuel_for_power : 2 ^ 400 * (unit * unit) ≤ p * 2 ^ grain_fuel
  fuel_for_power =
      let m : unit * 2 ^ grain_fuel ≤ p * 2 ^ grain_fuel = mul_mono (2 ^ grain_fuel) above in
      omega (arith, fuel_enough)

  quotient-Near : Near (v * unit * unit) p quotient
  quotient-Near =
      let more = fuel_for_power in
      let fuel : v * unit * unit < p * 2 ^ 53 * 2 ^ grain_fuel =
        let same : p * 2 ^ 53 * 2 ^ grain_fuel ≡ 2 ^ 53 * (p * 2 ^ grain_fuel) = grind arith in
        rw same (omega (arith, unit_large, value_small, value_large, square_large)) in
      rounded-Near (v * unit * unit) p (omega (arith, value_large, square_large, small)) fuel

  product-Near : Near (quotient * p) unit product
  product-Near =
      let h = quotient-Near in
      let more = fuel_enough in
      let fuel : quotient * p < unit * 2 ^ 53 * 2 ^ grain_fuel =
        let same : unit * 2 ^ 53 * 2 ^ grain_fuel ≡ 2 ^ 53 * (unit * 2 ^ grain_fuel) =
          grind arith in
        rw same (omega (arith, unit_large, value_small, value_large, square_large, h.above)) in
      rounded-Near (quotient * p) unit
        (omega (arith, value_large, square_large, unit_large, h.below)) fuel

  -- Together they are off by less than one whole.
  product_close : (product < v * unit + unit) × (v * unit ≤ product + unit)
  product_close =
      let pos : 0 < unit = omega (arith, unit_large) in
      let h = quotient-Near in
      let k = product-Near in
      let up : (product + 1) * unit ≤ (v * unit + unit) * unit =
        let l : (product + 1) * unit ≡ product * unit + unit = grind arith in
        let r : (v * unit + unit) * unit ≡ v * unit * unit + unit * unit = grind arith in
        rw (l, r) (omega (arith, value_small, square_large, unit_large, h.above, k.above)) in
      let down : v * unit * unit ≤ (product + unit) * unit =
        let r : (product + unit) * unit ≡ product * unit + unit * unit = grind arith in
        rw r (omega (arith, value_small, square_large, unit_large, h.below, k.below)) in
      let a : product + 1 ≤ v * unit + unit = le_of_mul-le-mul_right {k = unit} up pos in
      (omega arith, le_of_mul-le-mul_right {k = unit} down pos)

  quotient_small : quotient ≤ 2 ^ 200 * unit
  quotient_small =
      let h = quotient-Near in
      let pos : 0 < unit = omega (arith, unit_large) in
      let less : unit * quotient ≤ p * quotient = mul_mono quotient above in
      let top : quotient * unit ≤ 2 ^ 200 * unit * unit =
        let l : quotient * unit ≡ unit * quotient = grind arith in
        let m : p * quotient ≡ quotient * p = grind arith in
        let r : 2 ^ 200 * unit * unit ≡ 2 ^ 200 * (unit * unit) = grind arith in
        rw (l, r) (omega (arith, h.above, value_small)) in
      le_of_mul-le-mul_right {k = unit} top pos

  -- Division and multiplication stay finite, and the whole part is right, or short by one.
  round_trip :
      (quotient ≤ 2 ^ 200 * unit)
      × (product ≤ 2 ^ 200 * unit)
      × (product / unit ≤ v)
      × (v ≤ product / unit + 1)
  round_trip =
      let pos : 0 < unit = omega (arith, unit_large) in
      let (above_less, below) = product_close in
      let bound : v * unit ≤ 2 ^ 52 * unit = mul_mono unit (omega arith) in
      let top : product < (v + 1) * unit = grind arith in
      let again = pred_mul v unit some_value in
      let bottom : (v - 1) * unit ≤ product = omega arith in
      let low = (le-div_iff_mul-le pos).1 bottom in
      let high = (div-lt_iff_lt-mul pos).1 top in
      (quotient_small, omega arith, omega arith, omega arith)

zero_rounds : (d : ℕ) → rounded 0 d ≡ 0
unfolding rounded
zero_rounds d = rw (zero-div, zero-mod) (ground arith)

module _ (powf : F64 → F64 → F64) (d p : ℕ) (power : powf ten (as_f64 d) ≡ finite false p)
    (above : unit ≤ p) where
  to_float :
      (v : ℕ) → v < 2 ^ 52 → convert_to_float powf v d ≡ of_size false (rounded (v * unit * unit) p)
  unfolding convert_to_float div
  to_float v few =
      let pos : p == 0 ≡ false = ground (arith, unit_large) in
      rw (as_f64-exact v (omega arith), power) (rw pos refl)

  from_float :
      (x : ℕ)
      → convert_from_float powf (finite false x) d ≡ as_u64 (of_size false (rounded (x * p) unit))
  unfolding convert_from_float mul
  from_float x = rw power refl

  -- The way there and back, where nothing overflows.
  there_and_back :
      (v : ℕ)
      → v < 2 ^ 52
      → let q = rounded (v * unit * unit) p in
        let x = rounded (q * p) unit in
        q ≤ 2 ^ 200 * unit
        → x ≤ 2 ^ 200 * unit
        → IsU64 (x / unit)
        → convert_from_float powf (convert_to_float powf v d) d ≡ x / unit
  unfolding as_u64
  there_and_back v few hq hx word =
      let q = rounded (v * unit * unit) p in
      let x = rounded (q * p) unit in
      let float : convert_to_float powf v d ≡ finite false q =
        to_float v few ∙ of_size-finite false q hq in
      let back : convert_from_float powf (finite false q) d ≡ as_u64 (finite false x) =
        from_float q ∙ ap as_u64 (of_size-finite false x hx) in
      ap (λ y. convert_from_float powf y d) float ∙ back ∙ ground arith

  -- An amount below 2 ^ 52 that is converted to a float and back with the same decimals comes back
  -- as it was, or one less: it never grows and never loses more. No precision is asked of `powf`:
  -- whatever number from 1 to 2 ^ 80 it makes of 10.0 and the decimals, as long as it makes the
  -- same one for both conversions.
  pub convert_round_trip :
      p ≤ 2 ^ 80 * unit
      → (v : ℕ) → v < 2 ^ 52
      → let w = convert_from_float powf (convert_to_float powf v d) d in (w ≤ v) × (v ≤ w + 1)
  convert_round_trip small zero few =
      let x : 0 * unit * unit ≡ 0 = omega arith in
      let q : rounded (0 * unit * unit) p ≡ 0 = rw x (zero_rounds _) in
      let y : rounded (0 * unit * unit) p * p ≡ 0 = rw (q, zero-mul) refl in
      let r : rounded (rounded (0 * unit * unit) p * p) unit ≡ 0 = rw y (zero_rounds unit) in
      let none_left : rounded (rounded (0 * unit * unit) p * p) unit / unit ≡ 0 =
        rw (r, zero-div) refl in
      let same =
        there_and_back 0 few (rw q (omega arith)) (rw r (omega arith))
          (rw none_left (omega arith)) in
      rw (same, none_left) (omega arith, omega arith)
  convert_round_trip small (suc v) few =
      let (hq, hp, less, more) = round_trip (suc v) p few (omega arith) above small in
      let same = there_and_back (suc v) few hq hp (omega arith) in rw same (less, more)
