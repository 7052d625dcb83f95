-- ===== src/Instructions/Create/Params.antt =====
-- Which parameters `create_bonding_curve` accepts, in
-- programs/pump-raydium/src/instructions/curve/create_bonding_curve.rs.
use pumpfun_solana_smart_con.Base.{
  ℕ, ◌/◌, ◌%◌, ◌^◌, ◌≤◌, ◌<◌, ◌≡◌, ◌↔◌, inl, inr, arith, ltb, Bool-cases,
}
use pumpfun_solana_smart_con.Rust.{ok, err, u64_bound}
use pumpfun_solana_smart_con.Errors.{panic}
use pumpfun_solana_smart_con.Config.{Config, unsigned_ord}
use pumpfun_solana_smart_con.Config.Validate.{Admits, validate-Admits}
use pumpfun_solana_smart_con.Svm.{World}
use pumpfun_solana_smart_con.Instructions.Create.{decimal_power, check_params}
use native.Mathlib.Nat.{pow-le-pow_right}

-- The power fits 64 bits for up to 19 decimals.
decimal_power_fits : (d : ℕ) → ltb (10 ^ d) u64_bound ≡ ltb d 20
decimal_power_fits d = elim (Bool-cases (ltb d 20)) [
  | inl few ↦
      let small : 10 ^ d ≤ 10 ^ 19 = pow-le-pow_right (omega arith) {j = 19} (ground arith) in
      ground arith
  | inr many ↦
      let big : 10 ^ 20 ≤ 10 ^ d = pow-le-pow_right (omega arith) {i = 20} (ground arith) in
      ground arith
]

-- What the handler demands of its numbers.
pub record Acceptable (config : Config) (decimals token_supply reserve_lamport : ℕ) : Type 0 where
  pub decimals_fit : decimals < 20
  pub whole : token_supply % 10 ^ decimals ≡ 0
  pub lamports : Admits config.lamport_amount_config reserve_lamport
  pub tokens : Admits config.token_supply_config (token_supply / 10 ^ decimals)
  pub allowed : Admits config.token_decimals_config decimals

module _ (config : Config) (d n r : ℕ) (w : World) where
  -- The checks pass for acceptable parameters and no others.
  passes_iff : (check_params config d n r w ≡ ok (tt, w)) ↔ Acceptable config d n r
  unfolding check_params decimal_power
  passes_iff =
      let lamports = validate-Admits config.lamport_amount_config r in
      let tokens = validate-Admits config.token_supply_config (n / 10 ^ d) in
      let decimals = validate-Admits config.token_decimals_config d in
      (
        λ e. record {
          decimals_fit = ground (arith, decimal_power_fits d);
          whole = ground (arith, decimal_power_fits d);
          lamports = lamports.0 (ground (arith, decimal_power_fits d));
          tokens = tokens.0 (ground (arith, decimal_power_fits d));
          allowed = decimals.0 (ground (arith, decimal_power_fits d));
        },
        λ a. ground (
          arith,
          decimal_power_fits d,
          a.decimals_fit,
          a.whole,
          lamports.1 a.lamports,
          tokens.1 a.tokens,
          decimals.1 a.allowed,
        ),
      )

  -- A panic comes from the power of ten alone.
  panics_iff : (check_params config d n r w ≡ err panic) ↔ (20 ≤ d)
  unfolding check_params decimal_power
  panics_iff =
      (λ e. ground (arith, decimal_power_fits d), λ h. ground (arith, decimal_power_fits d))

  -- The checks of `create_bonding_curve` pass, without changing the machine, exactly when there are
  -- fewer than 20 decimals, the supply is a whole number of tokens, and the configuration admits
  -- the reserve, the supply in whole tokens and the decimals. They panic exactly from 20 decimals
  -- on, where the power of ten overflows u64, whatever the configuration admits.
  pub check_params_iff :
      ((check_params config d n r w ≡ ok (tt, w)) ↔ Acceptable config d n r)
      × ((check_params config d n r w ≡ err panic) ↔ (20 ≤ d))
  check_params_iff = (passes_iff, panics_iff)

  -- The checks only read.
  pub check_params_keeps :
      {x : Unit {0}} {v : World} → check_params config d n r w ≡ ok (x, v) → v ≡ w
  unfolding check_params
  check_params_keeps e = ground arith
