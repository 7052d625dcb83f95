-- ===== src/Instructions/Migrate/Gate.antt =====
-- What the migrate instruction of programs/pump-raydium/src/instructions/migration/migrate.rs does.
use pumpfun_solana_smart_con.Base.{ℕ, ◌≤◌, ◌<◌, ◌≡◌, ◌↔◌, true, false, arith}
use pumpfun_solana_smart_con.Rust.{ok, err}
use pumpfun_solana_smart_con.Errors.{contract, curve_not_completed, arithmetic_error}
use pumpfun_solana_smart_con.Curve.{BondingCurve}
use pumpfun_solana_smart_con.Config.{Config}
use pumpfun_solana_smart_con.Svm.{World}
use pumpfun_solana_smart_con.Instructions.Migrate.{process}

-- Migration answers Ok exactly for a completed curve with more lamports than the limit, and then
-- changes nothing, neither the curve nor any account; a curve that is not completed is refused with
-- CurveNotCompleted, and a completed one at or below the limit with ArithmeticError.
process_cases :
    (config : Config) (c : BondingCurve) (nonce bump : ℕ) (w : World)
    → let r = process config c nonce bump w in
      ((r ≡ ok (c, w)) ↔ ((c.is_completed ≡ true) × (config.curve_limit < c.real_sol_reserves)))
      × ((r ≡ err (contract curve_not_completed)) ↔ (c.is_completed ≡ false))
      × ((r ≡ err (contract arithmetic_error))
          ↔ ((c.is_completed ≡ true) × (c.real_sol_reserves ≤ config.curve_limit)))
unfolding process
process_cases config c nonce bump w = (ground arith, ground arith, ground arith)
