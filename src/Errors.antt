-- ===== src/Errors.antt =====
-- The errors of programs/pump-raydium/src/errors.rs, and what else ends an instruction.
use pumpfun_solana_smart_con.Base.{ℕ}

pub data ContractError : Type 0 where
  value_too_small value_too_large value_invalid incorrect_config_account : ContractError
  incorrect_authority overflow_or_underflow_occurred invalid_amount : ContractError
  incorrect_team_wallet curve_not_completed curve_already_completed : ContractError
  mint_authority_enabled freeze_authority_enabled return_amount_too_small : ContractError
  amm_already_exists not_initialized invalid_global_authority not_white_list : ContractError
  incorrect_launch_phase insufficient_tokens insufficient_sol sell_failed : ContractError
  buy_failed not_bonding_curve_mint not_sol invalid_migration_authority : ContractError
  not_completed invalid_raydium_program arithmetic_error migration_token_error : ContractError
  migration_sol_error slippage_exceeded : ContractError

-- How an instruction fails: by an error of the program, by an error of a called program or
-- library, which is passed on by `?`, or by a panic, which aborts the transaction.
pub data Fault : Type 0 where
  contract : ContractError → Fault
  foreign : ℕ → Fault
  panic : Fault
