-- ===== src/Instructions/Migrate.antt =====
-- `Migrate::process` of programs/pump-raydium/src/instructions/migration/migrate.rs.
pub mod Gate
use pumpfun_solana_smart_con.Base.{ℕ, ltb}
use pumpfun_solana_smart_con.Errors.{curve_not_completed, arithmetic_error}
use pumpfun_solana_smart_con.Curve.{Pubkey, BondingCurve}
use pumpfun_solana_smart_con.Config.{Config}
use pumpfun_solana_smart_con.Svm.{Run, ◌>>◌, pure, require}

-- The keys of the accounts of the context.
pub record Migrate : Type 0 where
  pub team_wallet : Pubkey
  pub global_config : Pubkey
  pub bonding_curve : Pubkey
  pub global_vault : Pubkey
  pub amm_program : Pubkey
  pub token_program : Pubkey
  pub associated_token_program : Pubkey
  pub system_program : Pubkey
  pub sysvar_rent : Pubkey
  pub amm : Pubkey
  pub amm_authority : Pubkey
  pub amm_open_orders : Pubkey
  pub lp_mint : Pubkey
  pub coin_mint : Pubkey
  pub pc_mint : Pubkey
  pub coin_vault : Pubkey
  pub pc_vault : Pubkey
  pub target_orders : Pubkey
  pub amm_config : Pubkey
  pub market_program : Pubkey
  pub market : Pubkey
  pub fee_destination : Pubkey
  pub payer : Pubkey
  pub global_token_account : Pubkey
  pub global_wsol_account : Pubkey
  pub global_lp_account : Pubkey

-- Both arguments of the instruction are unused.
unfoldable pub process : Config → BondingCurve → (nonce global_vault_bump : ℕ) → Run BondingCurve
process global_config bonding_curve nonce global_vault_bump = do
  require bonding_curve.is_completed curve_not_completed
  require (ltb global_config.curve_limit bonding_curve.real_sol_reserves) arithmetic_error
  pure bonding_curve
