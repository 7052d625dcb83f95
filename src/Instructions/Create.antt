-- ===== src/Instructions/Create.antt =====
-- `CreateBondingCurve::handler` of
-- programs/pump-raydium/src/instructions/curve/create_bonding_curve.rs.
pub mod Params
pub mod Launch
pub mod Goes
use pumpfun_solana_smart_con.Base.{ℕ, ◌/◌, ◌%◌, ◌^◌, false, none, some, ltb, ◌==◌, if◌then◌else◌}
use pumpfun_solana_smart_con.Rust.{Result, ok, err, u64_bound}
use pumpfun_solana_smart_con.Errors.{Fault, contract, panic, value_invalid}
use pumpfun_solana_smart_con.Constants.{global_seed}
use pumpfun_solana_smart_con.Curve.{Pubkey, BondingCurve}
use pumpfun_solana_smart_con.Config.{Config, validate, unsigned_ord}
use pumpfun_solana_smart_con.Svm.{
  World, Runtime, Run, ◌>>=◌, ◌>>◌, pure, lift, check, fail, step, emit, create_ata, mint_to,
  create_metadata, set_mint_authority, launch,
}
use Prim.Native.String.{String}

-- The keys of the accounts of the context.
pub record CreateBondingCurve : Type 0 where
  pub global_config : Pubkey
  pub global_vault : Pubkey
  pub creator : Pubkey
  pub token : Pubkey
  pub bonding_curve : Pubkey
  pub token_metadata_account : Pubkey
  pub global_token_account : Pubkey
  pub system_program : Pubkey
  pub rent : Pubkey
  pub token_program : Pubkey
  pub associated_token_program : Pubkey
  pub mpl_token_metadata_program : Pubkey
  pub team_wallet : Pubkey

-- `10u64.pow(decimals as u32)`, which panics on overflow under `overflow-checks`.
unfoldable pub decimal_power : ℕ → Result Fault ℕ
decimal_power decimals = if ltb (10 ^ decimals) u64_bound then ok (10 ^ decimals) else err panic

-- The checks of the parameters.
unfoldable pub check_params : Config → (decimals token_supply reserve_lamport : ℕ) → Run (Unit {0})
check_params global_config decimals token_supply reserve_lamport = do
  decimal_multiplier ← lift (decimal_power decimals)
  let fractional_tokens = token_supply % decimal_multiplier
  if fractional_tokens == 0 then pure tt else fail (contract value_invalid)
  check (validate global_config.lamport_amount_config reserve_lamport)
  check (validate global_config.token_supply_config (token_supply / decimal_multiplier))
  check (validate global_config.token_decimals_config decimals)

-- The assignments to the account's fields; `is_completed` is written after the calls.
unfoldable pub launch_curve :
    CreateBondingCurve → Config → (token_supply reserve_lamport : ℕ) → BondingCurve → BondingCurve
launch_curve self global_config token_supply reserve_lamport curve = record curve {
  token_mint = self.token;
  creator = self.creator;
  init_lamport = reserve_lamport;
  virtual_sol_reserves = global_config.initial_virtual_sol_reserves_config;
  virtual_token_reserves = global_config.initial_virtual_token_reserves_config;
  real_sol_reserves = 0;
  real_token_reserves = global_config.initial_real_token_reserves_config;
  token_total_supply = token_supply;
}

module _ (rt : Runtime) (self : CreateBondingCurve) where
  open rt use {invoke}

  abbrev pub ata_call : World → Result Fault World
  ata_call =
      invoke none (create_ata self.creator self.global_token_account self.global_vault self.token)

  abbrev pub mint_call : (token_supply global_vault_bump : ℕ) → World → Result Fault World
  mint_call token_supply bump =
      invoke (some (global_seed, bump))
        (mint_to self.token self.global_token_account self.global_vault token_supply)

  abbrev pub metadata_call :
      (name symbol uri : String) (global_vault_bump : ℕ) → World → Result Fault World
  metadata_call name symbol uri bump = invoke (some (global_seed, bump)) (
      create_metadata self.token_metadata_account self.token self.global_vault self.creator
        self.global_vault name symbol uri)

  abbrev pub revoke_call : (global_vault_bump : ℕ) → World → Result Fault World
  revoke_call bump =
      invoke (some (global_seed, bump)) (set_mint_authority self.token self.global_vault none)

  -- The four calls of other programs, in order; the last three are signed for the vault.
  unfoldable pub issue_token :
      (token_supply : ℕ) (name symbol uri : String) (global_vault_bump : ℕ) → Run (Unit {0})
  issue_token token_supply name symbol uri bump = do
    step ata_call
    step (mint_call token_supply bump)
    step (metadata_call name symbol uri bump)
    step (revoke_call bump)

  unfoldable pub handler :
      Config
      → BondingCurve
      → (decimals token_supply reserve_lamport : ℕ) (name symbol uri : String)
        (global_vault_bump : ℕ)
      → Run BondingCurve
  handler global_config bonding_curve decimals token_supply reserve_lamport name symbol uri bump =
      do
        check_params global_config decimals token_supply reserve_lamport
        let launched = launch_curve self global_config token_supply reserve_lamport bonding_curve
        issue_token token_supply name symbol uri bump
        let opened = record launched { is_completed = false }
        emit (
            launch (record {
              creator = self.creator;
              mint = self.token;
              bonding_curve = self.bonding_curve;
              metadata = self.token_metadata_account;
              decimals = decimals;
              token_supply = token_supply;
              reserve_lamport = reserve_lamport;
              reserve_token = global_config.initial_real_token_reserves_config;
            }))
        pure opened
