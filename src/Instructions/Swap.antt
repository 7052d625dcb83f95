-- ===== src/Instructions/Swap.antt =====
-- `Swap::handler` of programs/pump-raydium/src/instructions/curve/swap.rs, with the method `swap`
-- of programs/pump-raydium/src/state/bondingcurve.rs that it calls.
pub mod Drain
use pumpfun_solana_smart_con.Base.{ℕ, some, leb, if◌then◌else◌}
use pumpfun_solana_smart_con.Errors.{contract, invalid_amount}
use pumpfun_solana_smart_con.Constants.{global_seed}
use pumpfun_solana_smart_con.Curve.{Pubkey, BondingCurve}
use pumpfun_solana_smart_con.Svm.{Runtime, Run, ◌>>=◌, ◌>>◌, pure, gets, fail, emit, Seeds, swapped}
use pumpfun_solana_smart_con.Utils.{sol_transfer_with_signer}

-- The keys of the accounts of the context.
pub record Swap : Type 0 where
  pub global_config : Pubkey
  pub team_wallet : Pubkey
  pub bonding_curve : Pubkey
  pub global_vault : Pubkey
  pub token_mint : Pubkey
  pub global_ata : Pubkey
  pub user_ata : Pubkey
  pub user : Pubkey
  pub system_program : Pubkey
  pub token_program : Pubkey
  pub associated_token_program : Pubkey

module _ (rt : Runtime) where
  -- The method. Its other parameters (the configuration, the mint, the token accounts, the team
  -- wallet and the token program) are not read: the code that used them is commented out.
  unfoldable pub swap :
      BondingCurve
      → (source : Pubkey) (amount direction minimum_receive_amount : ℕ) (user : Pubkey) → Seeds
      → Run (ℕ × BondingCurve)
  swap curve source amount direction minimum_receive_amount user signer = do
    if leb amount 0 then fail (contract invalid_amount) else pure tt
    amount_out ← gets (λ w. w.lamports source)
    sol_transfer_with_signer rt source user signer amount_out
    pure (amount_out, curve)

  unfoldable pub handler :
      Swap
      → BondingCurve
      → (amount direction minimum_receive_amount global_vault_bump : ℕ) → Run (ℕ × BondingCurve)
  handler self curve amount direction minimum_receive_amount global_vault_bump = do
    let signer_seeds = some (global_seed, global_vault_bump)
    (amount_out, curve') ←
        swap curve self.global_vault amount direction minimum_receive_amount self.user signer_seeds
    emit (
        swapped (record {
          user = self.user;
          mint = self.token_mint;
          bonding_curve = self.bonding_curve;
          amount_in = amount;
          direction = direction;
          minimum_receive_amount = minimum_receive_amount;
          amount_out = amount_out;
          virtual_sol_reserves = curve'.virtual_sol_reserves;
          virtual_token_reserves = curve'.virtual_token_reserves;
        }))
    pure (amount_out, curve')
