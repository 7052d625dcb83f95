-- ===== src/Accounts/Migration.antt =====
-- The account attributes of `Migrate` in
-- programs/pump-raydium/src/instructions/migration/migrate.rs.
use pumpfun_solana_smart_con.Base.{Bool, ◌&&◌, List, [], ◌∷◌, ◌==◌}
use pumpfun_solana_smart_con.Curve.{Pubkey}
use pumpfun_solana_smart_con.Config.{contains, unsigned_ord}
use pumpfun_solana_smart_con.Instructions.Migrate.{Migrate}
use pumpfun_solana_smart_con.Accounts.{
  word, key, Addresses, at_seeds, at_ata, config_address, vault_address, curve_address,
}
use Prim.Native.String.{String}

module _ (ad : Addresses) (crate : Pubkey) (signers : List Pubkey) where
  -- An account that the pool program derives for the market and a word.
  abbrev at_market : Migrate → Pubkey → String → Bool
  at_market self account name =
      at_seeds ad account self.amm_program (key self.amm_program ∷ key self.market ∷ word name ∷ [])

  -- The keys of `amm_program`, `token_program` and others are not checked.
  unfoldable pub migrate_accounts : Migrate → Bool
  migrate_accounts self =
      self.global_config == config_address ad crate
      && self.bonding_curve == curve_address ad crate self.coin_mint
      && self.global_vault == vault_address ad crate
      && self.system_program == ad.system_program_id
      && at_market self self.amm "amm_associated_seed"
      && at_seeds ad self.amm_authority self.amm_program (word "amm authority" ∷ [])
      && at_market self self.amm_open_orders "open_order_associated_seed"
      && at_market self self.lp_mint "lp_mint_associated_seed"
      && at_market self self.coin_vault "coin_vault_associated_seed"
      && at_market self self.pc_vault "pc_vault_associated_seed"
      && at_market self self.target_orders "target_associated_seed"
      && at_seeds ad self.amm_config self.amm_program (word "amm_config_account_seed" ∷ [])
      && contains signers self.payer
      && at_ata ad self.global_token_account self.global_vault self.coin_mint
      && at_ata ad self.global_wsol_account self.global_vault self.pc_mint
      && at_ata ad self.global_lp_account self.global_vault self.lp_mint
