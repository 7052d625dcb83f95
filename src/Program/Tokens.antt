-- ===== src/Program/Tokens.antt =====
-- The launched tokens along a history of the program of programs/pump-raydium/src/lib.rs.
use pumpfun_solana_smart_con.Base.{◌≤◌}
use pumpfun_solana_smart_con.Curve.{Pubkey, BondingCurve}
use pumpfun_solana_smart_con.Svm.{World, Runtime}
use pumpfun_solana_smart_con.Svm.Laws.{Holds}
use pumpfun_solana_smart_con.Accounts.{Addresses, ata_address, vault_address}
use pumpfun_solana_smart_con.Program.{Chain, Loader, History}

module _ (ad : Addresses) (rt : Runtime) (loader : Loader) where
  -- The account that holds the vault's tokens of a mint.
  abbrev pub vault_account : (mint : Pubkey) → Pubkey
  vault_account mint = ata_address ad (vault_address ad rt.crate_id) mint

  -- Between two machines: no token account of the vault has become smaller.
  abbrev VaultHolds : World → World → Type 0
  VaultHolds w v =
      (mint : Pubkey) → w.token_amount (vault_account mint) ≤ v.token_amount (vault_account mint)

  -- A history in which others take no tokens from the accounts of the vault, whose key only this
  -- program can sign for.
  abbrev pub Guarded : Chain → Chain → Type 0
  Guarded = History ad rt loader VaultHolds

  -- The vault holds all the tokens of the curve.
  abbrev InVault : World → BondingCurve → Type 0
  InVault w b = b.token_total_supply ≤ w.token_amount (vault_account b.token_mint)
