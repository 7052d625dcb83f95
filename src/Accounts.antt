-- ===== src/Accounts.antt =====
-- The account attributes of the contexts of programs/pump-raydium/src/instructions: signers,
-- derived addresses and fixed addresses, as Anchor checks them before a handler runs. The
-- derivation of addresses and the ids of the called programs are a parameter, Addresses.
pub mod Migration
use pumpfun_solana_smart_con.Base.{ℕ, Bool, ◌&&◌, ◌≡◌, ◌≢◌, false, List, [], ◌∷◌, ◌==◌}
use pumpfun_solana_smart_con.Constants.{config_seed, global_seed, bonding_curve_seed, metadata_seed}
use pumpfun_solana_smart_con.Curve.{Pubkey}
use pumpfun_solana_smart_con.Config.{contains, unsigned_ord}
use pumpfun_solana_smart_con.Instructions.Configure.{Configure}
use pumpfun_solana_smart_con.Instructions.Create.{CreateBondingCurve}
use pumpfun_solana_smart_con.Instructions.Swap.{Swap}
use Prim.Native.String.{String}

-- A seed of an address: the bytes of a word, or those of a key.
pub data Seed : Type 0 where
  word : String → Seed
  key : Pubkey → Seed

-- `Pubkey::find_program_address`, which answers an address and its bump, whether a key is a point of
-- the signature curve, and the ids that the crates declare.
pub record Addresses : Type 0 where
  pub find_program_address : (program : Pubkey) → List Seed → Pubkey × ℕ
  pub on_curve : Pubkey → Bool
  pub system_program_id : Pubkey
  pub token_id : Pubkey
  pub associated_token_id : Pubkey
  pub metadata_id : Pubkey
  pub rent_id : Pubkey
  pub native_mint_id : Pubkey

module _ (ad : Addresses) where
  open ad use {
    find_program_address, system_program_id, token_id, associated_token_id, metadata_id, rent_id,
    native_mint_id,
  }

  abbrev pub address : (program : Pubkey) → List Seed → Pubkey
  address program seeds = (find_program_address program seeds).0

  abbrev pub bump : (program : Pubkey) → List Seed → ℕ
  bump program seeds = (find_program_address program seeds).1

  -- `seeds = [..], bump`, with `seeds::program` where it is another program than this one.
  abbrev pub at_seeds : Pubkey → (program : Pubkey) → List Seed → Bool
  at_seeds account program seeds = account == address program seeds

  -- An associated token account, by seeds that are written out or by `associated_token::mint` and
  -- `associated_token::authority`.
  abbrev pub ata_address : (authority mint : Pubkey) → Pubkey
  ata_address authority mint =
      address associated_token_id (key authority ∷ key token_id ∷ key mint ∷ [])

  abbrev pub at_ata : Pubkey → (authority mint : Pubkey) → Bool
  at_ata account authority mint = account == ata_address authority mint

  module _ (crate : Pubkey) where
    abbrev pub config_address : Pubkey
    config_address = address crate (word config_seed ∷ [])

    abbrev pub vault_address : Pubkey
    vault_address = address crate (word global_seed ∷ [])

    abbrev pub curve_address : (mint : Pubkey) → Pubkey
    curve_address mint = address crate (word bonding_curve_seed ∷ key mint ∷ [])

    module _ (signers : List Pubkey) where
      unfoldable pub configure_accounts : Configure → Bool
      configure_accounts self =
          contains signers self.payer
          && self.config == config_address
          && self.global_vault == vault_address
          && at_ata self.global_wsol_account self.global_vault self.native_mint
          && self.native_mint == native_mint_id
          && self.system_program == system_program_id
          && self.token_program == token_id
          && self.associated_token_program == associated_token_id

      -- The new mint signs too: `init` without seeds asks for it.
      unfoldable pub create_accounts : CreateBondingCurve → Bool
      create_accounts self =
          self.global_config == config_address
          && self.global_vault == vault_address
          && contains signers self.creator
          && contains signers self.token
          && self.bonding_curve == curve_address self.token
          && at_seeds self.token_metadata_account metadata_id
              (word metadata_seed ∷ key metadata_id ∷ key self.token ∷ [])
          && at_ata self.global_token_account self.global_vault self.token
          && self.system_program == system_program_id
          && self.rent == rent_id
          && self.token_program == token_id
          && self.associated_token_program == associated_token_id
          && self.mpl_token_metadata_program == metadata_id

      unfoldable pub swap_accounts : Swap → Bool
      swap_accounts self =
          self.global_config == config_address
          && self.bonding_curve == curve_address self.token_mint
          && self.global_vault == vault_address
          && at_ata self.global_ata self.global_vault self.token_mint
          && at_ata self.user_ata self.user self.token_mint
          && contains signers self.user
          && self.system_program == system_program_id
          && self.token_program == token_id
          && self.associated_token_program == associated_token_id
