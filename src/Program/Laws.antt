-- ===== src/Program/Laws.antt =====
-- What the entry points of programs/pump-raydium/src/lib.rs rely on: the derivation of addresses,
-- and the code that Anchor generates to prepare the accounts.
use pumpfun_solana_smart_con.Base.{ℕ, ◌+◌, ◌≡◌, ◌≢◌, true, false, none, List, take, drop, ◌≤◌}
use pumpfun_solana_smart_con.Rust.{ok}
use pumpfun_solana_smart_con.Curve.{Pubkey}
use pumpfun_solana_smart_con.Config.{Config, contains, unsigned_ord}
use pumpfun_solana_smart_con.Svm.{World, Runtime}
use pumpfun_solana_smart_con.Svm.Laws.{Sealed, Holds, Owned}
use pumpfun_solana_smart_con.Instructions.Configure.{Configure}
use pumpfun_solana_smart_con.Instructions.Create.{CreateBondingCurve}
use pumpfun_solana_smart_con.Accounts.{
  Seed, Addresses, address, ata_address, config_address, vault_address, curve_address,
}
use pumpfun_solana_smart_con.Program.{Loader}

-- Derived addresses do not collide, as a hash does not, and lie off the signature curve.
pub record AddressLaws (ad : Addresses) (crate : Pubkey) : Type 0 where
  pub curve_injective : (m n : Pubkey) → curve_address ad crate m ≡ curve_address ad crate n → m ≡ n
  pub config_vault : config_address ad crate ≢ vault_address ad crate
  pub ata_config :
      (authority mint : Pubkey) → ata_address ad authority mint ≢ config_address ad crate
  pub ata_vault : (authority mint : Pubkey) → ata_address ad authority mint ≢ vault_address ad crate
  pub off_curve :
      (program : Pubkey) (seeds : List Seed) → ad.on_curve (address ad program seeds) ≡ false

-- Only a point of the curve has a signature that the machine accepts.
abbrev pub IsSigned : Addresses → List Pubkey → Type 0
IsSigned ad signers = (k : Pubkey) → contains signers k ≡ true → ad.on_curve k ≡ true

-- `init_if_needed` on the associated token account `global_wsol_account` of `configure`: the payer
-- pays the account's rent, and no other account changes.
pub record WsolLaws (loader : Loader) : Type 0 where
  pub paid :
      (self : Configure) (w : World) {v : World}
      → loader.init_wsol self w ≡ ok v
      → self.payer ≢ self.global_wsol_account
      → (v.lamports self.payer + v.lamports self.global_wsol_account
          ≡ w.lamports self.payer + w.lamports self.global_wsol_account)
        × (w.lamports self.global_wsol_account ≤ v.lamports self.global_wsol_account)
  pub others :
      (self : Configure) (k : Pubkey) (w : World) {v : World}
      → loader.init_wsol self w ≡ ok v
      → k ≢ self.global_wsol_account
      → (v.owner k ≡ w.owner k)
        × (v.account_data k ≡ w.account_data k)
        × (v.token_amount k ≡ w.token_amount k)
        × (k ≢ self.payer → v.lamports k ≡ w.lamports k)
  pub frame :
      (self : Configure) (w : World) {v : World}
      → loader.init_wsol self w ≡ ok v
      → v ≡ record w {
        lamports = v.lamports;
        owner = v.owner;
        account_data = v.account_data;
        token_amount = v.token_amount;
      }

pub record LoaderLaws (rt : Runtime) (loader : Loader) : Type 0 where
  -- An account of the program that begins with the discriminator is decoded.
  pub loads :
      (k : Pubkey) (w : World) (c : Config)
      → w.owner k ≡ rt.crate_id
      → take 8 (w.account_data k) ≡ rt.discriminator
      → rt.deserialize (drop 8 (w.account_data k)) ≡ ok c
      → loader.load_config k w ≡ ok c
  -- The mint of a launch is new, and no other mint is touched.
  pub new_mint :
      (self : CreateBondingCurve) (decimals : ℕ) (w : World) {v : World}
      → loader.init_launch self decimals w ≡ ok v
      → v.supply self.token ≡ 0
  pub other_mints :
      (self : CreateBondingCurve) (decimals : ℕ) (k : Pubkey) (w : World) {v : World}
      → loader.init_launch self decimals w ≡ ok v
      → k ≢ self.token
      → w.mint_authority k ≡ none
      → (v.mint_authority k ≡ none) × (v.supply k ≤ w.supply k)
  pub wsol_seals :
      (self : Configure) (w : World) {v : World} → loader.init_wsol self w ≡ ok v → Sealed w v
  -- No tokens are taken from anybody.
  pub launch_holds :
      (self : CreateBondingCurve) (decimals : ℕ) (w : World) {v : World}
      → loader.init_launch self decimals w ≡ ok v
      → Holds w v
  pub wsol_holds :
      (self : Configure) (w : World) {v : World} → loader.init_wsol self w ≡ ok v → Holds w v
  -- The accounts of the program that are there stay as they are.
  pub launch_owned :
      (self : CreateBondingCurve) (decimals : ℕ) (w : World) {v : World}
      → loader.init_launch self decimals w ≡ ok v
      → Owned rt.crate_id w v
  pub wsol_owned :
      (self : Configure) (w : World) {v : World}
      → loader.init_wsol self w ≡ ok v
      → Owned rt.crate_id w v
  -- No event of the program comes from there.
  pub launch_events :
      (self : CreateBondingCurve) (decimals : ℕ) (w : World) {v : World}
      → loader.init_launch self decimals w ≡ ok v
      → v.events ≡ w.events
  pub wsol_events :
      (self : Configure) (w : World) {v : World}
      → loader.init_wsol self w ≡ ok v
      → v.events ≡ w.events
