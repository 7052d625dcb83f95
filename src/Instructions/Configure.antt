-- ===== src/Instructions/Configure.antt =====
-- `Configure::handler` of programs/pump-raydium/src/instructions/admin/configure.rs.
pub mod Steps
pub mod Effect
pub mod Frame
pub mod Outcome
pub mod Rent
pub mod Payment
pub mod Again
use pumpfun_solana_smart_con.Base.{
  ℕ, Bool, true, false, Option, none, some, not, ◌&&◌, ◌||◌, List, [], ◌∷◌, ◌++◌, length, take,
  drop, ltb, leb, ◌==◌, if◌then◌else◌,
}
use pumpfun_solana_smart_con.Rust.Signed.{as_i64, as_u64, i64_sub, is_positive}
use pumpfun_solana_smart_con.Rust.{Result, ok, err}
use pumpfun_solana_smart_con.Errors.{
  Fault, contract, panic, incorrect_config_account, incorrect_authority,
}
use pumpfun_solana_smart_con.Constants.{config_seed}
use pumpfun_solana_smart_con.Curve.{Pubkey}
use pumpfun_solana_smart_con.Config.{Config}
use pumpfun_solana_smart_con.Svm.{
  Runtime, World, Run, ◌>>=◌, ◌>>◌, pure, gets, lift, fail, step, update, create_account, transfer,
}
use pumpfun_solana_smart_con.Utils.{sol_transfer_from_user}

-- The keys of the accounts of the context.
pub record Configure : Type 0 where
  pub payer : Pubkey
  pub config : Pubkey
  pub global_vault : Pubkey
  pub global_wsol_account : Pubkey
  pub native_mint : Pubkey
  pub system_program : Pubkey
  pub token_program : Pubkey
  pub associated_token_program : Pubkey

-- Equality of byte strings.
abbrev pub same_bytes : List ℕ → List ℕ → Bool
same_bytes [] [] = true
same_bytes (x ∷ xs) (y ∷ ys) = x == y && same_bytes xs ys
same_bytes _ _ = false

-- An overflow of signed arithmetic.
abbrev or_panic {ℓ} : {A : Type ℓ} → Option A → Result Fault A
or_panic none = err panic
or_panic (some a) = ok a

module _ (rt : Runtime) (self : Configure) where
  open rt use {invoke, realloc, minimum_balance, crate_id, discriminator, try_to_vec, deserialize}

  -- `&data[0..8] != Config::DISCRIMINATOR`, where the data is too short for eight bytes.
  abbrev pub bad_discriminator : List ℕ → Bool
  bad_discriminator bytes = ltb (length bytes) 8 || not (same_bytes (take 8 bytes) discriminator)

  -- An account that the program owns holds a configuration, and the payer is its authority.
  unfoldable pub check_authority : Run (Unit {0})
  check_authority = do
    stored ← gets (λ w. w.account_data self.config)
    if bad_discriminator stored then fail (contract incorrect_config_account) else pure tt
    config ← lift (deserialize (drop 8 stored))
    if config.authority == self.payer then pure tt else fail (contract incorrect_authority)

  unfoldable pub create_config : (cost len bump : ℕ) → Run (Unit {0})
  create_config cost len bump =
      step (
        invoke (some (config_seed, bump)) (create_account self.payer self.config cost len crate_id))

  -- `lamport_delta > 0`: the payer adds what is lacking, and the data is resized.
  unfoldable pub top_up : (cost len : ℕ) → Run (Unit {0})
  top_up cost len = do
    held ← gets (λ w. w.lamports self.config)
    lamport_delta ← lift (or_panic (i64_sub (as_i64 cost) (as_i64 held)))
    let resize = do
      step (invoke none (transfer self.payer self.config (as_u64 lamport_delta)))
      step (realloc self.config len)
    if is_positive lamport_delta then resize else pure tt

  -- `try_borrow_mut_data()?[..len].copy_from_slice(serialized_config)`
  unfoldable pub write_config : List ℕ → Run (Unit {0})
  write_config serialized = do
    stored ← gets (λ w. w.account_data self.config)
    let len = length serialized
    let written = serialized ++ drop len stored
    let write =
        λ (w : World). ok (record w { account_data = update w.account_data self.config written })
    if leb len (length stored) then step write else fail panic

  unfoldable pub fund_vault : Run (Unit {0})
  fund_vault = do
    held ← gets (λ w. w.lamports self.global_vault)
    if held == 0 then sol_transfer_from_user rt self.payer self.global_vault 1_000_000 else pure tt

  unfoldable pub handler : Config → ℕ → Run (Unit {0})
  handler new_config config_bump = do
    bytes ← lift (try_to_vec new_config)
    let serialized = discriminator ++ bytes
    let len = length serialized
    let cost = minimum_balance len
    owner ← gets (λ w. w.owner self.config)
    if owner == crate_id then check_authority else create_config cost len config_bump
    top_up cost len
    write_config serialized
    fund_vault
