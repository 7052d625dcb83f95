-- ===== src/Program.antt =====
-- The entry points of programs/pump-raydium/src/lib.rs, after the
-- attributes of their contexts: a request runs against the machine and the bonding curve accounts
-- of the program, which are found by their keys.
pub mod Entry
pub mod Laws
pub mod Curves
pub mod Frozen
pub mod Vault
pub mod Settings
pub mod Supply
pub mod Log
pub mod Governed
pub mod Truth
pub mod Costs
pub mod Launches
pub mod Swaps
pub mod Tokens
pub mod Invariant
use pumpfun_solana_smart_con.Base.{
  ℕ, ◌≡◌, Bool, Option, none, some, List, [], ◌∷◌, ◌==◌, if◌then◌else◌,
}
use pumpfun_solana_smart_con.Constants.{config_seed, global_seed}
use pumpfun_solana_smart_con.Accounts.{
  Addresses, word, bump, configure_accounts, create_accounts, swap_accounts,
}
use pumpfun_solana_smart_con.Accounts.Migration.{migrate_accounts}
use pumpfun_solana_smart_con.Rust.{Result, ok, err}
use pumpfun_solana_smart_con.Errors.{Fault, incorrect_authority}
use pumpfun_solana_smart_con.Curve.{Pubkey, BondingCurve}
use pumpfun_solana_smart_con.Config.{Config}
use pumpfun_solana_smart_con.Svm.{
  World, Runtime, Run, ◌>>=◌, ◌>>◌, pure, lift, fail, require, step, update,
}
use pumpfun_solana_smart_con.Instructions.Configure
use pumpfun_solana_smart_con.Instructions.Configure.{Configure}
use pumpfun_solana_smart_con.Instructions.Create
use pumpfun_solana_smart_con.Instructions.Create.{CreateBondingCurve}
use pumpfun_solana_smart_con.Instructions.Swap
use pumpfun_solana_smart_con.Instructions.Swap.{Swap}
use pumpfun_solana_smart_con.Instructions.Migrate
use pumpfun_solana_smart_con.Instructions.Migrate.{Migrate}
use Prim.Native.String.{String}

pub record Chain : Type 0 where
  pub world : World
  pub curves : Pubkey → Option BondingCurve

-- The generated code that prepares the accounts: it reads the configuration from the account with
-- the given key, creates what the attributes `init` and `init_if_needed` demand, fills a fresh
-- bonding curve account with zeros, and has its own errors.
pub record Loader : Type 0 where
  pub load_config : Pubkey → World → Result Fault Config
  pub init_wsol : Configure → World → Result Fault World
  pub init_launch : CreateBondingCurve → (decimals : ℕ) → World → Result Fault World
  pub zeroed : BondingCurve
  pub not_initialized : Fault
  pub in_use : Fault
  pub rejected : Fault

-- The arguments of the entry points.
pub data Request : Type 0 where
  configure : (accounts : Configure) (new_config : Config) → Request
  create_bonding_curve :
      (accounts : CreateBondingCurve) (decimals token_supply reserve_lamport : ℕ)
      (name symbol uri : String)
      → Request
  swap : (accounts : Swap) (amount direction minimum_receive_amount : ℕ) → Request
  migrate : (accounts : Migrate) (nonce : ℕ) → Request

-- A handler's run, and what it leaves of the accounts.
abbrev pub on_chain :
    {A : Type 0} → Run A → (A → Pubkey → Option BondingCurve) → Chain → Result Fault Chain
on_chain m put chain = elim (m chain.world) [
  | ok (a, w) ↦ ok (record { world = w; curves = put a })
  | err e ↦ err e
]

module _ (ad : Addresses) (rt : Runtime) (loader : Loader) where
  -- The attributes of the context hold.
  abbrev pub require_accounts : Bool → Run (Unit {0})
  require_accounts valid = if valid then pure tt else fail loader.rejected

  -- The account `global_config`, and the constraint
  -- `global_config.team_wallet == team_wallet.key() @ IncorrectAuthority`.
  unfoldable pub global_config : (account team_wallet : Pubkey) → Run Config
  global_config account team_wallet = do
    config ← λ w. lift (loader.load_config account w) w
    require (config.team_wallet == team_wallet) incorrect_authority
    pure config

  -- An account `bonding_curve` that has to be there, or that must not be there (`init`).
  abbrev pub existing : Option BondingCurve → Run BondingCurve
  existing none = fail loader.not_initialized
  existing (some c) = pure c

  abbrev pub fresh : Option BondingCurve → Run BondingCurve
  fresh none = pure loader.zeroed
  fresh (some c) = fail loader.in_use

  module _ (signers : List Pubkey) where
    -- The order of the checks decides only which error is reported.
    unfoldable pub execute : Request → Chain → Result Fault Chain
    execute (configure self new_config) chain =
        let run = do
          require_accounts (configure_accounts ad rt.crate_id signers self)
          step (loader.init_wsol self)
          Configure.handler rt self new_config (bump ad rt.crate_id (word config_seed ∷ []))
        in on_chain run (λ _. chain.curves) chain
    execute (create_bonding_curve self decimals supply reserve name symbol uri) chain =
        let run = do
          require_accounts (create_accounts ad rt.crate_id signers self)
          config ← global_config self.global_config self.team_wallet
          curve ← fresh (chain.curves self.bonding_curve)
          step (loader.init_launch self decimals)
          Create.handler rt self config curve decimals supply reserve name symbol uri
              (bump ad rt.crate_id (word global_seed ∷ []))
        in on_chain run (λ c. update chain.curves self.bonding_curve (some c)) chain
    execute (swap self amount direction minimum) chain =
        let run = do
          require_accounts (swap_accounts ad rt.crate_id signers self)
          config ← global_config self.global_config self.team_wallet
          curve ← existing (chain.curves self.bonding_curve)
          Swap.handler rt self curve amount direction minimum
              (bump ad rt.crate_id (word global_seed ∷ []))
        in on_chain run (λ r. update chain.curves self.bonding_curve (some r.1)) chain
    execute (migrate self nonce) chain =
        let run = do
          require_accounts (migrate_accounts ad rt.crate_id signers self)
          config ← global_config self.global_config self.team_wallet
          curve ← existing (chain.curves self.bonding_curve)
          Migrate.process config curve nonce (bump ad rt.crate_id (word global_seed ∷ []))
        in on_chain run (λ c. update chain.curves self.bonding_curve (some c)) chain

  -- A history: transactions of the program that went through, and changes of the machine that
  -- others have made, as far as `Allowed` goes; they cannot write the program's accounts.
  pub data History (Allowed : World → World → Type 0) : Chain → Chain → Type 0 where
    done : {c : Chain} → History Allowed c c
    executed :
        (signers : List Pubkey) (request : Request) {c d e : Chain}
        → execute signers request c ≡ ok d
        → History Allowed d e
        → History Allowed c e
    others :
        (w : World) {c e : Chain}
        → Allowed c.world w
        → History Allowed (record c { world = w }) e
        → History Allowed c e

  -- A history in which others may do anything.
  abbrev pub Runs : Chain → Chain → Type 0
  Runs = History (λ _ _. Unit {0})
