-- ===== src/Program/Frozen.antt =====
-- What a history of the program of programs/pump-raydium/src/lib.rs never does to its bonding curves.
use pumpfun_solana_smart_con.Base.{
  ℕ, ◌≡◌, ◌≢◌, inl, inr, none, some, true, List, arith, Option-cases,
}
use pumpfun_solana_smart_con.Rust.{ok, err}
use pumpfun_solana_smart_con.Errors.{contract, curve_not_completed}
use pumpfun_solana_smart_con.Curve.{Pubkey, BondingCurve}
use pumpfun_solana_smart_con.Config.{Config}
use pumpfun_solana_smart_con.Svm.{Runtime}
use pumpfun_solana_smart_con.Instructions.Migrate.{Migrate, process}
use pumpfun_solana_smart_con.Accounts.{Addresses}
use pumpfun_solana_smart_con.Accounts.Migration.{migrate_accounts}
use pumpfun_solana_smart_con.Program.{Chain, Loader, migrate, global_config, execute, Runs}
use pumpfun_solana_smart_con.Program.Curves.{
  Opened, AllOpened, Change-keeps, Change-opens, request_changes,
}
use pumpfun_solana_smart_con.Program.Invariant.{along}

-- Whatever requests and foreign transactions follow, a bonding curve account that exists stays
-- there with the same contents: no instruction of the program ever changes a launched curve.
pub curves_frozen :
    (ad : Addresses) (rt : Runtime) (loader : Loader) {c e : Chain} (k : Pubkey) (b : BondingCurve)
    → Runs ad rt loader c e
    → c.curves k ≡ some b
    → e.curves k ≡ some b
curves_frozen ad rt loader k b =
    along ad rt loader (λ _ _. Unit {0}) (λ c. c.curves k ≡ some b)
      (λ signers r c d went h.
        Change-keeps ad rt k b (request_changes ad rt loader signers r c d went) h)
      (λ c w _ h. h)

module _ (ad : Addresses) (rt : Runtime) (loader : Loader) {c e : Chain}
    (history : Runs ad rt loader c e) (start : (k : Pubkey) → c.curves k ≡ none) where
  -- From a state without curves every history leads to curves that stand at the address derived
  -- from their mint, hold no real lamports and are not completed.
  pub curves_Opened : (k : Pubkey) (b : BondingCurve) → e.curves k ≡ some b → Opened ad rt k b
  curves_Opened k b h =
      along ad rt loader (λ _ _. Unit {0}) (AllOpened ad rt)
        (λ signers r c d went. Change-opens ad rt (request_changes ad rt loader signers r c d went))
        (λ c w _ h. h) history (λ j d there. absurd (ground (arith, start j))) k b h

  -- No history makes a migration possible: from a state without curves, whatever happens, no later
  -- `migrate` succeeds, whoever signs it.
  pub migrate_never :
      (signers : List Pubkey) (self : Migrate) (nonce : ℕ) (d : Chain)
      → execute ad rt loader signers (migrate self nonce) e ≢ ok d
  unfolding execute global_config process
  migrate_never signers self nonce d went = elim (Option-cases (e.curves self.bonding_curve)) [
    | inl missing ↦ ground arith
    | inr (b, there) ↦ ground (arith, (curves_Opened self.bonding_curve b there).incomplete)
  ]

  -- After any history from a state without curves, `migrate` with valid accounts on a curve that
  -- exists, with a readable configuration and its team wallet, is refused with CurveNotCompleted.
  migrate_refused :
      (signers : List Pubkey) (self : Migrate) (nonce : ℕ) (b : BondingCurve) (config : Config)
      → migrate_accounts ad rt.crate_id signers self ≡ true
      → e.curves self.bonding_curve ≡ some b
      → loader.load_config self.global_config e.world ≡ ok config
      → config.team_wallet ≡ self.team_wallet
      → execute ad rt loader signers (migrate self nonce) e ≡ err (contract curve_not_completed)
  unfolding execute global_config process
  migrate_refused signers self nonce b config valid there loaded ours =
      ground (arith, (curves_Opened self.bonding_curve b there).incomplete)
