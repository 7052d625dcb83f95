-- ===== src/Program/Entry.antt =====
-- What a request of programs/pump-raydium/src/lib.rs that went through has run.
use pumpfun_solana_smart_con.Base.{
  ℕ, ◌≡◌, inl, inr, true, Option, none, some, List, [], ◌∷◌, arith, Option-cases,
}
use pumpfun_solana_smart_con.Constants.{config_seed, global_seed}
use pumpfun_solana_smart_con.Accounts.{
  Addresses, word, bump, configure_accounts, create_accounts, swap_accounts,
}
use pumpfun_solana_smart_con.Rust.{ok, Result-cases}
use pumpfun_solana_smart_con.Curve.{Pubkey, BondingCurve}
use pumpfun_solana_smart_con.Config.{Config}
use pumpfun_solana_smart_con.Svm.{World, Runtime, update}
use pumpfun_solana_smart_con.Instructions.Configure.{Configure}
use pumpfun_solana_smart_con.Instructions.Configure
use pumpfun_solana_smart_con.Instructions.Create.{CreateBondingCurve}
use pumpfun_solana_smart_con.Instructions.Create
use pumpfun_solana_smart_con.Instructions.Swap.{Swap}
use pumpfun_solana_smart_con.Instructions.Swap
use pumpfun_solana_smart_con.Instructions.Swap.Drain.{swap_sent}
use pumpfun_solana_smart_con.Instructions.Migrate.{process}
use pumpfun_solana_smart_con.Instructions.Migrate.{Migrate}
use pumpfun_solana_smart_con.Program.{
  Chain, Loader, configure, create_bonding_curve, swap, migrate, global_config, execute,
}
use Prim.Native.String.{String}

-- A state is its two parts.
pub chain_eq :
    (e : Chain) (w : World) (f : Pubkey → Option BondingCurve)
    → e.world ≡ w
    → e.curves ≡ f
    → e ≡ record { world = w; curves = f }
chain_eq e w f p q = cc

module _ (ad : Addresses) (rt : Runtime) (loader : Loader) (signers : List Pubkey) where
  abbrev vault_bump : ℕ
  vault_bump = bump ad rt.crate_id (word global_seed ∷ [])

  -- A launch: the attributes held, the account was not there, and the handler has filled it.
  pub record Launched (self : CreateBondingCurve) (d n r : ℕ) (name symbol uri : String)
      (c e : Chain) : Type 0 where
    pub valid : create_accounts ad rt.crate_id signers self ≡ true
    pub config : Config
    pub loaded : loader.load_config self.global_config c.world ≡ ok config
    pub ours : config.team_wallet ≡ self.team_wallet
    pub curve : BondingCurve
    pub free : c.curves self.bonding_curve ≡ none
    pub before : World
    pub prepared : loader.init_launch self d c.world ≡ ok before
    pub ran :
        Create.handler rt self config loader.zeroed d n r name symbol uri vault_bump before
        ≡ ok (curve, e.world)
    pub curves : e.curves ≡ update c.curves self.bonding_curve (some curve)

  pub create_inv :
      (self : CreateBondingCurve) (d n r : ℕ) (name symbol uri : String) (c e : Chain)
      → execute ad rt loader signers (create_bonding_curve self d n r name symbol uri) c ≡ ok e
      → Launched self d n r name symbol uri c e
  unfolding execute global_config
  create_inv self d n r name symbol uri c e went =
      elim (Option-cases (c.curves self.bonding_curve)) [
        | inr (b, there) ↦ absurd (ground arith)
        | inl free ↦ elim (Result-cases (loader.load_config self.global_config c.world)) [
          | inr (x, failed) ↦ absurd (ground arith)
          | inl (config, loaded) ↦ elim (Result-cases (loader.init_launch self d c.world)) [
            | inr (x, failed) ↦ absurd (ground arith)
            | inl (w, prepared) ↦
                elim (Result-cases (
                  Create.handler rt self config loader.zeroed d n r name symbol uri vault_bump w)) [
                    | inr (x, failed) ↦ absurd (ground arith)
                    | inl ((b, v), created) ↦ record {
                      valid = ground arith;
                      config = config;
                      loaded = loaded;
                      ours = ground arith;
                      curve = b;
                      free = free;
                      before = w;
                      prepared = prepared;
                      ran = ground arith;
                      curves = ground arith;
                    }
                  ]
          ]
        ]
      ]

  -- A swap: the attributes held, and the account was there and is as it was.
  pub record Swapped (self : Swap) (amount direction minimum : ℕ) (c e : Chain) : Type 0 where
    pub valid : swap_accounts ad rt.crate_id signers self ≡ true
    pub config : Config
    pub loaded : loader.load_config self.global_config c.world ≡ ok config
    pub ours : config.team_wallet ≡ self.team_wallet
    pub curve : BondingCurve
    pub there : c.curves self.bonding_curve ≡ some curve
    pub amount_out : ℕ
    pub ran :
        Swap.handler rt self curve amount direction minimum vault_bump c.world
        ≡ ok ((amount_out, curve), e.world)
    pub curves : e.curves ≡ update c.curves self.bonding_curve (some curve)

  pub swap_inv :
      (self : Swap) (amount direction minimum : ℕ) (c e : Chain)
      → execute ad rt loader signers (swap self amount direction minimum) c ≡ ok e
      → Swapped self amount direction minimum c e
  unfolding execute global_config
  swap_inv self amount direction minimum c e went =
      elim (Option-cases (c.curves self.bonding_curve)) [
        | inl missing ↦ absurd (ground arith)
        | inr (b, there) ↦ elim (Result-cases (loader.load_config self.global_config c.world)) [
          | inr (x, failed) ↦ absurd (ground arith)
          | inl (config, loaded) ↦
              elim (Result-cases
                (Swap.handler rt self b amount direction minimum vault_bump c.world)) [
                  | inr (x, failed) ↦ absurd (ground arith)
                  | inl (((out, b'), v), swapped) ↦
                      let (_, _, _, same, _) =
                        swap_sent rt self b amount direction minimum vault_bump c.world swapped in
                      record {
                        valid = ground arith;
                        config = config;
                        loaded = loaded;
                        ours = ground arith;
                        curve = b;
                        there = there;
                        amount_out = out;
                        ran = ground arith;
                        curves = ground arith;
                      }
                ]
        ]
      ]

  -- A migration: the account was there, and nothing has changed.
  pub migrate_inv :
      (self : Migrate) (nonce : ℕ) (c e : Chain)
      → execute ad rt loader signers (migrate self nonce) c ≡ ok e
      → (b : BondingCurve) × (c.curves self.bonding_curve ≡ some b)
        × (e.world ≡ c.world)
        × (e.curves ≡ update c.curves self.bonding_curve (some b))
  unfolding execute global_config process
  migrate_inv self nonce c e went = elim (Option-cases (c.curves self.bonding_curve)) [
    | inl missing ↦ absurd (ground arith)
    | inr (b, there) ↦ (b, there, ground arith, ground arith)
  ]

  -- A configuration: the attributes held, and the bonding curves are as they were.
  pub record Configured (self : Configure) (new_config : Config) (c e : Chain) : Type 0 where
    pub valid : configure_accounts ad rt.crate_id signers self ≡ true
    pub before : World
    pub prepared : loader.init_wsol self c.world ≡ ok before
    pub ran :
        Configure.handler rt self new_config (bump ad rt.crate_id (word config_seed ∷ [])) before
        ≡ ok (tt, e.world)
    pub curves : e.curves ≡ c.curves

  pub configure_inv :
      (self : Configure) (new_config : Config) (c e : Chain)
      → execute ad rt loader signers (configure self new_config) c ≡ ok e
      → Configured self new_config c e
  unfolding execute
  configure_inv self new_config c e went = elim (Result-cases (loader.init_wsol self c.world)) [
    | inr (x, failed) ↦ absurd (ground arith)
    | inl (w, prepared) ↦
        elim (Result-cases
          (Configure.handler rt self new_config (bump ad rt.crate_id (word config_seed ∷ [])) w)) [
            | inr (x, failed) ↦ absurd (ground arith)
            | inl ((_, v), configured) ↦ record {
              valid = ground arith;
              before = w;
              prepared = prepared;
              ran = ground arith;
              curves = ground arith;
            }
          ]
  ]
