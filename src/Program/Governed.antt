-- ===== src/Program/Governed.antt =====
-- Who changes the configuration in a history of the program of
-- programs/pump-raydium/src/lib.rs.
use pumpfun_solana_smart_con.Base.{◌≡◌, ap, sym, ◌∙◌, true, false, List, take, drop, arith}
use pumpfun_solana_smart_con.Rust.{ok}
use pumpfun_solana_smart_con.Curve.{Pubkey}
use pumpfun_solana_smart_con.Config.{Config, contains, unsigned_ord}
use pumpfun_solana_smart_con.Svm.{World, Runtime}
use pumpfun_solana_smart_con.Svm.Laws.{OwnerLaws, Owned}
use pumpfun_solana_smart_con.Instructions.Configure.{Configure}
use pumpfun_solana_smart_con.Instructions.Configure.Outcome.{configure_authorised}
use pumpfun_solana_smart_con.Instructions.Owned.{swap-Owned, create-Owned}
use pumpfun_solana_smart_con.Accounts.{Addresses, config_address, configure_accounts}
use pumpfun_solana_smart_con.Program.{
  Chain, Loader, Request, configure, create_bonding_curve, swap, migrate, execute, History, done,
  executed, others,
}
use pumpfun_solana_smart_con.Program.Laws.{LoaderLaws}
use pumpfun_solana_smart_con.Program.Entry.{create_inv, swap_inv, migrate_inv, configure_inv}

module _ (ad : Addresses) (rt : Runtime) where
  -- The configuration account belongs to the program and holds the configuration.
  pub record Stored (config : Config) (w : World) : Type 0 where
    pub owned : w.owner (config_address ad rt.crate_id) ≡ rt.crate_id
    pub head : take 8 (w.account_data (config_address ad rt.crate_id)) ≡ rt.discriminator
    pub decoded :
        rt.deserialize (drop 8 (w.account_data (config_address ad rt.crate_id))) ≡ ok config

  Stored-Owned :
      (config : Config) (w v : World) → Owned rt.crate_id w v → Stored config w → Stored config v
  Stored-Owned config w v kept s =
      let (owner, bytes) = kept (config_address ad rt.crate_id) s.owned in
      record {
        owned = owner;
        head = ap (λ xs. take 8 xs) bytes ∙ s.head;
        decoded = ap (λ xs. rt.deserialize (drop 8 xs)) bytes ∙ s.decoded;
      }

  pub configure_names :
      (signers : List Pubkey) (self : Configure)
      → configure_accounts ad rt.crate_id signers self ≡ true
      → (self.config ≡ config_address ad rt.crate_id) × (contains signers self.payer ≡ true)
  unfolding configure_accounts
  configure_names signers self e = (ground arith, ground arith)

  module _ (loader : Loader) where
    -- A history in which others do not write the accounts of the program.
    abbrev pub Respectful : Chain → Chain → Type 0
    Respectful = History ad rt loader (Owned rt.crate_id)

    -- The key has signed none of the program's transactions.
    unfoldable pub Unsigned : Pubkey → {c e : Chain} → Respectful c e → Type 0
    Unsigned k done = Unit {0}
    Unsigned k (executed signers r went rest) = (contains signers k ≡ false) × Unsigned k rest
    Unsigned k (others w kept rest) = Unsigned k rest

    module _ (laws : OwnerLaws rt) (loads : LoaderLaws rt loader) (config : Config) where
      request_governed :
          (signers : List Pubkey) (r : Request) (c e : Chain)
          → execute ad rt loader signers r c ≡ ok e
          → contains signers config.authority ≡ false
          → Stored config c.world
          → Stored config e.world
      request_governed signers (configure self new_config) c e went absent s =
          let f = configure_inv ad rt loader signers self new_config c e went in
          let (place, signs) = configure_names signers self f.valid in
          let t =
            Stored-Owned config c.world f.before (loads.wsol_owned self c.world f.prepared) s in
          let a =
            configure_authorised rt self new_config _ f.before
              (ap (λ k. f.before.owner k) place ∙ t.owned) f.ran in
          let same : ok a.stored ≡ ok config =
            sym a.decoded
            ∙ ap (λ k. rt.deserialize (drop 8 (f.before.account_data k))) place
            ∙ t.decoded in
          absurd (ground (arith, same, a.authority))
      request_governed signers (create_bonding_curve self d n r name symbol uri) c e went absent s =
          let l = create_inv ad rt loader signers self d n r name symbol uri c e went in
          Stored-Owned config l.before e.world
            (create-Owned rt laws self l.config loader.zeroed d n r name symbol uri _ l.before
              l.ran)
            (Stored-Owned config c.world l.before (loads.launch_owned self d c.world l.prepared) s)
      request_governed signers (swap self amount direction minimum) c e went absent s =
          let h = swap_inv ad rt loader signers self amount direction minimum c e went in
          Stored-Owned config c.world e.world
            (swap-Owned rt laws self h.curve amount direction minimum _ c.world h.ran) s
      request_governed signers (migrate self nonce) c e went absent s =
          let (_, _, same, _) = migrate_inv ad rt loader signers self nonce c e went in rw same s

      -- Where the machine lets no program write the accounts of another: a stored configuration
      -- stays as it is, whatever requests and foreign transactions follow, as long as the authority
      -- that it names signs none of the program's transactions.
      pub configuration_governed :
          {c e : Chain} (history : Respectful c e)
          → Unsigned config.authority history
          → Stored config c.world
          → Stored config e.world
      unfolding Unsigned
      configuration_governed done absent s = s
      configuration_governed (executed signers r {c} {d} went rest) absent s =
          configuration_governed rest absent.1 (request_governed signers r c d went absent.0 s)
      configuration_governed (others w {c} kept rest) absent s =
          configuration_governed rest absent (Stored-Owned config c.world w kept s)
