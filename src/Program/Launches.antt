-- ===== src/Program/Launches.antt =====
-- When the entry point `create_bonding_curve` of programs/pump-raydium/src/lib.rs goes through.
use pumpfun_solana_smart_con.Base.{ℕ, ◌≡◌, ◌↔◌, true, none, some, List, [], ◌∷◌, ◌∙◌, ap, arith}
use pumpfun_solana_smart_con.Constants.{global_seed}
use pumpfun_solana_smart_con.Rust.{ok}
use pumpfun_solana_smart_con.Curve.{Pubkey}
use pumpfun_solana_smart_con.Config.{Config}
use pumpfun_solana_smart_con.Svm.{World, Runtime, launch, update}
use pumpfun_solana_smart_con.Instructions.Create.{CreateBondingCurve}
use pumpfun_solana_smart_con.Instructions.Create.Params.{Acceptable}
use pumpfun_solana_smart_con.Instructions.Create.Launch.{opened_curve, launch_event, launch_steps}
use pumpfun_solana_smart_con.Instructions.Create.Goes.{Issues, issue_token_inv, handler_goes}
use pumpfun_solana_smart_con.Accounts.{Addresses, word, bump, create_accounts}
use pumpfun_solana_smart_con.Program.{Chain, Loader, create_bonding_curve, global_config, execute}
use pumpfun_solana_smart_con.Program.Entry.{chain_eq, create_inv}
use Prim.Native.String.{String}

module _ (ad : Addresses) (rt : Runtime) (loader : Loader) (signers : List Pubkey)
    (self : CreateBondingCurve) (d n r : ℕ) (name symbol uri : String) (c e : Chain) where
  -- All that a launch depends on, and what it leads to.
  pub record Launches : Type 0 where
    pub valid : create_accounts ad rt.crate_id signers self ≡ true
    pub config : Config
    pub loaded : loader.load_config self.global_config c.world ≡ ok config
    pub ours : config.team_wallet ≡ self.team_wallet
    pub free : c.curves self.bonding_curve ≡ none
    pub before : World
    pub prepared : loader.init_launch self d c.world ≡ ok before
    pub accepted : Acceptable config d n r
    pub after : World
    pub issued :
        Issues rt self n name symbol uri (bump ad rt.crate_id (word global_seed ∷ [])) before after
    pub result : e ≡ record {
      world = record after { events = launch (launch_event self config d n r) ∷ after.events };
      curves = update c.curves self.bonding_curve (some (opened_curve self config n r));
    }

  launch_needs :
      execute ad rt loader signers (create_bonding_curve self d n r name symbol uri) c ≡ ok e
      → Launches
  launch_needs went =
      let l = create_inv ad rt loader signers self d n r name symbol uri c e went in
      let (accepted, fields, (u, issued, after)) =
        launch_steps rt self l.config loader.zeroed d n r name symbol uri _ l.before l.ran in
      record {
        valid = l.valid;
        config = l.config;
        loaded = l.loaded;
        ours = l.ours;
        free = l.free;
        before = l.before;
        prepared = l.prepared;
        accepted = accepted;
        after = u;
        issued = issue_token_inv rt self n name symbol uri _ l.before u issued;
        result =
            chain_eq e _ _ after
              (l.curves ∙ ap (λ b. update c.curves self.bonding_curve (some b)) fields);
      }

  launch_goes :
      Launches
      → execute ad rt loader signers (create_bonding_curve self d n r name symbol uri) c ≡ ok e
  unfolding execute global_config
  launch_goes l =
      let goes =
        handler_goes rt self n name symbol uri _ l.config loader.zeroed d r l.before l.after
          l.accepted l.issued in
      ground (arith, l.valid, l.loaded, l.ours, l.free, l.prepared, l.result, goes)

  -- A launch request goes through exactly when its accounts are valid, signatures of the creator and
  -- of the new mint included, the configuration is
  -- readable and names the given team wallet, the bonding curve account is not there yet, the
  -- generated code can prepare the accounts, the parameters are acceptable to the configuration,
  -- and the four calls of other programs succeed in a row. Then the new curve holds exactly what
  -- the configuration and the arguments set, the launch event is added to what the calls have left
  -- of the machine, and no other curve changes.
  pub launch_request_iff :
      (execute ad rt loader signers (create_bonding_curve self d n r name symbol uri) c ≡ ok e)
      ↔ Launches
  launch_request_iff = (launch_needs, launch_goes)
