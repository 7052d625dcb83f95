-- ===== src/Program/Log.antt =====
-- The events of a history of the program of programs/pump-raydium/src/lib.rs, read by an indexer.
use pumpfun_solana_smart_con.Base.{ℕ, ◌≡◌, ap, sym, ◌∙◌, Option, none, some, List, [], ◌∷◌, arith}
use pumpfun_solana_smart_con.Rust.{ok}
use pumpfun_solana_smart_con.Curve.{Pubkey, BondingCurve}
use pumpfun_solana_smart_con.Svm.{World, LaunchEvent, Event, launch, Runtime, update}
use pumpfun_solana_smart_con.Svm.Laws.{EventLaws}
use pumpfun_solana_smart_con.Instructions.Create.Launch.{launch_event, launch_steps}
use pumpfun_solana_smart_con.Instructions.Emits.{configure_emits, create_emits, swap_emits}
use pumpfun_solana_smart_con.Accounts.{Addresses}
use pumpfun_solana_smart_con.Program.{
  Chain, Loader, Request, configure, create_bonding_curve, swap, migrate, execute, History,
}
use pumpfun_solana_smart_con.Program.Laws.{LoaderLaws}
use pumpfun_solana_smart_con.Program.Entry.{create_inv, swap_inv, migrate_inv, configure_inv}
use pumpfun_solana_smart_con.Program.Invariant.{along}
use mathlib.Core.Option

-- What an indexer lists of a curve.
pub record Listing : Type 0 where
  pub mint : Pubkey
  pub creator : Pubkey
  pub token_supply : ℕ
  pub reserve_lamport : ℕ
  pub reserve_token : ℕ

abbrev pub listing : BondingCurve → Listing
listing b = record {
  mint = b.token_mint;
  creator = b.creator;
  token_supply = b.token_total_supply;
  reserve_lamport = b.init_lamport;
  reserve_token = b.real_token_reserves;
}

-- What a launch event tells.
abbrev pub told : LaunchEvent → Listing
told e = record {
  mint = e.mint;
  creator = e.creator;
  token_supply = e.token_supply;
  reserve_lamport = e.reserve_lamport;
  reserve_token = e.reserve_token;
}

-- The curves as the log tells them, by the keys of their accounts; the last event comes first.
unfoldable pub replay : List Event → Pubkey → Option Listing
replay [] = λ _. none
replay (launch e ∷ log) = update (replay log) e.bonding_curve (some (told e))
replay (_ ∷ log) = replay log

-- A history in which others do not emit the program's events.
abbrev pub Logged : Addresses → Runtime → Loader → Chain → Chain → Type 0
Logged ad rt loader = History ad rt loader (λ v w. w.events ≡ v.events)

-- The log tells the curves.
abbrev Tells : List Event → (Pubkey → Option BondingCurve) → Type 0
Tells log curves = (k : Pubkey) → replay log k ≡ Option.map listing (curves k)

-- A curve that is written back is told as before.
Tells-back :
    (log : List Event) (f g : Pubkey → Option BondingCurve) (j : Pubkey) (a : BondingCurve)
    → f j ≡ some a
    → g ≡ update f j (some a)
    → Tells log f
    → Tells log g
Tells-back log f g j a there q h k = ground (arith, h k, q)

-- A launched curve is told by its event.
Tells-launch :
    (log : List Event) (f g : Pubkey → Option BondingCurve) (e : LaunchEvent) (a : BondingCurve)
    → g ≡ update f e.bonding_curve (some a)
    → told e ≡ listing a
    → Tells log f
    → Tells (launch e ∷ log) g
unfolding replay
Tells-launch log f g e a q same h k = ground (arith, h k, q)

module _ (ad : Addresses) (rt : Runtime) (loader : Loader) (laws : EventLaws rt)
    (loads : LoaderLaws rt loader) where
  request-Tells :
      (signers : List Pubkey) (r : Request) (c e : Chain)
      → execute ad rt loader signers r c ≡ ok e
      → Tells c.world.events c.curves
      → Tells e.world.events e.curves
  unfolding replay
  request-Tells signers (configure self new_config) c e went h =
      let f = configure_inv ad rt loader signers self new_config c e went in
      let log : e.world.events ≡ c.world.events =
        configure_emits rt laws self new_config _ f.before f.ran
        ∙ loads.wsol_events self c.world f.prepared in
      λ k. ap (λ es. replay es k) log ∙ h k ∙ ap (λ g. Option.map listing (g k)) (sym f.curves)
  request-Tells signers (create_bonding_curve self d n r name symbol uri) c e went h =
      let l = create_inv ad rt loader signers self d n r name symbol uri c e went in
      let (_, fields, _) =
        launch_steps rt self l.config loader.zeroed d n r name symbol uri _ l.before l.ran in
      let emitted =
        create_emits rt laws self l.config loader.zeroed d n r name symbol uri _ l.before l.ran in
      let before = loads.launch_events self d c.world l.prepared in
      let event = launch_event self l.config d n r in
      let log : e.world.events ≡ launch event ∷ c.world.events =
        emitted ∙ ap (λ es. launch event ∷ es) before in
      let after =
        Tells-launch c.world.events c.curves e.curves event l.curve l.curves
          (sym (ap listing fields)) h in
      λ k. ap (λ es. replay es k) log ∙ after k
  request-Tells signers (swap self amount direction minimum) c e went h =
      let s = swap_inv ad rt loader signers self amount direction minimum c e went in
      let emitted = swap_emits rt laws self s.curve amount direction minimum _ c.world s.ran in
      let after =
        Tells-back c.world.events c.curves e.curves self.bonding_curve s.curve s.there s.curves h in
      λ k. ap (λ es. replay es k) emitted ∙ after k
  request-Tells signers (migrate self nonce) c e went h =
      let (a, there, same, curves) = migrate_inv ad rt loader signers self nonce c e went in
      let after = Tells-back c.world.events c.curves e.curves self.bonding_curve a there curves h in
      λ k. ap (λ (x : World). replay x.events k) same ∙ after k

  -- Where other programs emit none of the program's events: after any history from a state without
  -- curves and events, replaying the launch events gives exactly the bonding curves that exist, each
  -- at its account with its mint, creator, supply, initial lamports and real token reserve; swaps
  -- and everything else leave that picture as it is.
  pub replay-curves :
      {c e : Chain}
      → Logged ad rt loader c e
      → c.world.events ≡ []
      → ((k : Pubkey) → c.curves k ≡ none)
      → (k : Pubkey) → replay e.world.events k ≡ Option.map listing (e.curves k)
  unfolding replay
  replay-curves {c} history empty start k =
      along ad rt loader (λ v w. w.events ≡ v.events) (λ x. Tells x.world.events x.curves)
        request-Tells (λ x w same h j. ap (λ es. replay es j) same ∙ h j) history
        (λ j. ap (λ es. replay es j) empty ∙ ground (arith, start j)) k
