-- ===== src/Program/Truth.antt =====
-- What the events of a history of the program of programs/pump-raydium/src/lib.rs say about its
-- bonding curves.
use pumpfun_solana_smart_con.Base.{
  ◌≡◌, ap, sym, refl, ◌∙◌, Option, none, some, true, List, [], ◌∷◌, All, arith,
}
use pumpfun_solana_smart_con.Rust.{ok}
use pumpfun_solana_smart_con.Curve.{Pubkey, BondingCurve}
use pumpfun_solana_smart_con.Svm.{
  World, SwapEvent, Event, launch, swapped, complete, migrated, Runtime,
}
use pumpfun_solana_smart_con.Svm.Laws.{EventLaws}
use pumpfun_solana_smart_con.Instructions.Create.Launch.{launch_event, launch_steps}
use pumpfun_solana_smart_con.Instructions.Swap.{Swap}
use pumpfun_solana_smart_con.Instructions.Emits.{configure_emits, create_emits, swap_emits}
use pumpfun_solana_smart_con.Accounts.{Addresses, curve_address, swap_accounts}
use pumpfun_solana_smart_con.Program.{
  Chain, Loader, Request, configure, create_bonding_curve, swap, migrate, execute,
}
use pumpfun_solana_smart_con.Program.Laws.{AddressLaws, LoaderLaws}
use pumpfun_solana_smart_con.Program.Entry.{create_inv, swap_inv, migrate_inv, configure_inv}
use pumpfun_solana_smart_con.Program.Curves.{AllOpened, Change-keeps, Change-opens, request_changes}
use pumpfun_solana_smart_con.Program.Invariant.{along}
use pumpfun_solana_smart_con.Program.Log.{listing, told, Logged}

-- A swap event names a curve's account and mint, and its reserves.
pub record Quoted (curves : Pubkey → Option BondingCurve) (e : SwapEvent) : Type 0 where
  pub curve : BondingCurve
  pub there : curves e.bonding_curve ≡ some curve
  pub mint : e.mint ≡ curve.token_mint
  pub sol : e.virtual_sol_reserves ≡ curve.virtual_sol_reserves
  pub tokens : e.virtual_token_reserves ≡ curve.virtual_token_reserves

-- What an event says is so; there is nothing that a completion or a migration could say.
abbrev pub Truthful : (Pubkey → Option BondingCurve) → Event → Type 0
Truthful curves (launch e) =
    (b : BondingCurve) × (curves e.bonding_curve ≡ some b) × (told e ≡ listing b)
Truthful curves (swapped e) = Quoted curves e
Truthful curves (complete e) = ⊥
Truthful curves (migrated e) = ⊥

module _ (f g : Pubkey → Option BondingCurve)
    (grows : (k : Pubkey) (b : BondingCurve) → f k ≡ some b → g k ≡ some b) where
  Truthful-grows : (e : Event) → Truthful f e → Truthful g e
  Truthful-grows (launch e) (b, there, same) = (b, grows e.bonding_curve b there, same)
  Truthful-grows (swapped e) q = record {
    curve = q.curve;
    there = grows e.bonding_curve q.curve q.there;
    mint = q.mint;
    sol = q.sol;
    tokens = q.tokens;
  }
  Truthful-grows (complete e) q = elim q [ ]
  Truthful-grows (migrated e) q = elim q [ ]

  log-grows : (log : List Event) → All (Truthful f) log → All (Truthful g) log
  log-grows [] h = tt
  log-grows (e ∷ log) (h, rest) = (Truthful-grows e h, log-grows log rest)

module _ (ad : Addresses) (rt : Runtime) (loader : Loader) (addresses : AddressLaws ad rt.crate_id)
    (laws : EventLaws rt) (loads : LoaderLaws rt loader) where
  swap_place :
      (signers : List Pubkey) (self : Swap)
      → swap_accounts ad rt.crate_id signers self ≡ true
      → self.bonding_curve ≡ curve_address ad rt.crate_id self.token_mint
  unfolding swap_accounts
  swap_place signers self e = ground arith

  abbrev TruthfulChain : Chain → Type 0
  TruthfulChain c = AllOpened ad rt c × All (Truthful c.curves) c.world.events

  request-Truthful :
      (signers : List Pubkey) (r : Request) (c e : Chain)
      → execute ad rt loader signers r c ≡ ok e
      → AllOpened ad rt c
      → All (Truthful e.curves) c.world.events
      → All (Truthful e.curves) e.world.events
  request-Truthful signers (configure self new_config) c e went opens h =
      let f = configure_inv ad rt loader signers self new_config c e went in
      let log : e.world.events ≡ c.world.events =
        configure_emits rt laws self new_config _ f.before f.ran
        ∙ loads.wsol_events self c.world f.prepared in
      rw log h
  request-Truthful signers (create_bonding_curve self d n r name symbol uri) c e went opens h =
      let l = create_inv ad rt loader signers self d n r name symbol uri c e went in
      let (_, fields, _) =
        launch_steps rt self l.config loader.zeroed d n r name symbol uri _ l.before l.ran in
      let event = launch_event self l.config d n r in
      let log : e.world.events ≡ launch event ∷ c.world.events =
        create_emits rt laws self l.config loader.zeroed d n r name symbol uri _ l.before l.ran
        ∙ ap (λ es. launch event ∷ es) (loads.launch_events self d c.world l.prepared) in
      let there : e.curves self.bonding_curve ≡ some l.curve = ground (arith, l.curves) in
      rw log ((l.curve, there, sym (ap listing fields)), h)
  request-Truthful signers (swap self amount direction minimum) c e went opens h =
      let s = swap_inv ad rt loader signers self amount direction minimum c e went in
      let log = swap_emits rt laws self s.curve amount direction minimum _ c.world s.ran in
      let there : e.curves self.bonding_curve ≡ some s.curve = ground (arith, s.curves) in
      let mint = addresses.curve_injective self.token_mint s.curve.token_mint (
        sym (swap_place signers self s.valid)
        ∙ (opens self.bonding_curve s.curve s.there).at_mint) in
      rw log (record { curve = s.curve; there = there; mint = mint; sol = refl; tokens = refl }, h)
  request-Truthful signers (migrate self nonce) c e went opens h =
      let (_, _, same, _) = migrate_inv ad rt loader signers self nonce c e went in
      rw (ap (λ (x : World). x.events) same) h

  -- Where other programs emit none of the program's events and derived addresses do not collide:
  -- after any history from a state without curves and events, every event in the log is a launch
  -- or a swap. A launch event tells an existing curve as it is; a swap event names an existing
  -- curve with its own mint and shows the virtual reserves that the curve still has. So the
  -- event that completes a curve, which the backend waits for, never comes.
  pub log-Truthful :
      {c e : Chain}
      → Logged ad rt loader c e
      → c.world.events ≡ []
      → ((k : Pubkey) → c.curves k ≡ none)
      → All (Truthful e.curves) e.world.events
  log-Truthful {c} history empty start =
      (along ad rt loader (λ v w. w.events ≡ v.events) TruthfulChain
        (λ signers r c e went h.
          let change = request_changes ad rt loader signers r c e went in
          (
            Change-opens ad rt change h.0,
            request-Truthful signers r c e went h.0 (
                log-grows c.curves e.curves (λ k b. Change-keeps ad rt k b change) c.world.events
                  h.1),
          ))
        (λ c w same h. (h.0, rw same h.1)) history
        ((λ k b there. absurd (ground (arith, start k))), rw empty tt)).1
