-- ===== src/Instructions/Emits.antt =====
-- The events of the handlers of programs/pump-raydium/src/instructions.
use pumpfun_solana_smart_con.Base.{ℕ, ◌≡◌, ap, ◌∙◌, ◌∷◌}
use pumpfun_solana_smart_con.Rust.{ok}
use pumpfun_solana_smart_con.Curve.{BondingCurve}
use pumpfun_solana_smart_con.Config.{Config}
use pumpfun_solana_smart_con.Svm.{World, launch, swapped, Runtime}
use pumpfun_solana_smart_con.Svm.Laws.{EventLaws}
use pumpfun_solana_smart_con.Instructions.Configure.{Configure}
use pumpfun_solana_smart_con.Instructions.Configure
use pumpfun_solana_smart_con.Instructions.Create.{CreateBondingCurve}
use pumpfun_solana_smart_con.Instructions.Create
use pumpfun_solana_smart_con.Instructions.Create.Launch.{launch_event, launch_steps}
use pumpfun_solana_smart_con.Instructions.Swap.{Swap}
use pumpfun_solana_smart_con.Instructions.Swap
use pumpfun_solana_smart_con.Instructions.Swap.Drain.{swap_event, swap_sent}
use pumpfun_solana_smart_con.Instructions.Keeps.{Keeps, issue_token-Keeps, configure-Keeps}
use Prim.Native.String.{String}

-- No event in between.
abbrev Quiet : World → World → Type 0
Quiet w v = v.events ≡ w.events

module _ (rt : Runtime) (laws : EventLaws rt) where
  quiet : Keeps rt Quiet
  quiet = record { trans = λ u v w a b. b ∙ a; invoked = λ s c w e _. laws.invoked s c w e }

  pub configure_emits :
      (self : Configure) (new_config : Config) (bump : ℕ) (w : World) {r : Unit {0} × World}
      → Configure.handler rt self new_config bump w ≡ ok r
      → r.1.events ≡ w.events
  configure_emits =
      configure-Keeps rt Quiet
        (record { calls = quiet; same = λ u v _ _ _ e. e; resized = laws.resized })

  pub create_emits :
      (self : CreateBondingCurve) (config : Config) (blank : BondingCurve) (d n r : ℕ)
      (name symbol uri : String) (bump : ℕ) (w : World) {c : BondingCurve} {v : World}
      → Create.handler rt self config blank d n r name symbol uri bump w ≡ ok (c, v)
      → v.events ≡ launch (launch_event self config d n r) ∷ w.events
  create_emits self config blank d n r name symbol uri bump w e =
      let (_, _, (u, issued, after)) =
        launch_steps rt self config blank d n r name symbol uri bump w e in
      let before = issue_token-Keeps rt Quiet quiet self n name symbol uri bump w issued in
      ap (λ (x : World). x.events) after
      ∙ ap (λ es. launch (launch_event self config d n r) ∷ es) before

  pub swap_emits :
      (self : Swap) (c : BondingCurve) (amount direction minimum bump : ℕ) (w : World) {out : ℕ}
      {d : BondingCurve} {v : World}
      → Swap.handler rt self c amount direction minimum bump w ≡ ok ((out, d), v)
      → v.events
        ≡ swapped (swap_event rt self c amount direction minimum (w.lamports self.global_vault))
          ∷ w.events
  swap_emits self c amount direction minimum bump w e =
      let (u, sent, _, _, after) = swap_sent rt self c amount direction minimum bump w e in
      let event =
        swapped (swap_event rt self c amount direction minimum (w.lamports self.global_vault)) in
      ap (λ (x : World). x.events) after ∙ ap (λ es. event ∷ es) (laws.invoked _ _ w sent)
