-- ===== src/Instructions/Keeps.antt =====
-- The handlers of programs/pump-raydium/src/instructions and a relation between machines:
-- what every call keeps, the handlers keep.
use pumpfun_solana_smart_con.Base.{ℕ, List, false, ◌≡◌, inl, inr, ap, refl, length}
use pumpfun_solana_smart_con.Rust.{ok}
use pumpfun_solana_smart_con.Curve.{Pubkey, BondingCurve}
use pumpfun_solana_smart_con.Config.{Config}
use pumpfun_solana_smart_con.Svm.{
  World, Event, Seeds, Call, Runtime, ◌>>◌, step, step-then, step-eq-ok,
}
use pumpfun_solana_smart_con.Svm.Laws.{takes_tokens}
use pumpfun_solana_smart_con.Instructions.Configure.{Configure, top_up, fund_vault}
use pumpfun_solana_smart_con.Instructions.Configure
use pumpfun_solana_smart_con.Instructions.Configure.Steps.{top_up_calls, written, fund_vault_calls}
use pumpfun_solana_smart_con.Instructions.Configure.Effect.{
  serialized, finish_inv, Admitted, configure_steps,
}
use pumpfun_solana_smart_con.Instructions.Create.{
  CreateBondingCurve, ata_call, mint_call, metadata_call, revoke_call, issue_token,
}
use pumpfun_solana_smart_con.Instructions.Create
use pumpfun_solana_smart_con.Instructions.Create.Launch.{launch_steps}
use pumpfun_solana_smart_con.Instructions.Swap.{Swap}
use pumpfun_solana_smart_con.Instructions.Swap
use pumpfun_solana_smart_con.Instructions.Swap.Drain.{swap_sent}
use Prim.Native.String.{String}

pub record Keeps (rt : Runtime) (R : World → World → Type 0) : Type 0 where
  pub trans : (u v w : World) → R u v → R v w → R u w
  pub invoked :
      (s : Seeds) (c : Call) (w : World) {v : World}
      → rt.invoke s c w ≡ ok v
      → takes_tokens c ≡ false
      → R w v

-- Such a relation that does not look at owners and data.
pub record KeepsTokens (rt : Runtime) (R : World → World → Type 0) : Type 0 where
  pub calls : Keeps rt R
  pub same :
      (u v : World)
      → v.supply ≡ u.supply
      → v.mint_authority ≡ u.mint_authority
      → v.token_amount ≡ u.token_amount
      → v.events ≡ u.events
      → R u v
  pub resized : (k : Pubkey) (len : ℕ) (w : World) {v : World} → rt.realloc k len w ≡ ok v → R w v

module _ (rt : Runtime) (R : World → World → Type 0) (keeps : Keeps rt R) where
  pub issue_token-Keeps :
      (self : CreateBondingCurve) (n : ℕ) (name symbol uri : String) (bump : ℕ) (w : World)
      {r : Unit {0} × World}
      → issue_token rt self n name symbol uri bump w ≡ ok r
      → R w r.1
  unfolding issue_token
  issue_token-Keeps self n name symbol uri bump w {r} e =
      let c2 = mint_call rt self n bump in
      let c3 = metadata_call rt self name symbol uri bump in
      let c4 = revoke_call rt self bump in
      let (w1, m1, k1) = step-then (ata_call rt self) (step c2 >> (step c3 >> step c4)) w e in
      let (w2, m2, k2) = step-then c2 (step c3 >> step c4) w1 k1 in
      let (w3, m3, k3) = step-then c3 (step c4) w2 k2 in
      keeps.trans w w1 r.1 (keeps.invoked _ _ w m1 refl) (
        keeps.trans w1 w2 r.1 (keeps.invoked _ _ w1 m2 refl) (
          keeps.trans w2 w3 r.1 (keeps.invoked _ _ w2 m3 refl)
            (keeps.invoked _ _ w3 (step-eq-ok c4 w3 k3) refl)))

  -- The handlers that emit events, where the relation does not look at them.
  module _ (silent : (u : World) (es : List Event) → R u (record u { events = es })) where
    pub swap-Keeps :
        (self : Swap) (c : BondingCurve) (amount direction minimum bump : ℕ) (w : World) {out : ℕ}
        {d : BondingCurve} {v : World}
        → Swap.handler rt self c amount direction minimum bump w ≡ ok ((out, d), v)
        → R w v
    swap-Keeps self c amount direction minimum bump w {v = v} e =
        let (u, sent, _, _, after) = swap_sent rt self c amount direction minimum bump w e in
        rw after (keeps.trans w u _ (keeps.invoked _ _ w sent refl) (silent u _))

    pub create-Keeps :
        (self : CreateBondingCurve) (config : Config) (blank : BondingCurve) (d n r : ℕ)
        (name symbol uri : String) (bump : ℕ) (w : World) {c : BondingCurve} {v : World}
        → Create.handler rt self config blank d n r name symbol uri bump w ≡ ok (c, v)
        → R w v
    create-Keeps self config blank d n r name symbol uri bump w {v = v} e =
        let (_, _, (u, issued, after)) =
          launch_steps rt self config blank d n r name symbol uri bump w e in
        rw after
          (keeps.trans w u _ (issue_token-Keeps self n name symbol uri bump w issued) (silent u _))

module _ (rt : Runtime) (R : World → World → Type 0) (keeps : KeepsTokens rt R) where
  -- Equal machines.
  alike : (u v : World) → v ≡ u → R u v
  alike u v e =
      keeps.same u v (ap (λ (x : World). x.supply) e) (ap (λ (x : World). x.mint_authority) e)
        (ap (λ (x : World). x.token_amount) e) (ap (λ (x : World). x.events) e)

  Admitted-Keeps :
      (self : Configure) (cost len bump : ℕ) (w v : World)
      → Admitted rt self cost len bump w v
      → R w v
  Admitted-Keeps self cost len bump w v admitted = elim admitted [
    | inl (_, _, same) ↦ alike w v same
    | inr (_, created) ↦ keeps.calls.invoked _ _ w created refl
  ]

  top_up-Keeps :
      (self : Configure) (cost len : ℕ) (w : World) {r : Unit {0} × World}
      → top_up rt self cost len w ≡ ok r
      → R w r.1
  top_up-Keeps self cost len w {r} e =
      let (delta, _, how) = top_up_calls rt self w cost len e in
      elim how [
        | inl (_, same) ↦ alike w r.1 same
        | inr (_, (u, sent, resized)) ↦
            keeps.calls.trans w u r.1 (keeps.calls.invoked _ _ w sent refl)
              (keeps.resized _ _ u resized)
      ]

  fund_vault-Keeps :
      (self : Configure) (w : World) {r : Unit {0} × World} → fund_vault rt self w ≡ ok r → R w r.1
  fund_vault-Keeps self w {r} e = elim (fund_vault_calls rt self w e) [
    | inl same ↦ alike w r.1 same
    | inr sent ↦ keeps.calls.invoked _ _ w sent refl
  ]

  pub configure-Keeps :
      (self : Configure) (new_config : Config) (bump : ℕ) (w : World) {r : Unit {0} × World}
      → Configure.handler rt self new_config bump w ≡ ok r
      → R w r.1
  configure-Keeps self new_config bump w {r} e =
      let (bytes, v, encoded, admitted, finished) = configure_steps rt self new_config bump w e in
      let all = serialized rt self bytes in
      let cost = rt.minimum_balance (length all) in
      let (u, topped, fits, funded) = finish_inv rt self cost all v finished in
      let stored = written rt self u all in
      keeps.calls.trans w v r.1 (Admitted-Keeps self cost (length all) bump w v admitted) (
        keeps.calls.trans v u r.1 (top_up-Keeps self cost (length all) v topped) (
          keeps.calls.trans u stored r.1 (keeps.same u stored refl refl refl refl)
            (fund_vault-Keeps self stored funded)))
