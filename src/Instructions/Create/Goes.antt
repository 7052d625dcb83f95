-- ===== src/Instructions/Create/Goes.antt =====
-- When `create_bonding_curve` goes through, in
-- programs/pump-raydium/src/instructions/curve/create_bonding_curve.rs.
use pumpfun_solana_smart_con.Base.{ℕ, ◌≡◌, ◌∷◌, arith}
use pumpfun_solana_smart_con.Rust.{ok}
use pumpfun_solana_smart_con.Curve.{BondingCurve}
use pumpfun_solana_smart_con.Config.{Config}
use pumpfun_solana_smart_con.Svm.{World, Runtime, launch, ◌>>◌, step, step-then, step-eq-ok}
use pumpfun_solana_smart_con.Instructions.Create.{
  CreateBondingCurve, launch_curve, ata_call, mint_call, metadata_call, revoke_call, issue_token,
  handler,
}
use pumpfun_solana_smart_con.Instructions.Create.Params.{Acceptable, check_params_iff}
use pumpfun_solana_smart_con.Instructions.Create.Launch.{opened_curve, launch_event}
use Prim.Native.String.{String}

module _ (rt : Runtime) (self : CreateBondingCurve) (n : ℕ) (name symbol uri : String)
    (bump : ℕ) where
  -- The four calls succeed, one after the other.
  pub record Issues (w v : World) : Type 0 where
    pub with_account : World
    pub account : ata_call rt self w ≡ ok with_account
    pub with_tokens : World
    pub tokens : mint_call rt self n bump with_account ≡ ok with_tokens
    pub with_metadata : World
    pub metadata : metadata_call rt self name symbol uri bump with_tokens ≡ ok with_metadata
    pub revoked : revoke_call rt self bump with_metadata ≡ ok v

  pub issue_token_inv :
      (w v : World) → issue_token rt self n name symbol uri bump w ≡ ok (tt, v) → Issues w v
  unfolding issue_token
  issue_token_inv w v e =
      let c2 = mint_call rt self n bump in
      let c3 = metadata_call rt self name symbol uri bump in
      let c4 = revoke_call rt self bump in
      let (w1, m1, k1) = step-then (ata_call rt self) (step c2 >> (step c3 >> step c4)) w e in
      let (w2, m2, k2) = step-then c2 (step c3 >> step c4) w1 k1 in
      let (w3, m3, k3) = step-then c3 (step c4) w2 k2 in
      record {
        with_account = w1;
        account = m1;
        with_tokens = w2;
        tokens = m2;
        with_metadata = w3;
        metadata = m3;
        revoked = step-eq-ok c4 w3 k3;
      }

  pub handler_goes :
      (config : Config) (blank : BondingCurve) (d r : ℕ) (w v : World)
      → Acceptable config d n r
      → Issues w v
      → handler rt self config blank d n r name symbol uri bump w
        ≡ ok (
          opened_curve self config n r,
          record v { events = launch (launch_event self config d n r) ∷ v.events },
        )
  unfolding handler launch_curve issue_token
  handler_goes config blank d r w v accepted i =
      let passed = (check_params_iff config d n r w).0.1 accepted in
      ground (arith, passed, i.account, i.tokens, i.metadata, i.revoked)
