-- ===== src/Instructions/Holds.antt =====
-- The handlers of programs/pump-raydium/src/instructions and the token accounts, which they do not take from.
use pumpfun_solana_smart_con.Base.{ℕ, ◌≡◌, arith}
use pumpfun_solana_smart_con.Rust.{ok}
use pumpfun_solana_smart_con.Curve.{BondingCurve}
use pumpfun_solana_smart_con.Config.{Config}
use pumpfun_solana_smart_con.Svm.{World, Runtime}
use pumpfun_solana_smart_con.Svm.Laws.{HoldLaws, Holds}
use pumpfun_solana_smart_con.Instructions.Configure.{Configure, top_up, fund_vault}
use pumpfun_solana_smart_con.Instructions.Configure
use pumpfun_solana_smart_con.Instructions.Create.{
  CreateBondingCurve, ata_call, mint_call, metadata_call, revoke_call, issue_token,
}
use pumpfun_solana_smart_con.Instructions.Create
use pumpfun_solana_smart_con.Instructions.Swap.{Swap}
use pumpfun_solana_smart_con.Instructions.Swap
use pumpfun_solana_smart_con.Instructions.Keeps.{Keeps, swap-Keeps, create-Keeps, configure-Keeps}
use Prim.Native.String.{String}

Holds-refl : (w : World) → Holds w w
Holds-refl w k = omega arith

Holds-trans : (u v w : World) → Holds u v → Holds v w → Holds u w
Holds-trans u v w a b k = let x = a k in let y = b k in omega arith

Holds-same : (u v : World) → v.token_amount ≡ u.token_amount → Holds u v
Holds-same u v e k = ground arith

module _ (rt : Runtime) (laws : HoldLaws rt) where
  holding : Keeps rt Holds
  holding = record { trans = Holds-trans; invoked = laws.invoked }

  pub swap-Holds :
      (self : Swap) (c : BondingCurve) (amount direction minimum bump : ℕ) (w : World) {out : ℕ}
      {d : BondingCurve} {v : World}
      → Swap.handler rt self c amount direction minimum bump w ≡ ok ((out, d), v)
      → Holds w v
  swap-Holds = swap-Keeps rt Holds holding (λ u es. Holds-refl u)

  pub create-Holds :
      (self : CreateBondingCurve) (config : Config) (blank : BondingCurve) (d n r : ℕ)
      (name symbol uri : String) (bump : ℕ) (w : World) {c : BondingCurve} {v : World}
      → Create.handler rt self config blank d n r name symbol uri bump w ≡ ok (c, v)
      → Holds w v
  create-Holds = create-Keeps rt Holds holding (λ u es. Holds-refl u)

  pub configure-Holds :
      (self : Configure) (new_config : Config) (bump : ℕ) (w : World) {r : Unit {0} × World}
      → Configure.handler rt self new_config bump w ≡ ok r
      → Holds w r.1
  configure-Holds =
      configure-Keeps rt Holds
        (record { calls = holding; same = λ u v _ _ t _. Holds-same u v t; resized = laws.resized })
