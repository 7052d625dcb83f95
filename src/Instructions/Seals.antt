-- ===== src/Instructions/Seals.antt =====
-- The handlers of programs/pump-raydium/src/instructions and the mints without an authority.
use pumpfun_solana_smart_con.Base.{ℕ, ◌≡◌, arith}
use pumpfun_solana_smart_con.Rust.{ok}
use pumpfun_solana_smart_con.Curve.{BondingCurve}
use pumpfun_solana_smart_con.Config.{Config}
use pumpfun_solana_smart_con.Svm.{World, Runtime}
use pumpfun_solana_smart_con.Svm.Laws.{MintLaws, Sealed}
use pumpfun_solana_smart_con.Instructions.Configure.{Configure, top_up, fund_vault}
use pumpfun_solana_smart_con.Instructions.Configure
use pumpfun_solana_smart_con.Instructions.Create.{
  CreateBondingCurve, ata_call, mint_call, metadata_call, revoke_call, issue_token,
}
use pumpfun_solana_smart_con.Instructions.Create
use pumpfun_solana_smart_con.Instructions.Swap.{Swap}
use pumpfun_solana_smart_con.Instructions.Swap
use pumpfun_solana_smart_con.Instructions.Keeps.{Keeps, swap-Keeps, create-Keeps, configure-Keeps}
use Prim.Native.String.{String}

Sealed-refl : (w : World) → Sealed w w
Sealed-refl w k h = (h, omega arith)

Sealed-trans : (u v w : World) → Sealed u v → Sealed v w → Sealed u w
Sealed-trans u v w a b k h = let (h1, l1) = a k h in let (h2, l2) = b k h1 in (h2, omega arith)

-- Machines with the same supplies and authorities.
Sealed-same : (u v : World) → v.supply ≡ u.supply → v.mint_authority ≡ u.mint_authority → Sealed u v
Sealed-same u v s a k h = (ground arith, ground arith)

module _ (rt : Runtime) (laws : MintLaws rt) where
  sealing : Keeps rt Sealed
  sealing = record { trans = Sealed-trans; invoked = λ s c w e _. laws.invoked s c w e }

  pub swap_seals :
      (self : Swap) (c : BondingCurve) (amount direction minimum bump : ℕ) (w : World) {out : ℕ}
      {d : BondingCurve} {v : World}
      → Swap.handler rt self c amount direction minimum bump w ≡ ok ((out, d), v)
      → Sealed w v
  swap_seals = swap-Keeps rt Sealed sealing (λ u es. Sealed-refl u)

  pub create_seals :
      (self : CreateBondingCurve) (config : Config) (blank : BondingCurve) (d n r : ℕ)
      (name symbol uri : String) (bump : ℕ) (w : World) {c : BondingCurve} {v : World}
      → Create.handler rt self config blank d n r name symbol uri bump w ≡ ok (c, v)
      → Sealed w v
  create_seals = create-Keeps rt Sealed sealing (λ u es. Sealed-refl u)

  pub configure_seals :
      (self : Configure) (new_config : Config) (bump : ℕ) (w : World) {r : Unit {0} × World}
      → Configure.handler rt self new_config bump w ≡ ok r
      → Sealed w r.1
  configure_seals = configure-Keeps rt Sealed (record {
    calls = sealing;
    same = λ u v s a _ _. Sealed-same u v s a;
    resized = laws.resized;
  })
