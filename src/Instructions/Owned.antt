-- ===== src/Instructions/Owned.antt =====
-- The handlers of programs/pump-raydium/src/instructions and the accounts that the program owns.
use pumpfun_solana_smart_con.Base.{ℕ, ◌≡◌, refl, ◌∙◌}
use pumpfun_solana_smart_con.Rust.{ok}
use pumpfun_solana_smart_con.Curve.{Pubkey, BondingCurve}
use pumpfun_solana_smart_con.Config.{Config}
use pumpfun_solana_smart_con.Svm.{World, Runtime}
use pumpfun_solana_smart_con.Svm.Laws.{OwnerLaws, Owned}
use pumpfun_solana_smart_con.Instructions.Create.{
  CreateBondingCurve, ata_call, mint_call, metadata_call, revoke_call, issue_token,
}
use pumpfun_solana_smart_con.Instructions.Create
use pumpfun_solana_smart_con.Instructions.Swap.{Swap}
use pumpfun_solana_smart_con.Instructions.Swap
use pumpfun_solana_smart_con.Instructions.Keeps.{Keeps, swap-Keeps, create-Keeps}
use Prim.Native.String.{String}

Owned-refl : (program : Pubkey) (w : World) → Owned program w w
Owned-refl program w k h = (h, refl)

Owned-trans :
    (program : Pubkey) (u v w : World) → Owned program u v → Owned program v w → Owned program u w
Owned-trans program u v w a b k h = let (h1, d1) = a k h in let (h2, d2) = b k h1 in (h2, d2 ∙ d1)

module _ (rt : Runtime) (laws : OwnerLaws rt) where
  owning : Keeps rt (Owned rt.crate_id)
  owning = record { trans = Owned-trans rt.crate_id; invoked = λ s c w e _. laws.invoked s c w e }

  pub swap-Owned :
      (self : Swap) (c : BondingCurve) (amount direction minimum bump : ℕ) (w : World) {out : ℕ}
      {d : BondingCurve} {v : World}
      → Swap.handler rt self c amount direction minimum bump w ≡ ok ((out, d), v)
      → Owned rt.crate_id w v
  swap-Owned = swap-Keeps rt (Owned rt.crate_id) owning (λ u es. Owned-refl rt.crate_id u)

  pub create-Owned :
      (self : CreateBondingCurve) (config : Config) (blank : BondingCurve) (d n r : ℕ)
      (name symbol uri : String) (bump : ℕ) (w : World) {c : BondingCurve} {v : World}
      → Create.handler rt self config blank d n r name symbol uri bump w ≡ ok (c, v)
      → Owned rt.crate_id w v
  create-Owned = create-Keeps rt (Owned rt.crate_id) owning (λ u es. Owned-refl rt.crate_id u)
