-- ===== src/Program/Settings.antt =====
-- How the entry points `configure` and `create_bonding_curve` of
-- programs/pump-raydium/src/lib.rs work together.
use pumpfun_solana_smart_con.Base.{ℕ, ◌≡◌, ap, sym, ◌∙◌, true, some, List, arith}
use pumpfun_solana_smart_con.Rust.{ok}
use pumpfun_solana_smart_con.Curve.{Pubkey}
use pumpfun_solana_smart_con.Config.{Config}
use pumpfun_solana_smart_con.Svm.{Runtime, update}
use pumpfun_solana_smart_con.Svm.Laws.{TransferLaws, AccountLaws, OwnerLaws}
use pumpfun_solana_smart_con.Instructions.Configure.{Configure}
use pumpfun_solana_smart_con.Instructions.Configure.Outcome.{CodecLaws, configure_stores}
use pumpfun_solana_smart_con.Instructions.Create.{CreateBondingCurve}
use pumpfun_solana_smart_con.Instructions.Create.Params.{Acceptable}
use pumpfun_solana_smart_con.Instructions.Create.Launch.{opened_curve, launch_steps}
use pumpfun_solana_smart_con.Accounts.{Addresses, config_address, create_accounts}
use pumpfun_solana_smart_con.Program.{Chain, Loader, configure, create_bonding_curve, execute}
use pumpfun_solana_smart_con.Program.Laws.{LoaderLaws}
use pumpfun_solana_smart_con.Program.Entry.{create_inv, configure_inv}
use pumpfun_solana_smart_con.Program.Governed.{
  Stored, Respectful, Unsigned, configure_names, configuration_governed,
}
use Prim.Native.String.{String}

create_names :
    (ad : Addresses) (rt : Runtime) (signers : List Pubkey) (self : CreateBondingCurve)
    → create_accounts ad rt.crate_id signers self ≡ true
    → self.global_config ≡ config_address ad rt.crate_id
unfolding create_accounts
create_names ad rt signers self e = ground arith

-- What has been written is found.
update_at : {A : Type 0} (f : Pubkey → A) (k : Pubkey) (a : A) → update f k a k ≡ a
update_at f k a = ground arith

-- Where the called programs, the codec and the generated code keep their laws, and the machine lets
-- no program write the accounts of another: once a `configure` has gone through, a launch is
-- measured by the configuration it gave, whoever signs the launch and whatever came in between, as
-- long as the new authority has signed none of the program's transactions since. The parameters of
-- the launch are acceptable to that configuration, and the curve account holds the reserves that it
-- sets.
pub configure_then_launch :
    (ad : Addresses) (rt : Runtime) (loader : Loader)
    → TransferLaws rt
    → AccountLaws rt
    → OwnerLaws rt
    → CodecLaws rt
    → LoaderLaws rt loader
    → (signers launchers : List Pubkey) (self : Configure) (new_config : Config)
      (launch : CreateBondingCurve) (decimals n r : ℕ) (name symbol uri : String) (c d e f : Chain)
    → execute ad rt loader signers (configure self new_config) c ≡ ok d
    → (between : Respectful ad rt loader d e) → Unsigned ad rt loader new_config.authority between
    → execute ad rt loader launchers (create_bonding_curve launch decimals n r name symbol uri) e
      ≡ ok f
    → Acceptable new_config decimals n r
      × (f.curves launch.bonding_curve ≡ some (opened_curve launch new_config n r))
configure_then_launch ad rt loader moves accounts owners codec loads signers launchers self
      new_config launch decimals n r name symbol uri c d e f first between absent second =
    let h = configure_inv ad rt loader signers self new_config c d first in
    let l = create_inv ad rt loader launchers launch decimals n r name symbol uri e f second in
    let (owned, head, decoded) =
      configure_stores rt self moves accounts codec new_config _ h.before h.ran in
    let (place, _) = configure_names ad rt signers self h.valid in
    let stored : Stored ad rt new_config d.world = record {
      owned = rw (sym place) owned;
      head = rw (sym place) head;
      decoded = rw (sym place) decoded;
    } in
    let kept = configuration_governed ad rt loader owners loads new_config between absent stored in
    let loaded : loader.load_config launch.global_config e.world ≡ ok new_config =
      rw (create_names ad rt launchers launch l.valid)
        (loads.loads _ e.world new_config kept.owned kept.head kept.decoded) in
    let known : l.config ≡ new_config = ground (arith, loaded, l.loaded) in
    let (accepted, fields, _) =
      launch_steps rt launch l.config loader.zeroed decimals n r name symbol uri _ l.before l.ran in
    (
      rw known at accepted,
      ap (λ g. g launch.bonding_curve) l.curves
          ∙ update_at e.curves launch.bonding_curve (some l.curve)
          ∙ ap some fields
          ∙ ap (λ k. some (opened_curve launch k n r)) known,
    )
