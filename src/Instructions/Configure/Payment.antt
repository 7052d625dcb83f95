-- ===== src/Instructions/Configure/Payment.antt =====
-- What a `configure` costs, and whom, in `Configure::handler` of
-- programs/pump-raydium/src/instructions/admin/configure.rs.
use pumpfun_solana_smart_con.Base.{
  ℕ, ◌≤◌, ◌<◌, ◌≡◌, ◌≢◌, inl, inr, sym, ap, none, List, length, arith,
}
use pumpfun_solana_smart_con.Rust.{ok, Result-cases}
use pumpfun_solana_smart_con.Rust.Signed.{i64_bound}
use pumpfun_solana_smart_con.Config.{Config}
use pumpfun_solana_smart_con.Svm.{World, Runtime, transfer}
use pumpfun_solana_smart_con.Svm.Laws.{TransferLaws, AccountLaws}
use pumpfun_solana_smart_con.Utils.{sol_transfer_from_user}
use pumpfun_solana_smart_con.Instructions.Configure.{Configure, fund_vault, handler}
use pumpfun_solana_smart_con.Instructions.Configure.Steps.{written, top_up_rent}
use pumpfun_solana_smart_con.Instructions.Configure.Effect.{
  serialized, finish_inv, Admitted, configure_steps,
}
use pumpfun_solana_smart_con.Instructions.Configure.Frame.{Settles, Settles-trans, Apart}
use pumpfun_solana_smart_con.Instructions.Configure.Frame.Calls.{Admitted-Settles, finish-Settles}

module _ (rt : Runtime) (self : Configure) where
  -- The vault's first lamports do not come from the configuration account.
  fund_vault_keeps :
      TransferLaws rt
      → (w : World) {r : Unit {0} × World} → self.config ≢ self.payer
      → self.config ≢ self.global_vault
      → fund_vault rt self w ≡ ok r
      → r.1.lamports self.config ≡ w.lamports self.config
  unfolding fund_vault sol_transfer_from_user
  fund_vault_keeps moves w {r} apart other e =
      elim (Result-cases (rt.invoke none (transfer self.payer self.global_vault 1_000_000) w)) [
        | inl (v, sent) ↦
            let kept = moves.others _ _ _ _ self.config w sent apart other in ground arith
        | inr (x, failed) ↦ ground arith
      ]

  -- What an admitted account holds is a signed number.
  Admitted-small :
      AccountLaws rt
      → (cost len bump : ℕ) (w v : World) → Admitted rt self cost len bump w v
      → cost < i64_bound
      → w.lamports self.config < i64_bound
      → v.lamports self.config < i64_bound
  Admitted-small accounts cost len bump w v admitted hc hw = elim admitted [
    | inl (_, _, same) ↦ rw (ap (λ (x : World). x.lamports self.config) same) hw
    | inr (_, created) ↦ rw (accounts.created _ _ _ _ _ _ w created).2 hc
  ]

  -- Afterwards the vault has lamports.
  fund_vault_funds :
      TransferLaws rt
      → (w : World) {r : Unit {0} × World} → self.payer ≢ self.global_vault
      → fund_vault rt self w ≡ ok r
      → r.1.lamports self.global_vault ≢ 0
  unfolding fund_vault sol_transfer_from_user
  fund_vault_funds moves w {r} apart e =
      elim (Result-cases (rt.invoke none (transfer self.payer self.global_vault 1_000_000) w)) [
        | inl (v, sent) ↦ let (_, given) = moves.moves _ _ _ _ w sent apart in ground arith
        | inr (x, failed) ↦ ground arith
      ]

  -- Where the called programs keep their laws, and payer, configuration account and vault have
  -- different keys: a successful handler takes from the payer exactly what the configuration
  -- account and the vault gain, and changes nobody else's lamports; apart from lamports it changes
  -- only owner and data of the configuration account. Afterwards that account holds at least the
  -- rent of the configuration's serialisation, where the rent and the lamports before are signed
  -- 64-bit numbers, and the vault is not empty.
  pub configure-Settles :
      TransferLaws rt
      → AccountLaws rt
      → (new_config : Config) (bump : ℕ) (bytes : List ℕ) (w : World) {r : Unit {0} × World}
      → Apart self
      → rt.try_to_vec new_config ≡ ok bytes
      → rt.minimum_balance (length (serialized rt self bytes)) < i64_bound
      → w.lamports self.config < i64_bound
      → handler rt self new_config bump w ≡ ok r
      → Settles self w r.1
        × (rt.minimum_balance (length (serialized rt self bytes)) ≤ r.1.lamports self.config)
        × (r.1.lamports self.global_vault ≢ 0)
  configure-Settles moves accounts new_config bump bytes w {r} apart known hc hw e =
      let (found, v, encoded, admitted, finished) = configure_steps rt self new_config bump w e in
      let same : found ≡ bytes = ground arith in
      let all = serialized rt self found in
      let cost = rt.minimum_balance (length all) in
      let small : cost < i64_bound = rw same hc in
      let (u, topped, fits, funded) = finish_inv rt self cost all v finished in
      let held = Admitted-small accounts cost (length all) bump w v admitted small hw in
      let enough =
        top_up_rent rt self v cost (length all) moves accounts apart.payer_config small held
          topped in
      let kept =
        fund_vault_keeps moves (written rt self u all) (λ q. apart.payer_config (sym q))
          apart.config_vault funded in
      let result : cost ≤ r.1.lamports self.config = rw kept enough in
      (
        Settles-trans self
            (Admitted-Settles self rt apart moves accounts cost (length all) bump w v admitted)
            (finish-Settles self rt apart moves accounts cost all v finished),
        rw (sym same) result,
        fund_vault_funds moves (written rt self u all) apart.payer_vault funded,
      )
