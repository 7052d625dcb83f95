-- ===== src/Instructions/Configure/Again.antt =====
-- When a later `configure` goes through, in `Configure::handler` of
-- programs/pump-raydium/src/instructions/admin/configure.rs.
use pumpfun_solana_smart_con.Base.{
  ℕ, ◌-◌, ◌≤◌, ◌<◌, ◌≡◌, ◌≢◌, ◌⊎◌, ◌↔◌, ◌==◌, inl, inr, none, List, length, arith, Bool-cases,
}
use pumpfun_solana_smart_con.Rust.{ok, Result-cases}
use pumpfun_solana_smart_con.Rust.Signed.{as_u64, i64_bound, i64_sub-as_i64}
use pumpfun_solana_smart_con.Config.{Config}
use pumpfun_solana_smart_con.Svm.{World, Runtime, transfer}
use pumpfun_solana_smart_con.Utils.{sol_transfer_from_user}
use pumpfun_solana_smart_con.Instructions.Configure.{
  Configure, check_authority, top_up, write_config, fund_vault, handler,
}
use pumpfun_solana_smart_con.Instructions.Configure.Steps.{
  written, Authorised, top_up_enough, top_up_calls,
}
use pumpfun_solana_smart_con.Instructions.Configure.Effect.{serialized, finish_inv, configure_steps}

module _ (rt : Runtime) (self : Configure) where
  -- The account holds the rent, or the payer adds exactly what is lacking and the data is resized.
  abbrev pub Topped : (cost len : ℕ) → World → World → Type 0
  Topped cost len w v =
      ((cost ≤ w.lamports self.config) × (v ≡ w))
      ⊎ ((w.lamports self.config < cost)
          × ((u : World) × (rt.invoke none
                  (transfer self.payer self.config (cost - w.lamports self.config)) w
                ≡ ok u)
              × (rt.realloc self.config len u ≡ ok v)))

  -- The vault has lamports, or the payer gives it its first ones.
  abbrev pub Funded : World → World → Type 0
  Funded v e =
      ((v.lamports self.global_vault ≢ 0) × (e ≡ v))
      ⊎ ((v.lamports self.global_vault ≡ 0)
          × (rt.invoke none (transfer self.payer self.global_vault 1_000_000) v ≡ ok e))

  -- A change of the configuration: the payer is the authority, the rent is there, the new
  -- serialisation fits the data and is written over its beginning, and the vault has lamports.
  pub record Reconfigures (bytes : List ℕ) (w e : World) : Type 0 where
    pub authorised : Authorised rt self w
    pub rented : World
    pub topped : Topped (rt.minimum_balance (length bytes)) (length bytes) w rented
    pub fits : length bytes ≤ length (rented.account_data self.config)
    pub funded : Funded (written rt self rented bytes) e

  fund_vault_inv : (v e : World) → fund_vault rt self v ≡ ok (tt, e) → Funded v e
  unfolding fund_vault sol_transfer_from_user
  fund_vault_inv v e went = elim (Bool-cases (v.lamports self.global_vault == 0)) [
    | inr full ↦ inl (ground arith, ground arith)
    | inl empty ↦
        elim (Result-cases (rt.invoke none (transfer self.payer self.global_vault 1_000_000) v)) [
          | inl (u, sent) ↦ inr (ground arith, ground arith)
          | inr (x, failed) ↦ absurd (ground arith)
        ]
  ]

  fund_vault_goes : (v e : World) → Funded v e → fund_vault rt self v ≡ ok (tt, e)
  unfolding fund_vault sol_transfer_from_user
  fund_vault_goes v e (inl (full, same)) = ground (arith, full, same)
  fund_vault_goes v e (inr (empty, sent)) = ground (arith, empty, sent)

  module _ (cost len : ℕ) (w v : World) (hc : cost < i64_bound)
      (hw : w.lamports self.config < i64_bound) where
    top_up_inv : top_up rt self cost len w ≡ ok (tt, v) → Topped cost len w v
    top_up_inv e =
        let (delta, exact, how) = top_up_calls rt self w cost len e in
        let (d, known, sign, amount) = i64_sub-as_i64 cost (w.lamports self.config) hc hw in
        let same : d ≡ delta = ground arith in
        elim how [
          | inl (enough, unchanged) ↦ inl (ground arith, unchanged)
          | inr (lacking, (u, sent, resized)) ↦
              let short : w.lamports self.config < cost = ground arith in
              let lacks : as_u64 delta ≡ cost - w.lamports self.config =
                ground (arith, amount short) in
              inr (short, (u, rw lacks at sent, resized))
        ]

    top_up_goes : Topped cost len w v → top_up rt self cost len w ≡ ok (tt, v)
    unfolding top_up
    top_up_goes (inl (held, same)) = rw same (top_up_enough rt self w cost len held hw)
    top_up_goes (inr (short, (u, sent, resized))) =
        let (d, known, sign, amount) = i64_sub-as_i64 cost (w.lamports self.config) hc hw in
        let lacks = amount short in ground (arith, short, sent, resized)

  module _ (new_config : Config) (bump : ℕ) (bytes : List ℕ) (w e : World)
      (ours : w.owner self.config ≡ rt.crate_id) (encoded : rt.try_to_vec new_config ≡ ok bytes)
      (hc : rt.minimum_balance (length (serialized rt self bytes)) < i64_bound)
      (hw : w.lamports self.config < i64_bound) where
    again_needs :
        handler rt self new_config bump w ≡ ok (tt, e) → Reconfigures (serialized rt self bytes) w e
    again_needs went =
        let (found, v, known, admitted, finished) =
          configure_steps rt self new_config bump w went in
        let same : found ≡ bytes = ground arith in
        let all = serialized rt self found in
        let cost = rt.minimum_balance (length all) in
        let small : cost < i64_bound = rw same hc in
        elim admitted [
          | inr (other, _) ↦ absurd (other ours)
          | inl (_, authorised, unchanged) ↦
              let (u, topped, fits, funded) =
                finish_inv rt self cost all w (rw unchanged at finished) in
              let all_holds : Reconfigures all w e = record {
                authorised = authorised;
                rented = u;
                topped = top_up_inv cost (length all) w u small hw topped;
                fits = fits;
                funded = fund_vault_inv (written rt self u all) e funded;
              } in
              rw same at all_holds
        ]

    again_goes :
        Reconfigures (serialized rt self bytes) w e → handler rt self new_config bump w ≡ ok (tt, e)
    unfolding handler check_authority write_config
    again_goes s =
        let all = serialized rt self bytes in
        let a = s.authorised in
        let topped =
          top_up_goes (rt.minimum_balance (length all)) (length all) w s.rented hc hw s.topped in
        let funded = fund_vault_goes (written rt self s.rented all) e s.funded in
        ground (arith, a.discriminated, a.decoded, a.authority, topped, s.fits, funded)

    -- When the handler of `configure` goes through for an account that the program owns already,
    -- where its rent and lamports are signed 64-bit numbers. It does exactly when the payer is the
    -- authority of the stored configuration; the account holds the rent for the new serialisation,
    -- or the payer can add exactly what is lacking and the data can be resized; the serialisation
    -- then fits the data; and the vault has lamports, or the payer can give it 1_000_000. The
    -- machine is then what these calls make of it, with the serialisation written over the
    -- beginning of the data.
    pub configure_again_iff :
        (handler rt self new_config bump w ≡ ok (tt, e))
        ↔ Reconfigures (serialized rt self bytes) w e
    configure_again_iff = (again_needs, again_goes)
