-- ===== src/Instructions/Configure/Steps.antt =====
-- The steps of `Configure::handler`, of programs/pump-raydium/src/instructions/admin/configure.rs,
-- one by one.
use pumpfun_solana_smart_con.Base.{
  ℕ, ◌-◌, ◌≤◌, ◌<◌, ◌≡◌, ◌≢◌, inl, inr, ap, ◌∙◌, true, false, none, some, ◌⊎◌, List, ◌++◌, length,
  drop, arith, ◌==◌, Bool-cases, Option-cases,
}
use pumpfun_solana_smart_con.Rust.{ok, Result-cases}
use pumpfun_solana_smart_con.Rust.Signed.{
  ℤ, i64_bound, as_i64, as_u64, i64_sub, is_positive, i64_sub-as_i64,
}
use pumpfun_solana_smart_con.Config.{Config}
use pumpfun_solana_smart_con.Svm.{World, Runtime, transfer, update}
use pumpfun_solana_smart_con.Svm.Laws.{TransferLaws, AccountLaws}
use pumpfun_solana_smart_con.Utils.{sol_transfer_from_user}
use pumpfun_solana_smart_con.Instructions.Configure.{
  Configure, bad_discriminator, check_authority, top_up, write_config, fund_vault,
}

module _ (rt : Runtime) (self : Configure) (w : World) where
  -- The data after a write.
  abbrev pub written : List ℕ → World
  written bytes = record w {
    account_data =
        update w.account_data self.config
          (bytes ++ drop (length bytes) (w.account_data self.config));
  }

  -- The configuration in the account is well formed and names the payer as its authority.
  pub record Authorised : Type 0 where
    pub discriminated : bad_discriminator rt self (w.account_data self.config) ≡ false
    pub stored : Config
    pub decoded : rt.deserialize (drop 8 (w.account_data self.config)) ≡ ok stored
    pub authority : stored.authority ≡ self.payer

  module _ {r : Unit {0} × World} where
    pub check_authority_inv : check_authority rt self w ≡ ok r → Authorised × (r.1 ≡ w)
    unfolding check_authority
    check_authority_inv e =
        elim (Result-cases (rt.deserialize (drop 8 (w.account_data self.config)))) [
          | inl (old, decoded) ↦ (
            record {
              discriminated = ground arith;
              stored = old;
              decoded = decoded;
              authority = ground arith;
            },
            ground arith,
          )
          | inr (x, failed) ↦ absurd (ground arith)
        ]

    pub write_config_inv :
        (bytes : List ℕ)
        → write_config rt self bytes w ≡ ok r
        → (length bytes ≤ length (w.account_data self.config)) × (r.1 ≡ written bytes)
    unfolding write_config
    write_config_inv bytes e = (ground arith, ground arith)

    -- Afterwards the machine is the same, or a transfer to the vault was made.
    pub fund_vault_calls :
        fund_vault rt self w ≡ ok r
        → (r.1 ≡ w) ⊎ (rt.invoke none (transfer self.payer self.global_vault 1_000_000) w ≡ ok r.1)
    unfolding fund_vault sol_transfer_from_user
    fund_vault_calls e =
        elim (Result-cases (rt.invoke none (transfer self.payer self.global_vault 1_000_000) w)) [
          | inl (v, sent) ↦ elim (Bool-cases (w.lamports self.global_vault == 0)) [
            | inl empty ↦ inr (ground arith)
            | inr funded ↦ inl (ground arith)
          ]
          | inr (x, failed) ↦ inl (ground arith)
        ]

    pub fund_vault_inv :
        TransferLaws rt → fund_vault rt self w ≡ ok r → r.1 ≡ record w { lamports = r.1.lamports }
    unfolding fund_vault sol_transfer_from_user
    fund_vault_inv laws e =
        elim (Result-cases (rt.invoke none (transfer self.payer self.global_vault 1_000_000) w)) [
          | inl (v, sent) ↦
              ground (arith, laws.frame none self.payer self.global_vault 1_000_000 w sent)
          | inr (x, failed) ↦ ground arith
        ]

  module _ (cost len : ℕ) where
    -- A configuration account with the lamports for its rent is not resized.
    pub top_up_enough :
        cost ≤ w.lamports self.config
        → w.lamports self.config < i64_bound
        → top_up rt self cost len w ≡ ok (tt, w)
    unfolding top_up
    top_up_enough held small =
        let (delta, exact, sign, _) =
          i64_sub-as_i64 cost (w.lamports self.config) (omega arith) small in
        ground arith

    module _ {r : Unit {0} × World} where
      -- A top-up that went through made no call, or a transfer and a resize.
      pub top_up_calls :
          top_up rt self cost len w ≡ ok r
          → (delta : ℤ) × (i64_sub (as_i64 cost) (as_i64 (w.lamports self.config)) ≡ some delta)
            × (((is_positive delta ≡ false) × (r.1 ≡ w))
                ⊎ ((is_positive delta ≡ true)
                    × ((u : World) × (rt.invoke none
                            (transfer self.payer self.config (as_u64 delta))
                            w
                          ≡ ok u)
                        × (rt.realloc self.config len u ≡ ok r.1))))
      unfolding top_up
      top_up_calls e =
          elim (Option-cases (i64_sub (as_i64 cost) (as_i64 (w.lamports self.config)))) [
            | inl overflow ↦ absurd (ground arith)
            | inr (delta, exact) ↦ elim (Bool-cases (is_positive delta)) [
              | inr enough ↦ (delta, exact, inl (enough, ground arith))
              | inl lacking ↦
                  elim (Result-cases
                    (rt.invoke none (transfer self.payer self.config (as_u64 delta)) w)) [
                      | inr (x, failed) ↦ absurd (ground arith)
                      | inl (u, sent) ↦ elim (Result-cases (rt.realloc self.config len u)) [
                        | inr (x, failed) ↦ absurd (ground arith)
                        | inl (v, resized) ↦ (delta, exact, inr (lacking, (u, sent, ground arith)))
                      ]
                    ]
            ]
          ]

      pub top_up_owner :
          TransferLaws rt → AccountLaws rt → top_up rt self cost len w ≡ ok r → r.1.owner ≡ w.owner
      top_up_owner moves accounts e =
          let (delta, exact, how) = top_up_calls e in
          elim how [
            | inl (_, same) ↦ ap (λ (x : World). x.owner) same
            | inr (_, (u, sent, resized)) ↦
                let (_, owners, _) = accounts.resized self.config len u resized in
                owners ∙ ap (λ (x : World). x.owner) (moves.frame _ _ _ _ w sent)
          ]

      -- Afterwards the configuration account has the lamports for its rent.
      pub top_up_rent :
          TransferLaws rt
          → AccountLaws rt
          → self.payer ≢ self.config
          → cost < i64_bound
          → w.lamports self.config < i64_bound
          → top_up rt self cost len w ≡ ok r
          → cost ≤ r.1.lamports self.config
      top_up_rent moves accounts apart hc hl e =
          let (delta, exact, how) = top_up_calls e in
          let (d, known, sign, amount) = i64_sub-as_i64 cost (w.lamports self.config) hc hl in
          let same_delta : d ≡ delta = ground arith in
          elim how [
            | inl (enough, same) ↦
                let held : cost ≤ w.lamports self.config = ground arith in
                rw (ap (λ (x : World). x.lamports self.config) same) held
            | inr (lacking, (u, sent, resized)) ↦
                let short : w.lamports self.config < cost = ground arith in
                let lacks : as_u64 delta ≡ cost - w.lamports self.config =
                  ground (arith, amount short) in
                let (_, given) = moves.moves _ _ _ _ w sent apart in
                let (_, _, kept) = accounts.resized self.config len u resized in
                rw kept (omega arith)
          ]
