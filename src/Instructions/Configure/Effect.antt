-- ===== src/Instructions/Configure/Effect.antt =====
-- The course of a successful `Configure::handler`, of
-- programs/pump-raydium/src/instructions/admin/configure.rs.
use pumpfun_solana_smart_con.Base.{
  ℕ, ◌≤◌, ◌≡◌, ◌≢◌, ◌⊎◌, inl, inr, some, List, ◌++◌, length, arith, ◌==◌, Bool-cases,
}
use pumpfun_solana_smart_con.Rust.{ok, Result-cases}
use pumpfun_solana_smart_con.Constants.{config_seed}
use pumpfun_solana_smart_con.Config.{Config}
use pumpfun_solana_smart_con.Svm.{World, Run, Runtime, ◌>>◌, create_account}
use pumpfun_solana_smart_con.Instructions.Configure.{
  Configure, check_authority, create_config, top_up, write_config, fund_vault, handler,
}
use pumpfun_solana_smart_con.Instructions.Configure.Steps.{
  written, Authorised, check_authority_inv, write_config_inv,
}

module _ (rt : Runtime) (self : Configure) where
  -- What is written for a configuration.
  abbrev pub serialized : List ℕ → List ℕ
  serialized bytes = rt.discriminator ++ bytes

  -- The last three steps of the handler.
  abbrev pub finish : (cost : ℕ) → List ℕ → Run (Unit {0})
  finish cost bytes = do
    top_up rt self cost (length bytes)
    write_config rt self bytes
    fund_vault rt self

  pub finish_inv :
      (cost : ℕ) (bytes : List ℕ) (w : World) {r : Unit {0} × World}
      → finish cost bytes w ≡ ok r
      → (u : World) × (top_up rt self cost (length bytes) w ≡ ok (tt, u))
        × (length bytes ≤ length (u.account_data self.config))
        × (fund_vault rt self (written rt self u bytes) ≡ ok r)
  finish_inv cost bytes w {r} e = elim (Result-cases (top_up rt self cost (length bytes) w)) [
    | inr (x, failed) ↦ absurd (ground arith)
    | inl ((_, u), topped) ↦ elim (Result-cases (write_config rt self bytes u)) [
      | inr (x, failed) ↦ absurd (ground arith)
      | inl ((_, v), wrote) ↦
          let (fits, after) = write_config_inv rt self u bytes wrote in
          let funded : fund_vault rt self v ≡ ok r = ground arith in
          (u, topped, fits, rw after at funded)
    ]
  ]

  -- How the account was admitted, and the machine after that.
  abbrev pub Admitted : (cost len bump : ℕ) → World → World → Type 0
  Admitted cost len bump w v =
      ((w.owner self.config ≡ rt.crate_id) × Authorised rt self w × (v ≡ w))
      ⊎ ((w.owner self.config ≢ rt.crate_id)
          × (rt.invoke (some (config_seed, bump))
                (create_account self.payer self.config cost len rt.crate_id) w
              ≡ ok v))

  module _ (new_config : Config) (bump : ℕ) (w : World) {r : Unit {0} × World} where
    pub configure_steps :
        handler rt self new_config bump w ≡ ok r
        → (bytes : List ℕ) × (v : World) × (rt.try_to_vec new_config ≡ ok bytes)
          × Admitted
              (rt.minimum_balance (length (serialized bytes)))
              (length (serialized bytes))
              bump
              w
              v
          × (finish (rt.minimum_balance (length (serialized bytes))) (serialized bytes) v ≡ ok r)
    unfolding handler create_config
    configure_steps e = elim (Result-cases (rt.try_to_vec new_config)) [
      | inr (x, failed) ↦ absurd (ground arith)
      | inl (bytes, encoded) ↦
          let len = length (serialized bytes) in
          let cost = rt.minimum_balance len in
          elim (Bool-cases (w.owner self.config == rt.crate_id)) [
            | inl ours ↦ elim (Result-cases (check_authority rt self w)) [
              | inr (x, failed) ↦ absurd (ground arith)
              | inl ((_, v), passed) ↦
                  let (authorised, same) = check_authority_inv rt self w passed in
                  (bytes, v, encoded, inl (ground arith, authorised, same), ground arith)
            ]
            | inr other ↦
                elim (Result-cases (
                  rt.invoke (some (config_seed, bump))
                    (create_account self.payer self.config cost len rt.crate_id) w)) [
                      | inr (x, failed) ↦ absurd (ground arith)
                      | inl (v, created) ↦
                          (bytes, v, encoded, inr (ground arith, created), ground arith)
                    ]
          ]
    ]
