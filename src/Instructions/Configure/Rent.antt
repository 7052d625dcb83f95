-- ===== src/Instructions/Configure/Rent.antt =====
-- The rent and the size of the configuration account, in `Configure::handler` of
-- programs/pump-raydium/src/instructions/admin/configure.rs.
use pumpfun_solana_smart_con.Base.{ℕ, ◌≤◌, ◌<◌, ◌≡◌, ◌≢◌, some, List, length, arith}
use pumpfun_solana_smart_con.Rust.{ok, err}
use pumpfun_solana_smart_con.Rust.Signed.{i64_bound}
use pumpfun_solana_smart_con.Errors.{panic}
use pumpfun_solana_smart_con.Constants.{config_seed}
use pumpfun_solana_smart_con.Config.{Config}
use pumpfun_solana_smart_con.Svm.{World, Runtime, create_account}
use pumpfun_solana_smart_con.Svm.Laws.{AccountLaws}
use pumpfun_solana_smart_con.Instructions.Configure.{
  Configure, check_authority, create_config, write_config, fund_vault, handler,
}
use pumpfun_solana_smart_con.Instructions.Configure.Steps.{written, Authorised, top_up_enough}
use pumpfun_solana_smart_con.Instructions.Configure.Effect.{serialized}

module _ (rt : Runtime) (self : Configure) where
  -- A configuration whose serialisation is longer than the account's data cannot be stored, though
  -- its authority asks for it, when the account already holds the rent for the longer data: the
  -- account is then not resized, and the write panics.
  pub configure_grow_panics :
      (new_config : Config) (bump : ℕ) (bytes : List ℕ) (w : World)
      → w.owner self.config ≡ rt.crate_id
      → Authorised rt self w
      → rt.try_to_vec new_config ≡ ok bytes
      → length (w.account_data self.config) < length (serialized rt self bytes)
      → rt.minimum_balance (length (serialized rt self bytes)) ≤ w.lamports self.config
      → w.lamports self.config < i64_bound
      → handler rt self new_config bump w ≡ err panic
  unfolding handler check_authority write_config
  configure_grow_panics new_config bump bytes w ours a encoded longer rent small =
      let all = serialized rt self bytes in
      let topped =
        top_up_enough rt self w (rt.minimum_balance (length all)) (length all) rent small in
      ground (arith, a.discriminated, a.decoded, a.authority, topped)

  -- The first `configure` needs no authority: as long as the configuration account does not belong
  -- to the program, anybody whose account creation goes through stores any configuration, with any
  -- authority in it, where account creation keeps its laws, the rent is a signed 64-bit number and
  -- the vault holds lamports already.
  pub configure_first :
      AccountLaws rt
      → (new_config : Config) (bump : ℕ) (bytes : List ℕ) (w v : World)
      → w.owner self.config ≢ rt.crate_id
      → rt.try_to_vec new_config ≡ ok bytes
      → rt.invoke
          (some (config_seed, bump))
          (create_account self.payer self.config
            (rt.minimum_balance (length (serialized rt self bytes)))
            (length (serialized rt self bytes))
            rt.crate_id)
          w
        ≡ ok v
      → rt.minimum_balance (length (serialized rt self bytes)) < i64_bound
      → v.lamports self.global_vault ≢ 0
      → handler rt self new_config bump w ≡ ok (tt, written rt self v (serialized rt self bytes))
  unfolding handler create_config write_config fund_vault
  configure_first accounts new_config bump bytes w v other encoded created small funded =
      let all = serialized rt self bytes in
      let cost = rt.minimum_balance (length all) in
      let (owned, sized, paid) = accounts.created _ _ _ _ _ _ w created in
      let topped = top_up_enough rt self v cost (length all) (omega arith) (omega arith) in
      ground (arith, topped)
