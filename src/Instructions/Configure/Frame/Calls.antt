-- ===== src/Instructions/Configure/Frame/Calls.antt =====
-- What each call of `Configure::handler`, of
-- programs/pump-raydium/src/instructions/admin/configure.rs, leaves alone.
use pumpfun_solana_smart_con.Base.{
  ℕ, ◌≤◌, ◌≡◌, ◌≢◌, inl, inr, ap, sym, refl, none, List, length, arith,
}
use pumpfun_solana_smart_con.Rust.{ok}
use pumpfun_solana_smart_con.Curve.{Pubkey}
use pumpfun_solana_smart_con.Svm.{World, Runtime, Seeds, transfer, create_account}
use pumpfun_solana_smart_con.Svm.Laws.{TransferLaws, AccountLaws}
use pumpfun_solana_smart_con.Instructions.Configure.{Configure, top_up, fund_vault}
use pumpfun_solana_smart_con.Instructions.Configure.Steps.{written, top_up_calls, fund_vault_calls}
use pumpfun_solana_smart_con.Instructions.Configure.Effect.{Admitted, finish, finish_inv}
use pumpfun_solana_smart_con.Instructions.Configure.Frame.{
  held, Settles, Settles-refl, Settles-trans, Apart,
}

module _ (self : Configure) where
  other_way : {x y : Pubkey} → x ≢ y → y ≢ x
  other_way h e = h (sym e)

  module _ (rt : Runtime) (apart : Apart self) where
    pub written-Settles : (w : World) (bytes : List ℕ) → Settles self w (written rt self w bytes)
    written-Settles w bytes = record {
      shared = refl;
      config_grows = omega arith;
      vault_grows = omega arith;
      lamports_else = λ k a b c. refl;
      accounts_else = λ k a. (refl, ground arith);
      frame = refl;
    }

    -- A change of lamports only.
    lamports-Settles :
        (w v : World)
        → v ≡ record w { lamports = v.lamports }
        → held self v ≡ held self w
        → w.lamports self.config ≤ v.lamports self.config
        → w.lamports self.global_vault ≤ v.lamports self.global_vault
        → ((k : Pubkey)
            → k ≢ self.payer
            → k ≢ self.config
            → k ≢ self.global_vault
            → v.lamports k ≡ w.lamports k)
        → Settles self w v
    lamports-Settles w v same shared config_grows vault_grows rest =
        let owners : v.owner ≡ w.owner = ap (λ (x : World). x.owner) same in
        let bytes : v.account_data ≡ w.account_data = ap (λ (x : World). x.account_data) same in
        record {
          shared = shared;
          config_grows = config_grows;
          vault_grows = vault_grows;
          lamports_else = rest;
          accounts_else = λ k a. (ap (λ f. f k) owners, ap (λ f. f k) bytes);
          frame = cc;
        }

    module _ (moves : TransferLaws rt) where
      -- A transfer from the payer to one of the other two.
      to_config-Settles :
          (n : ℕ) (w : World) {v : World}
          → rt.invoke none (transfer self.payer self.config n) w ≡ ok v
          → Settles self w v
      to_config-Settles n w {v} e =
          let (paid, given) = moves.moves _ _ _ _ w e apart.payer_config in
          let kept =
            moves.others _ _ _ _ self.global_vault w e (other_way apart.payer_vault)
              (other_way apart.config_vault) in
          lamports-Settles w v (moves.frame _ _ _ _ w e) (omega (arith, paid, given, kept))
            (omega (arith, given, kept)) (omega (arith, given, kept))
            (λ k a b c. moves.others _ _ _ _ k w e a b)

      to_vault-Settles :
          (n : ℕ) (w : World) {v : World}
          → rt.invoke none (transfer self.payer self.global_vault n) w ≡ ok v
          → Settles self w v
      to_vault-Settles n w {v} e =
          let (paid, given) = moves.moves _ _ _ _ w e apart.payer_vault in
          let kept =
            moves.others _ _ _ _ self.config w e (other_way apart.payer_config)
              apart.config_vault in
          lamports-Settles w v (moves.frame _ _ _ _ w e) (omega (arith, paid, given, kept))
            (omega (arith, given, kept)) (omega (arith, given, kept))
            (λ k a b c. moves.others _ _ _ _ k w e a c)

      pub fund_vault-Settles :
          (w : World) {r : Unit {0} × World} → fund_vault rt self w ≡ ok r → Settles self w r.1
      fund_vault-Settles w {r} e = elim (fund_vault_calls rt self w e) [
        | inl same ↦ rw same (Settles-refl self w)
        | inr sent ↦ to_vault-Settles 1_000_000 w sent
      ]

      module _ (accounts : AccountLaws rt) where
        resized-Settles :
            (len : ℕ) (w : World) {v : World}
            → rt.realloc self.config len w ≡ ok v
            → Settles self w v
        resized-Settles len w {v} e =
            let (_, owners, lamports) = accounts.resized _ _ w e in
            record {
              shared = ground (arith, lamports);
              config_grows = ground (arith, lamports);
              vault_grows = ground (arith, lamports);
              lamports_else = λ k a b c. ap (λ f. f k) lamports;
              accounts_else = λ k a. (ap (λ f. f k) owners, accounts.resized_others _ _ k w e a);
              frame = let same = accounts.resized_frame _ _ w e in cc;
            }

        created-Settles :
            (s : Seeds) (cost len : ℕ) (w : World) {v : World}
            → rt.invoke s (create_account self.payer self.config cost len rt.crate_id) w ≡ ok v
            → Settles self w v
        created-Settles s cost len w {v} e =
            let (empty, paid) = accounts.created_pays _ _ _ _ _ _ w e apart.payer_config in
            let (_, _, given) = accounts.created _ _ _ _ _ _ w e in
            let (_, _, kept) =
              accounts.created_others _ _ _ _ _ _ self.global_vault w e
                (other_way apart.config_vault) in
            let same = kept (other_way apart.payer_vault) in
            record {
              shared = omega arith;
              config_grows = omega arith;
              vault_grows = omega arith;
              lamports_else = λ k a b c.
                  let (_, _, rest) = accounts.created_others _ _ _ _ _ _ k w e b in rest a;
              accounts_else = λ k b.
                  let (owner, bytes, _) = accounts.created_others _ _ _ _ _ _ k w e b in
                  (owner, bytes);
              frame = accounts.created_frame _ _ _ _ _ _ w e;
            }

        pub top_up-Settles :
            (cost len : ℕ) (w : World) {r : Unit {0} × World}
            → top_up rt self cost len w ≡ ok r
            → Settles self w r.1
        top_up-Settles cost len w {r} e =
            let (delta, exact, how) = top_up_calls rt self w cost len e in
            elim how [
              | inl (_, same) ↦ rw same (Settles-refl self w)
              | inr (_, (u, sent, resized)) ↦
                  Settles-trans self (to_config-Settles _ w sent) (resized-Settles len u resized)
            ]

        pub Admitted-Settles :
            (cost len bump : ℕ) (w v : World)
            → Admitted rt self cost len bump w v
            → Settles self w v
        Admitted-Settles cost len bump w v how = elim how [
          | inl (_, _, same) ↦ rw same (Settles-refl self w)
          | inr (_, created) ↦ created-Settles _ cost len w created
        ]

        pub finish-Settles :
            (cost : ℕ) (bytes : List ℕ) (w : World) {r : Unit {0} × World}
            → finish rt self cost bytes w ≡ ok r
            → Settles self w r.1
        finish-Settles cost bytes w {r} e =
            let (u, topped, _, funded) = finish_inv rt self cost bytes w e in
            Settles-trans self (top_up-Settles cost (length bytes) w topped)
              (Settles-trans self (written-Settles u bytes) (fund_vault-Settles _ funded))
