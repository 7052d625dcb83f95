-- ===== src/Instructions/Configure/Frame.antt =====
-- What the steps of `Configure::handler`, of
-- programs/pump-raydium/src/instructions/admin/configure.rs, leave alone.
pub mod Calls
use pumpfun_solana_smart_con.Base.{
  ℕ, ◌+◌, ◌≤◌, ◌≡◌, ◌≢◌, inl, inr, ap, sym, ◌∙◌, refl, none, List, length, arith,
}
use pumpfun_solana_smart_con.Rust.{ok}
use pumpfun_solana_smart_con.Curve.{Pubkey}
use pumpfun_solana_smart_con.Svm.{World, Runtime, Seeds, transfer, create_account}
use pumpfun_solana_smart_con.Svm.Laws.{TransferLaws, AccountLaws}
use pumpfun_solana_smart_con.Instructions.Configure.{Configure, top_up, fund_vault}
use pumpfun_solana_smart_con.Instructions.Configure.Steps.{written, top_up_calls, fund_vault_calls}
use pumpfun_solana_smart_con.Instructions.Configure.Effect.{Admitted, finish, finish_inv}

module _ (self : Configure) where
  -- What the payer, the configuration account and the vault hold together.
  abbrev pub held : World → ℕ
  held w = w.lamports self.payer + w.lamports self.config + w.lamports self.global_vault

  -- The payer pays the configuration account and the vault and nobody else, and of everything but
  -- lamports only owner and data of the configuration account may differ.
  pub record Settles (w v : World) : Type 0 where
    pub shared : held v ≡ held w
    pub config_grows : w.lamports self.config ≤ v.lamports self.config
    pub vault_grows : w.lamports self.global_vault ≤ v.lamports self.global_vault
    pub lamports_else :
        (k : Pubkey)
        → k ≢ self.payer
        → k ≢ self.config
        → k ≢ self.global_vault
        → v.lamports k ≡ w.lamports k
    pub accounts_else :
        (k : Pubkey)
        → k ≢ self.config
        → (v.owner k ≡ w.owner k) × (v.account_data k ≡ w.account_data k)
    pub frame :
        v ≡ record w { lamports = v.lamports; owner = v.owner; account_data = v.account_data }

  frames :
      (u v w : World)
      → v ≡ record u { lamports = v.lamports; owner = v.owner; account_data = v.account_data }
      → w ≡ record v { lamports = w.lamports; owner = w.owner; account_data = w.account_data }
      → w ≡ record u { lamports = w.lamports; owner = w.owner; account_data = w.account_data }
  frames u v w p q =
      q
      ∙ ap
          (λ (x : World). record x {
            lamports = w.lamports;
            owner = w.owner;
            account_data = w.account_data;
          })
          p

  pub Settles-refl : (w : World) → Settles w w
  Settles-refl w = record {
    shared = refl;
    config_grows = omega arith;
    vault_grows = omega arith;
    lamports_else = λ k a b c. refl;
    accounts_else = λ k a. (refl, refl);
    frame = refl;
  }

  pub Settles-trans : {u v w : World} → Settles u v → Settles v w → Settles u w
  Settles-trans {u} {v} {w} s t = record {
    shared = t.shared ∙ s.shared;
    config_grows = omega (arith, s.config_grows, t.config_grows);
    vault_grows = omega (arith, s.vault_grows, t.vault_grows);
    lamports_else = λ k a b c. t.lamports_else k a b c ∙ s.lamports_else k a b c;
    accounts_else = λ k a.
        let (o, d) = s.accounts_else k a in let (o', d') = t.accounts_else k a in (o' ∙ o, d' ∙ d);
    frame = frames u v w s.frame t.frame;
  }

  -- The three keys differ.
  pub record Apart : Type 0 where
    pub payer_config : self.payer ≢ self.config
    pub payer_vault : self.payer ≢ self.global_vault
    pub config_vault : self.config ≢ self.global_vault
