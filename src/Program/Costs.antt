-- ===== src/Program/Costs.antt =====
-- What the entry point `configure` of programs/pump-raydium/src/lib.rs costs, and whom.
use pumpfun_solana_smart_con.Base.{
  ℕ, ◌+◌, ◌≤◌, ◌<◌, ◌≡◌, ◌≢◌, ap, sym, ◌∙◌, true, List, length, arith,
}
use pumpfun_solana_smart_con.Rust.{ok}
use pumpfun_solana_smart_con.Rust.Signed.{i64_bound}
use pumpfun_solana_smart_con.Curve.{Pubkey}
use pumpfun_solana_smart_con.Config.{Config, contains, unsigned_ord}
use pumpfun_solana_smart_con.Svm.{World, Runtime}
use pumpfun_solana_smart_con.Svm.Laws.{TransferLaws, AccountLaws}
use pumpfun_solana_smart_con.Instructions.Configure.{Configure}
use pumpfun_solana_smart_con.Instructions.Configure.Effect.{serialized}
use pumpfun_solana_smart_con.Instructions.Configure.Frame.{Settles, Apart}
use pumpfun_solana_smart_con.Instructions.Configure.Payment.{configure-Settles}
use pumpfun_solana_smart_con.Accounts.{
  Addresses, Seed, address, ata_address, config_address, vault_address, configure_accounts,
}
use pumpfun_solana_smart_con.Program.{Chain, Loader, configure, execute}
use pumpfun_solana_smart_con.Program.Laws.{AddressLaws, IsSigned, WsolLaws}
use pumpfun_solana_smart_con.Program.Entry.{configure_inv}

-- What the four accounts that lamports move between hold together.
abbrev pub held_by_four : Configure → World → ℕ
held_by_four self w =
    w.lamports self.payer
    + w.lamports self.config
    + w.lamports self.global_vault
    + w.lamports self.global_wsol_account

-- The payer pays the configuration account, the vault and the wrapped SOL account of the vault, and
-- nobody else. Apart from lamports only these change: owner and data of the configuration account,
-- and owner, data and token amount of the wrapped SOL account.
pub record Costs (self : Configure) (w v : World) : Type 0 where
  pub shared : held_by_four self v ≡ held_by_four self w
  pub config_grows : w.lamports self.config ≤ v.lamports self.config
  pub vault_grows : w.lamports self.global_vault ≤ v.lamports self.global_vault
  pub wsol_grows : w.lamports self.global_wsol_account ≤ v.lamports self.global_wsol_account
  pub lamports_else :
      (k : Pubkey)
      → k ≢ self.payer
      → k ≢ self.config
      → k ≢ self.global_vault
      → k ≢ self.global_wsol_account
      → v.lamports k ≡ w.lamports k
  pub accounts_else :
      (k : Pubkey)
      → k ≢ self.config
      → k ≢ self.global_wsol_account
      → (v.owner k ≡ w.owner k) × (v.account_data k ≡ w.account_data k)
  pub tokens_else :
      (k : Pubkey) → k ≢ self.global_wsol_account → v.token_amount k ≡ w.token_amount k
  pub frame : v ≡ record w {
    lamports = v.lamports;
    owner = v.owner;
    account_data = v.account_data;
    token_amount = v.token_amount;
  }

other_way : {x y : Pubkey} → x ≢ y → y ≢ x
other_way h e = h (sym e)

frames :
    (u v w : World)
    → v ≡ record u {
      lamports = v.lamports;
      owner = v.owner;
      account_data = v.account_data;
      token_amount = v.token_amount;
    }
    → w ≡ record v { lamports = w.lamports; owner = w.owner; account_data = w.account_data }
    → w ≡ record u {
      lamports = w.lamports;
      owner = w.owner;
      account_data = w.account_data;
      token_amount = w.token_amount;
    }
frames u v w p q =
    let tokens : w.token_amount ≡ v.token_amount = ap (λ (x : World). x.token_amount) q in
    let seen : record v { lamports = w.lamports; owner = w.owner; account_data = w.account_data }
        ≡ record u {
          lamports = w.lamports;
          owner = w.owner;
          account_data = w.account_data;
          token_amount = v.token_amount;
        } =
      ap
        (λ (x : World). record x {
          lamports = w.lamports;
          owner = w.owner;
          account_data = w.account_data;
        })
        p in
    cc

-- The keys of the accounts, apart.
record AllApart (self : Configure) : Type 0 where
  apart : Apart self
  payer_wsol : self.payer ≢ self.global_wsol_account
  config_wsol : self.config ≢ self.global_wsol_account
  vault_wsol : self.global_vault ≢ self.global_wsol_account

module _ (ad : Addresses) (crate : Pubkey) (signers : List Pubkey) (self : Configure)
    (valid : configure_accounts ad crate signers self ≡ true) where
  names :
      (self.config ≡ config_address ad crate)
      × (self.global_vault ≡ vault_address ad crate)
      × (self.global_wsol_account ≡ ata_address ad self.global_vault self.native_mint)
      × (contains signers self.payer ≡ true)
  unfolding configure_accounts
  names = (ground arith, ground arith, ground arith, ground arith)

  -- A signer is no derived address.
  off_key :
      AddressLaws ad crate
      → IsSigned ad signers
      → (program : Pubkey) (seeds : List Seed) → self.payer ≢ address ad program seeds
  off_key laws signed program seeds same =
      let on = signed self.payer names.3 in
      let off = laws.off_curve program seeds in ground (arith, ap (λ x. ad.on_curve x) same)

  valid-AllApart : AddressLaws ad crate → IsSigned ad signers → AllApart self
  valid-AllApart laws signed =
      let (config, vault, wsol, _) = names in
      let off = off_key laws signed in
      record {
        apart = record {
          payer_config = λ e. off _ _ (e ∙ config);
          payer_vault = λ e. off _ _ (e ∙ vault);
          config_vault = λ e. laws.config_vault (sym config ∙ e ∙ vault);
        };
        payer_wsol = λ e. off _ _ (e ∙ wsol);
        config_wsol = λ e. laws.ata_config _ _ (sym wsol ∙ sym e ∙ config);
        vault_wsol = λ e. laws.ata_vault _ _ (sym wsol ∙ sym e ∙ vault);
      }

-- The preparation and the handler together.
joined :
    (loader : Loader) (self : Configure) (u v w : World)
    → WsolLaws loader
    → AllApart self
    → loader.init_wsol self u ≡ ok v
    → Settles self v w
    → Costs self u w
joined loader self u v w wsol all prepared s =
    let (paid, grown) = wsol.paid self u prepared all.payer_wsol in
    let (_, _, _, config) = wsol.others self self.config u prepared all.config_wsol in
    let (_, _, _, vault) = wsol.others self self.global_vault u prepared all.vault_wsol in
    let same_config = config (other_way all.apart.payer_config) in
    let same_vault = vault (other_way all.apart.payer_vault) in
    let same_wsol =
      s.lamports_else self.global_wsol_account (other_way all.payer_wsol)
        (other_way all.config_wsol) (other_way all.vault_wsol) in
    record {
      shared = omega (arith, s.shared);
      config_grows = omega (arith, s.config_grows);
      vault_grows = omega (arith, s.vault_grows);
      wsol_grows = omega arith;
      lamports_else = λ k a b c d. s.lamports_else k a b c ∙ (wsol.others self k u prepared d).3 a;
      accounts_else = λ k b d.
          let (owner, bytes) = s.accounts_else k b in
          let (owner', bytes', _, _) = wsol.others self k u prepared d in
          (owner ∙ owner', bytes ∙ bytes');
      tokens_else = λ k d.
          let (_, _, tokens, _) = wsol.others self k u prepared d in
          ap (λ (x : World). x.token_amount k) s.frame ∙ tokens;
      frame = frames u v w (wsol.frame self u prepared) s.frame;
    }

module _ (ad : Addresses) (rt : Runtime) (loader : Loader) (moves : TransferLaws rt)
    (accounts : AccountLaws rt) (addresses : AddressLaws ad rt.crate_id)
    (wsol : WsolLaws loader) where
  -- Where the called programs, the addresses and the generated code keep their laws and signatures
  -- are checked: a `configure` request that goes through takes from the payer exactly what the
  -- configuration account, the vault and its wrapped SOL account gain. Nobody else's lamports
  -- change, and apart from lamports only the configuration account and the wrapped SOL account do;
  -- no bonding curve changes. Afterwards the configuration account holds at least the rent of the configuration's
  -- serialisation, where that rent and the lamports before are signed 64-bit numbers, and the vault
  -- is not empty.
  pub configure_request-Costs :
      (signers : List Pubkey) (self : Configure) (new_config : Config) (bytes : List ℕ)
      (c e : Chain)
      → IsSigned ad signers
      → rt.try_to_vec new_config ≡ ok bytes
      → rt.minimum_balance (length (serialized rt self bytes)) < i64_bound
      → c.world.lamports self.config < i64_bound
      → execute ad rt loader signers (configure self new_config) c ≡ ok e
      → Costs self c.world e.world
        × (rt.minimum_balance (length (serialized rt self bytes)) ≤ e.world.lamports self.config)
        × (e.world.lamports self.global_vault ≢ 0)
        × (e.curves ≡ c.curves)
  configure_request-Costs signers self new_config bytes c e signed encoded hc hw went =
      let f = configure_inv ad rt loader signers self new_config c e went in
      let all = valid-AllApart ad rt.crate_id signers self f.valid addresses signed in
      let (_, _, _, kept) = wsol.others self self.config c.world f.prepared all.config_wsol in
      let same = kept (other_way all.apart.payer_config) in
      let (settled, rent, funded) =
        configure-Settles rt self moves accounts new_config _ bytes f.before all.apart encoded hc
          (omega (arith, same)) f.ran in
      (
        joined loader self c.world f.before e.world wsol all f.prepared settled,
        rent,
        funded,
        f.curves,
      )
