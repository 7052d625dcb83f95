-- ===== src/Program/Curves.antt =====
-- What a history of the program of programs/pump-raydium/src/lib.rs can do to its bonding curves.
use pumpfun_solana_smart_con.Base.{
  ◌≡◌, inl, inr, ap, sym, ◌∙◌, none, some, true, false, List, ◌==◌, arith, Bool-cases,
}
use pumpfun_solana_smart_con.Rust.{ok}
use pumpfun_solana_smart_con.Curve.{Pubkey, BondingCurve}
use pumpfun_solana_smart_con.Svm.{Runtime, update}
use pumpfun_solana_smart_con.Instructions.Create.{CreateBondingCurve}
use pumpfun_solana_smart_con.Instructions.Create.Launch.{launch_steps}
use pumpfun_solana_smart_con.Accounts.{Addresses, curve_address, create_accounts}
use pumpfun_solana_smart_con.Program.Entry.{create_inv, swap_inv, migrate_inv, configure_inv}
use pumpfun_solana_smart_con.Program.{
  Chain, Loader, Request, configure, create_bonding_curve, swap, migrate, execute,
}

module _ (ad : Addresses) (rt : Runtime) where
  -- A curve as a launch leaves it: at the address of its mint, without real lamports and not
  -- completed.
  pub record Opened (account : Pubkey) (b : BondingCurve) : Type 0 where
    pub at_mint : account ≡ curve_address ad rt.crate_id b.token_mint
    pub empty : b.real_sol_reserves ≡ 0
    pub incomplete : b.is_completed ≡ false

  -- Every curve is.
  abbrev pub AllOpened : Chain → Type 0
  AllOpened c = (k : Pubkey) (b : BondingCurve) → c.curves k ≡ some b → Opened k b

  -- What a request may have done to the curves.
  pub data Change (c d : Chain) : Type 0 where
    unchanged : d.curves ≡ c.curves → Change c d
    rewrote :
        (k : Pubkey) (b : BondingCurve)
        → c.curves k ≡ some b
        → d.curves ≡ update c.curves k (some b)
        → Change c d
    opened :
        (k : Pubkey) (b : BondingCurve)
        → c.curves k ≡ none
        → Opened k b
        → d.curves ≡ update c.curves k (some b)
        → Change c d

  pub Change-keeps :
      {c e : Chain} (k : Pubkey) (b : BondingCurve)
      → Change c e
      → c.curves k ≡ some b
      → e.curves k ≡ some b
  Change-keeps k b (unchanged q) h = ground arith
  Change-keeps k b (rewrote j b' there q) h = ground arith
  Change-keeps k b (opened j b' free _ q) h = ground arith

  pub Change-opens : {c e : Chain} → Change c e → AllOpened c → AllOpened e
  Change-opens (unchanged q) all k b h = all k b (ground arith)
  Change-opens (rewrote j b' there q) all k b h = all k b (ground arith)
  Change-opens (opened j b' free fine q) all k b h = elim (Bool-cases (k == j)) [
    | inl same ↦ record {
      at_mint = ground (arith, fine.at_mint);
      empty = ground (arith, fine.empty);
      incomplete = ground (arith, fine.incomplete);
    }
    | inr other ↦ all k b (ground arith)
  ]

  -- The attributes of a launch put its account at the address of its mint.
  pub create-at_mint :
      (signers : List Pubkey) (self : CreateBondingCurve)
      → create_accounts ad rt.crate_id signers self ≡ true
      → self.bonding_curve ≡ curve_address ad rt.crate_id self.token
  unfolding create_accounts
  create-at_mint signers self e = ground arith

  module _ (loader : Loader) where
    pub request_changes :
        (signers : List Pubkey) (r : Request) (c e : Chain)
        → execute ad rt loader signers r c ≡ ok e
        → Change c e
    request_changes signers (configure self new_config) c e went =
        unchanged (configure_inv ad rt loader signers self new_config c e went).curves
    request_changes signers (create_bonding_curve self d n r name symbol uri) c e went =
        let h = create_inv ad rt loader signers self d n r name symbol uri c e went in
        let (_, fields, _) =
          launch_steps rt self h.config loader.zeroed d n r name symbol uri _ h.before h.ran in
        opened self.bonding_curve h.curve h.free
          (record {
            at_mint =
                create-at_mint signers self h.valid
                ∙ ap (λ (x : BondingCurve). curve_address ad rt.crate_id x.token_mint) (sym fields);
            empty = ap (λ (x : BondingCurve). x.real_sol_reserves) fields;
            incomplete = ap (λ (x : BondingCurve). x.is_completed) fields;
          })
          h.curves
    request_changes signers (swap self amount direction minimum) c e went =
        let h = swap_inv ad rt loader signers self amount direction minimum c e went in
        rewrote self.bonding_curve h.curve h.there h.curves
    request_changes signers (migrate self nonce) c e went =
        let (b, there, _, curves) = migrate_inv ad rt loader signers self nonce c e went in
        rewrote self.bonding_curve b there curves
