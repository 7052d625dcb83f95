-- ===== src/Program/Vault.antt =====
-- Who gets the lamports of the vault by the entry point `swap` of
-- programs/pump-raydium/src/lib.rs.
use pumpfun_solana_smart_con.Base.{
  ℕ, ◌+◌, ◌≡◌, ◌≢◌, inl, inr, ap, sym, ◌∙◌, true, some, List, [], ◌∷◌, ◌==◌, arith, Bool-cases,
}
use mathlib.Core.Path.{fun_ext}
use pumpfun_solana_smart_con.Rust.{ok}
use pumpfun_solana_smart_con.Constants.{global_seed}
use pumpfun_solana_smart_con.Curve.{Pubkey}
use pumpfun_solana_smart_con.Config.{contains, unsigned_ord}
use pumpfun_solana_smart_con.Svm.{Runtime, update}
use pumpfun_solana_smart_con.Svm.Laws.{TransferLaws}
use pumpfun_solana_smart_con.Instructions.Swap.{Swap}
use pumpfun_solana_smart_con.Instructions.Swap.Drain.{swap_drains}
use pumpfun_solana_smart_con.Accounts.{Addresses, word, vault_address, swap_accounts}
use pumpfun_solana_smart_con.Program.{Chain, Loader, swap, execute}
use pumpfun_solana_smart_con.Program.Laws.{AddressLaws, IsSigned}
use pumpfun_solana_smart_con.Program.Entry.{swap_inv}

-- Writing an entry back changes nothing.
update_same :
    {A : Type 0} (f : Pubkey → A) (k : Pubkey) (a : A)
    → f k ≡ a
    → (j : Pubkey) → update f k a j ≡ f j
update_same f k a there j = elim (Bool-cases (j == k)) [
  | inl same ↦ ground arith
  | inr other ↦ ground arith
]

module _ (ad : Addresses) (rt : Runtime) (loader : Loader) (signers : List Pubkey) (self : Swap)
    (amount direction minimum : ℕ) (c : Chain) where
  -- The attributes of a swap name the vault and ask for the user's signature.
  swap_names :
      swap_accounts ad rt.crate_id signers self ≡ true
      → (self.global_vault ≡ vault_address ad rt.crate_id) × (contains signers self.user ≡ true)
  unfolding swap_accounts
  swap_names e = (ground arith, ground arith)

  -- A key that signs is no derived address.
  signer_apart :
      AddressLaws ad rt.crate_id
      → IsSigned ad signers
      → (k : Pubkey) → contains signers k ≡ true
      → vault_address ad rt.crate_id ≢ k
  signer_apart laws signed k signs same =
      let on = signed k signs in
      let off = laws.off_curve rt.crate_id (word global_seed ∷ []) in
      ground (arith, ap (λ x. ad.on_curve x) same)

  -- Where transfers and addresses keep their laws and signatures are checked: whoever has a swap
  -- request go through, for any curve, amount, direction and minimum, leaves the one vault of the
  -- program empty and has all it held; no bonding curve, token balance or supply changes.
  pub swap_request_drains :
      TransferLaws rt
      → AddressLaws ad rt.crate_id
      → IsSigned ad signers
      → {e : Chain} → execute ad rt loader signers (swap self amount direction minimum) c ≡ ok e
      → let vault = vault_address ad rt.crate_id in
        (e.world.lamports vault ≡ 0)
        × (e.world.lamports self.user ≡ c.world.lamports self.user + c.world.lamports vault)
        × (e.curves ≡ c.curves)
        × (e.world.token_amount ≡ c.world.token_amount)
        × (e.world.supply ≡ c.world.supply)
  swap_request_drains laws addresses signed {e} went =
      let h = swap_inv ad rt loader signers self amount direction minimum c e went in
      let (vault, signs) = swap_names h.valid in
      let apart : self.global_vault ≢ self.user =
        λ same. signer_apart addresses signed self.user signs (sym vault ∙ same) in
      let (_, empty, full, _, tokens, supply) =
        swap_drains rt self h.curve laws amount direction minimum _ c.world apart h.ran in
      (
        rw (sym vault) empty,
        rw (sym vault) full,
        h.curves ∙ fun_ext (update_same c.curves self.bonding_curve (some h.curve) h.there),
        tokens,
        supply,
      )
