-- ===== src/Svm/Laws.antt =====
-- What the code relies on of the called programs: the documented effect of each call, where it
-- succeeds.
use pumpfun_solana_smart_con.Base.{ℕ, Bool, true, false, ◌+◌, ◌≤◌, ◌≡◌, ◌≢◌, Option, none, length}
use pumpfun_solana_smart_con.Rust.{ok}
use pumpfun_solana_smart_con.Curve.{Pubkey}
use pumpfun_solana_smart_con.Svm.{
  World, Runtime, Seeds, Call, transfer, create_account, create_ata, mint_to, create_metadata,
  set_mint_authority, token_transfer,
}
use Prim.Native.String.{String}

-- `system_instruction::transfer`: the lamports move, and nothing else changes.
pub record TransferLaws (rt : Runtime) : Type 0 where
  pub moves :
      (s : Seeds) (from to : Pubkey) (n : ℕ) (w : World) {v : World}
      → rt.invoke s (transfer from to n) w ≡ ok v
      → from ≢ to
      → (v.lamports from + n ≡ w.lamports from) × (v.lamports to ≡ w.lamports to + n)
  pub others :
      (s : Seeds) (from to : Pubkey) (n : ℕ) (k : Pubkey) (w : World) {v : World}
      → rt.invoke s (transfer from to n) w ≡ ok v
      → k ≢ from
      → k ≢ to
      → v.lamports k ≡ w.lamports k
  pub frame :
      (s : Seeds) (from to : Pubkey) (n : ℕ) (w : World) {v : World}
      → rt.invoke s (transfer from to n) w ≡ ok v
      → v ≡ record w { lamports = v.lamports }

-- The associated token, token and metadata programs, as far as supplies, mint authorities and
-- token amounts go.
pub record TokenLaws (rt : Runtime) : Type 0 where
  pub ata_created :
      (s : Seeds) (payer ata authority mint : Pubkey) (w : World) {v : World}
      → rt.invoke s (create_ata payer ata authority mint) w ≡ ok v
      → (v.token_amount ata ≡ 0) × (v.supply mint ≡ w.supply mint)
  pub minted :
      (s : Seeds) (mint to authority : Pubkey) (n : ℕ) (w : World) {v : World}
      → rt.invoke s (mint_to mint to authority n) w ≡ ok v
      → (v.supply mint ≡ w.supply mint + n) × (v.token_amount to ≡ w.token_amount to + n)
  pub described :
      (s : Seeds) (metadata mint mint_authority payer update_authority : Pubkey)
      (name symbol uri : String) (k : Pubkey) (w : World) {v : World}
      → rt.invoke s
          (create_metadata metadata mint mint_authority payer update_authority name symbol uri)
          w
        ≡ ok v
      → (v.supply mint ≡ w.supply mint) × (v.token_amount k ≡ w.token_amount k)
  pub authority_set :
      (s : Seeds) (mint current : Pubkey) (new : Option Pubkey) (k : Pubkey) (w : World) {v : World}
      → rt.invoke s (set_mint_authority mint current new) w ≡ ok v
      → (v.mint_authority mint ≡ new)
        × (v.supply mint ≡ w.supply mint)
        × (v.token_amount k ≡ w.token_amount k)

-- What `configure` relies on. `system_instruction::create_account`: the account was empty, belongs
-- to the program afterwards, has the space asked for, and holds what was taken from the payer; no
-- other account changes. A resize sets the length of one account's data and changes nothing else.
pub record AccountLaws (rt : Runtime) : Type 0 where
  pub created :
      (s : Seeds) (from to : Pubkey) (cost space : ℕ) (program : Pubkey) (w : World) {v : World}
      → rt.invoke s (create_account from to cost space program) w ≡ ok v
      → (v.owner to ≡ program) × (length (v.account_data to) ≡ space) × (v.lamports to ≡ cost)
  pub resized :
      (k : Pubkey) (len : ℕ) (w : World) {v : World}
      → rt.realloc k len w ≡ ok v
      → (length (v.account_data k) ≡ len) × (v.owner ≡ w.owner) × (v.lamports ≡ w.lamports)
  pub created_pays :
      (s : Seeds) (from to : Pubkey) (cost space : ℕ) (program : Pubkey) (w : World) {v : World}
      → rt.invoke s (create_account from to cost space program) w ≡ ok v
      → from ≢ to
      → (w.lamports to ≡ 0) × (v.lamports from + cost ≡ w.lamports from)
  pub created_others :
      (s : Seeds) (from to : Pubkey) (cost space : ℕ) (program : Pubkey) (k : Pubkey) (w : World)
      {v : World}
      → rt.invoke s (create_account from to cost space program) w ≡ ok v
      → k ≢ to
      → (v.owner k ≡ w.owner k)
        × (v.account_data k ≡ w.account_data k)
        × (k ≢ from → v.lamports k ≡ w.lamports k)
  pub created_frame :
      (s : Seeds) (from to : Pubkey) (cost space : ℕ) (program : Pubkey) (w : World) {v : World}
      → rt.invoke s (create_account from to cost space program) w ≡ ok v
      → v ≡ record w { lamports = v.lamports; owner = v.owner; account_data = v.account_data }
  pub resized_others :
      (k : Pubkey) (len : ℕ) (j : Pubkey) (w : World) {v : World}
      → rt.realloc k len w ≡ ok v
      → j ≢ k
      → v.account_data j ≡ w.account_data j
  pub resized_frame :
      (k : Pubkey) (len : ℕ) (w : World) {v : World}
      → rt.realloc k len w ≡ ok v
      → v ≡ record w { account_data = v.account_data }

-- Between two machines: a mint without an authority stays without one, and its supply does not grow
-- (holders may burn).
abbrev pub Sealed : World → World → Type 0
Sealed w v =
    (k : Pubkey)
    → w.mint_authority k ≡ none
    → (v.mint_authority k ≡ none) × (v.supply k ≤ w.supply k)

-- What the token program promises of every call.
pub record MintLaws (rt : Runtime) : Type 0 where
  pub invoked : (s : Seeds) (c : Call) (w : World) {v : World} → rt.invoke s c w ≡ ok v → Sealed w v
  pub resized :
      (k : Pubkey) (len : ℕ) (w : World) {v : World} → rt.realloc k len w ≡ ok v → Sealed w v

-- Other programs do not emit the events of this one.
pub record EventLaws (rt : Runtime) : Type 0 where
  pub invoked :
      (s : Seeds) (c : Call) (w : World) {v : World} → rt.invoke s c w ≡ ok v → v.events ≡ w.events
  pub resized :
      (k : Pubkey) (len : ℕ) (w : World) {v : World}
      → rt.realloc k len w ≡ ok v
      → v.events ≡ w.events

-- The call that takes from token accounts.
abbrev pub takes_tokens : Call → Bool
takes_tokens (token_transfer _ _ _ _) = true
takes_tokens _ = false

-- Between two machines: no token account has become smaller.
abbrev pub Holds : World → World → Type 0
Holds w v = (k : Pubkey) → w.token_amount k ≤ v.token_amount k

-- Only a token transfer takes tokens from an account.
pub record HoldLaws (rt : Runtime) : Type 0 where
  pub invoked :
      (s : Seeds) (c : Call) (w : World) {v : World}
      → rt.invoke s c w ≡ ok v
      → takes_tokens c ≡ false
      → Holds w v
  pub resized :
      (k : Pubkey) (len : ℕ) (w : World) {v : World} → rt.realloc k len w ≡ ok v → Holds w v

-- Between two machines: the accounts of a program still belong to it, with the same data.
abbrev pub Owned : (program : Pubkey) → World → World → Type 0
Owned program w v =
    (k : Pubkey)
    → w.owner k ≡ program
    → (v.owner k ≡ program) × (v.account_data k ≡ w.account_data k)

-- A program that is called cannot write what it does not own.
pub record OwnerLaws (rt : Runtime) : Type 0 where
  pub invoked :
      (s : Seeds) (c : Call) (w : World) {v : World}
      → rt.invoke s c w ≡ ok v
      → Owned rt.crate_id w v
