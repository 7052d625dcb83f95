-- ===== src/Curve.antt =====
-- The bonding curve account of programs/pump-raydium/src/state/bondingcurve.rs: its fields, the
-- two quotes and the two updates. `&mut self` with an early return by `?` is a state action that
-- hands the account back on every path, so what was written before a failure stays visible.
pub mod Quote
pub mod Update
pub mod Trades
pub mod RoundTrip
pub mod SellBack
pub mod Market
use pumpfun_solana_smart_con.Base.{ℕ, Bool}
use pumpfun_solana_smart_con.Rust.{IsU64}

-- A public key is 32 bytes, read as a number; only equality is used.
abbrev pub Pubkey : Type 0
Pubkey = ℕ

pub record BondingCurve : Type 0 where
  pub token_mint : Pubkey
  pub creator : Pubkey
  pub init_lamport : ℕ
  pub token_total_supply : ℕ
  pub virtual_sol_reserves : ℕ
  pub virtual_token_reserves : ℕ
  pub real_sol_reserves : ℕ
  pub real_token_reserves : ℕ
  pub is_completed : Bool

pub record SellResult : Type 0 where
  pub token_amount : ℕ
  pub sol_amount : ℕ

pub record BuyResult : Type 0 where
  pub token_amount : ℕ
  pub sol_amount : ℕ

-- The reserves are u64 fields.
pub record IsU64Curve (c : BondingCurve) : Type 0 where
  pub vs : IsU64 c.virtual_sol_reserves
  pub vt : IsU64 c.virtual_token_reserves
  pub rs : IsU64 c.real_sol_reserves
  pub rt : IsU64 c.real_token_reserves
