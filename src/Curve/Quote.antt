-- ===== src/Curve/Quote.antt =====
-- `get_sol_for_sell_tokens` and `get_tokens_for_buy_sol` of
-- programs/pump-raydium/src/state/bondingcurve.rs.
pub mod Price
pub mod Product
use pumpfun_solana_smart_con.Base.{ℕ, Option, none, some, ◌==◌, if◌then◌else◌}
use pumpfun_solana_smart_con.Rust.{
  ◌>>=◌, checked_add, checked_mul, checked_sub, checked_div, try_into_u64,
}
use pumpfun_solana_smart_con.Curve.{BondingCurve}

-- `(x as u128).checked_mul(1_000_000_000)?.checked_div(1_000_000)?`: 6 decimals to 9.
unfoldable pub scale_tokens : ℕ → Option ℕ
scale_tokens x = do y ← checked_mul x 1_000_000_000; checked_div y 1_000_000

-- The lines after the test for zero.
unfoldable pub sell_quote : BondingCurve → ℕ → Option ℕ
sell_quote c token_amount = do
  let current_sol = c.virtual_sol_reserves
  current_tokens ← scale_tokens c.virtual_token_reserves
  scaled ← scale_tokens token_amount
  new_tokens ← checked_add current_tokens scaled
  product ← checked_mul current_sol current_tokens
  new_sol ← checked_div product new_tokens
  sol_out ← checked_sub current_sol new_sol
  try_into_u64 sol_out

unfoldable pub get_sol_for_sell_tokens : BondingCurve → ℕ → Option ℕ
get_sol_for_sell_tokens c token_amount =
    if token_amount == 0 then none else sell_quote c token_amount

unfoldable pub buy_quote : BondingCurve → ℕ → Option ℕ
buy_quote c sol_amount = do
  let current_sol = c.virtual_sol_reserves
  current_tokens ← scale_tokens c.virtual_token_reserves
  new_sol ← checked_add current_sol sol_amount
  product ← checked_mul current_sol current_tokens
  new_tokens ← checked_div product new_sol
  scaled_out ← checked_sub current_tokens new_tokens
  raised ← checked_mul scaled_out 1_000_000
  tokens_out ← checked_div raised 1_000_000_000
  try_into_u64 tokens_out

unfoldable pub get_tokens_for_buy_sol : BondingCurve → ℕ → Option ℕ
get_tokens_for_buy_sol c sol_amount = if sol_amount == 0 then none else buy_quote c sol_amount
