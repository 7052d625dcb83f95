-- ===== src/Curve/Trades.antt =====
-- Sequences of successful buys and sales on one account, with what has flowed in and out.
use pumpfun_solana_smart_con.Base.{ℕ, ◌+◌, ◌≤◌, ◌≡◌, true, some, arith}
use pumpfun_solana_smart_con.Curve.{BondingCurve, BuyResult, SellResult, IsU64Curve}
use pumpfun_solana_smart_con.Curve.Update.{apply_buy, apply_sell}
use pumpfun_solana_smart_con.Curve.Update.Buy.{Bought, apply_buy-Bought}
use pumpfun_solana_smart_con.Curve.Update.Sell.{Sold, apply_sell-Sold}

-- The totals that the results of the trades report, as the traders see them.
pub record Flow : Type 0 where
  pub tokens_out : ℕ
  pub tokens_in : ℕ
  pub sol_in : ℕ
  pub sol_out : ℕ

abbrev pub no_flow : Flow
no_flow = record { tokens_out = 0; tokens_in = 0; sol_in = 0; sol_out = 0 }

abbrev pub add_buy : BuyResult → Flow → Flow
add_buy r f = record f {
  tokens_out = f.tokens_out + r.token_amount;
  sol_in = f.sol_in + r.sol_amount;
}

abbrev pub add_sell : SellResult → Flow → Flow
add_sell r f = record f {
  tokens_in = f.tokens_in + r.token_amount;
  sol_out = f.sol_out + r.sol_amount;
}

-- The accounts that trades reach from `c`, with the flow on the way.
pub data Trades (c : BondingCurve) : Flow → BondingCurve → Type 0 where
  here : {f : Flow} → f ≡ no_flow → Trades c f c
  buy :
      {f : Flow} {d d' : BondingCurve} {r : BuyResult} (a : ℕ)
      → Trades c f d
      → apply_buy a d ≡ (some r, d')
      → Trades c (add_buy r f) d'
  sell :
      {f : Flow} {d d' : BondingCurve} {r : SellResult} (n : ℕ)
      → Trades c f d
      → apply_sell n d ≡ (some r, d')
      → Trades c (add_sell r f) d'

-- What trades keep of the account `c` that they began at.
pub record Follows (c : BondingCurve) (f : Flow) (d : BondingCurve) : Type 0 where
  pub words : IsU64Curve d
  pub held : d.real_token_reserves ≤ d.virtual_token_reserves
  pub real_tokens : d.real_token_reserves + f.tokens_out ≡ c.real_token_reserves + f.tokens_in
  pub virtual_tokens :
      d.virtual_token_reserves + f.tokens_out ≡ c.virtual_token_reserves + f.tokens_in
  pub real_sol : d.real_sol_reserves + f.sol_out ≡ c.real_sol_reserves + f.sol_in
  pub virtual_sol : d.virtual_sol_reserves + f.sol_out ≡ c.virtual_sol_reserves + f.sol_in
  pub completed : c.is_completed ≡ true → d.is_completed ≡ true
  pub mint : d.token_mint ≡ c.token_mint
  pub creator : d.creator ≡ c.creator
  pub init_lamport : d.init_lamport ≡ c.init_lamport
  pub supply : d.token_total_supply ≡ c.token_total_supply

buy-Follows :
    {c d d' : BondingCurve} {f : Flow} {r : BuyResult} {a : ℕ}
    → Follows c f d
    → Bought d a r d'
    → Follows c (add_buy r f) d'
buy-Follows h b = ground arith

sell-Follows :
    {c d d' : BondingCurve} {f : Flow} {r : SellResult} {n : ℕ}
    → Follows c f d
    → Sold d n r d'
    → Follows c (add_sell r f) d'
sell-Follows h b = ground arith

-- After any sequence of buys and sales that began at an account with u64 reserves and no more
-- real tokens than virtual ones: both token reserves have changed by the tokens sold back less
-- those bought, both sol reserves by the lamports paid in less those paid out, as the results
-- report them; the reserves are u64 still and real tokens do not exceed virtual ones; a completed
-- account has stayed so; and mint, creator, init_lamport and supply are what they were.
pub Trades-Follows :
    {c d : BondingCurve} {f : Flow}
    → IsU64Curve c
    → c.real_token_reserves ≤ c.virtual_token_reserves
    → Trades c f d
    → Follows c f d
Trades-Follows u held (here e) = ground arith
Trades-Follows u held (buy a t e) =
    let h = Trades-Follows u held t in buy-Follows h (apply_buy-Bought a _ h.words e)
Trades-Follows u held (sell n t e) =
    let h = Trades-Follows u held t in sell-Follows h (apply_sell-Sold n _ h.words e)
