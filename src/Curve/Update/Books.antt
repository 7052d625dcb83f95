-- ===== src/Curve/Update/Books.antt =====
-- The bookkeeping parts of `apply_buy` and `apply_sell`: what a success means, and when it comes.
use pumpfun_solana_smart_con.Base.{ℕ, ◌+◌, ◌-◌, ◌≤◌, ◌≡◌, none, some, arith}
use pumpfun_solana_smart_con.Rust.{IsU64}
use pumpfun_solana_smart_con.Curve.{BondingCurve, BuyResult, SellResult, IsU64Curve}
use pumpfun_solana_smart_con.Curve.Update.{Action, ◌>>=◌, book_buy, book_sell}

-- One step of an action that answers, and of one that does not.
pub bind_some :
    {A B : Type 0} (m : Action A) (f : A → Action B) (c : BondingCurve) {a : A} {d : BondingCurve}
    → m c ≡ (some a, d)
    → (m >>= f) c ≡ f a d
bind_some m f c e = ground arith

pub bind_none :
    {A B : Type 0} (m : Action A) (f : A → Action B) (c : BondingCurve) {d : BondingCurve}
    → m c ≡ (none, d)
    → (m >>= f) c ≡ (none, d)
bind_none m f c e = ground arith

-- The account after `n` tokens have left it for `m` lamports.
abbrev pub bought_curve : ℕ → ℕ → BondingCurve → BondingCurve
bought_curve n m c = record c {
  virtual_token_reserves = c.virtual_token_reserves - n;
  real_token_reserves = c.real_token_reserves - n;
  virtual_sol_reserves = c.virtual_sol_reserves + m;
  real_sol_reserves = c.real_sol_reserves + m;
}

-- The account after `n` tokens have come in for `m` lamports.
abbrev pub sold_curve : ℕ → ℕ → BondingCurve → BondingCurve
sold_curve n m c = record c {
  virtual_token_reserves = c.virtual_token_reserves + n;
  real_token_reserves = c.real_token_reserves + n;
  virtual_sol_reserves = c.virtual_sol_reserves - m;
  real_sol_reserves = c.real_sol_reserves - m;
}

-- The reserves hold the tokens, and the lamports fit.
pub record CanBuy (c : BondingCurve) (n m : ℕ) : Type 0 where
  pub vt : n ≤ c.virtual_token_reserves
  pub rt : n ≤ c.real_token_reserves
  pub vs : IsU64 (c.virtual_sol_reserves + m)
  pub rs : IsU64 (c.real_sol_reserves + m)

pub record CanSell (c : BondingCurve) (n m : ℕ) : Type 0 where
  pub vt : IsU64 (c.virtual_token_reserves + n)
  pub rt : IsU64 (c.real_token_reserves + n)
  pub vs : m ≤ c.virtual_sol_reserves
  pub rs : m ≤ c.real_sol_reserves

module _ (n m : ℕ) (c : BondingCurve) (u : IsU64Curve c) where
  pub book_buy-eq :
      CanBuy c n m
      → book_buy n m c ≡ (some (record { token_amount = n; sol_amount = m }), bought_curve n m c)
  unfolding book_buy
  book_buy-eq h = ground arith

  pub book_buy_inv :
      {r : BuyResult} {d : BondingCurve}
      → book_buy n m c ≡ (some r, d)
      → CanBuy c n m × (r ≡ record { token_amount = n; sol_amount = m }) × (d ≡ bought_curve n m c)
  unfolding book_buy
  book_buy_inv e = ground arith

  pub book_sell-eq :
      IsU64 n
      → CanSell c n m
      → book_sell n m c ≡ (some (record { token_amount = n; sol_amount = m }), sold_curve n m c)
  unfolding book_sell
  book_sell-eq hn h = ground arith

  pub book_sell_inv :
      {r : SellResult} {d : BondingCurve}
      → book_sell n m c ≡ (some r, d)
      → CanSell c n m × (r ≡ record { token_amount = n; sol_amount = m }) × (d ≡ sold_curve n m c)
  unfolding book_sell
  book_sell_inv e = ground arith
