-- ===== src/Curve/Quote/Product.antt =====
-- How the two quotes move the product of the virtual reserves, and how they round.
use pumpfun_solana_smart_con.Base.{ℕ, ◌+◌, ◌-◌, ◌*◌, ◌/◌, ◌≤◌, ◌<◌, ◌≡◌, suc, some, arith}
use pumpfun_solana_smart_con.Rust.{IsU64}
use pumpfun_solana_smart_con.Curve.{BondingCurve, IsU64Curve}
use pumpfun_solana_smart_con.Curve.Quote.{get_sol_for_sell_tokens, get_tokens_for_buy_sol}
use pumpfun_solana_smart_con.Curve.Quote.Price.{
  buy_price, sell_price, share-le, sold_share, get_tokens_for_buy_sol-eq,
  get_sol_for_sell_tokens-eq,
}
use native.Mathlib.Nat.{div-mul-le_self, lt-div-mul-add}

-- A division brackets its dividend.
pub div_bracket : (n d : ℕ) → 0 < d → (n / d * d ≤ n) × (n < n / d * d + d)
div_bracket n d h = (div-mul-le_self n d, lt-div-mul-add h)

-- What a bought amount satisfies, over plain numbers: `q` is the quotient and `n` the tokens left.
buy_bounds :
    (s t a q n : ℕ)
    → q * (s + a) ≤ s * (1000 * t)
    → s * (1000 * t) < q * (s + a) + (s + a)
    → q ≤ 1000 * n
    → 1000 * n < q + 1000
    → 0 < s + a
    → (1000 * (s * t) < 1000 * ((s + a) * n) + (s + a)) × ((s + a) * n < s * t + (s + a))
buy_bounds s t a q n lo hi l h pos =
    let up : q * (s + a) ≤ 1000 * n * (s + a) = mul_mono l in
    let down : 1000 * n * (s + a) + (s + a) ≤ (q + 1000) * (s + a) = next h in
    (omega arith, omega arith)
  where
    mul_mono : {x y : ℕ} → x ≤ y → x * (s + a) ≤ y * (s + a)
    mul_mono p = grind arith

    next : {x y : ℕ} → x < y → x * (s + a) + (s + a) ≤ y * (s + a)
    next {x} {y} p = let m : suc x * (s + a) ≤ y * (s + a) = mul_mono p in omega arith

module _ (c : BondingCurve) (a : ℕ) (u : IsU64Curve c) (ha : IsU64 a) {out : ℕ} where
  -- A quote that answers is for a positive amount, and gives the closed form.
  pub bought : get_tokens_for_buy_sol c a ≡ some out → (0 < a) × (out ≡ buy_price c a)
  bought e = ground (arith, get_tokens_for_buy_sol-eq c a u ha)

  pub sold : get_sol_for_sell_tokens c a ≡ some out → (0 < a) × (out ≡ sell_price c a)
  sold e = ground (arith, get_sol_for_sell_tokens-eq c a u ha)

  -- Buying for `a` lamports yields at most the virtual tokens, and moves the product of the
  -- virtual reserves by little either way: with sol + a and tokens - out the product exceeds the
  -- old one by less than sol + a, and falls short of it by less than (sol + a) / 1000.
  pub buy_keeps_product :
      get_tokens_for_buy_sol c a ≡ some out
      → (out ≤ c.virtual_token_reserves)
        × (1000 * (c.virtual_sol_reserves * c.virtual_token_reserves)
            < 1000 * ((c.virtual_sol_reserves + a) * (c.virtual_token_reserves - out))
              + (c.virtual_sol_reserves + a))
        × ((c.virtual_sol_reserves + a) * (c.virtual_token_reserves - out)
            < c.virtual_sol_reserves * c.virtual_token_reserves + (c.virtual_sol_reserves + a))
  buy_keeps_product e =
      let (pos, price) = bought e in
      let s = c.virtual_sol_reserves in
      let t = c.virtual_token_reserves in
      let (lo, hi) = div_bracket (s * (1000 * t)) (s + a) (omega arith) in
      let share : s * (1000 * t) / (s + a) ≤ 1000 * t = share-le s (1000 * t) a in
      let (x, y) =
        buy_bounds s t a (s * (1000 * t) / (s + a)) (t - out) lo hi (omega arith) (omega arith)
          (omega arith) in
      (omega arith, x, y)

  -- Selling `a` tokens pays at most the virtual lamports and never raises the product of the
  -- virtual reserves: with sol - out and tokens + a it is at most the old one, and less than
  -- tokens + a below it. The payment is rounded up.
  sell_lowers_product :
      get_sol_for_sell_tokens c a ≡ some out
      → (out ≤ c.virtual_sol_reserves)
        × ((c.virtual_sol_reserves - out) * (c.virtual_token_reserves + a)
            ≤ c.virtual_sol_reserves * c.virtual_token_reserves)
        × (c.virtual_sol_reserves * c.virtual_token_reserves
            < (c.virtual_sol_reserves - out) * (c.virtual_token_reserves + a)
              + (c.virtual_token_reserves + a))
  sell_lowers_product e =
      let (pos, price) = sold e in
      let s = c.virtual_sol_reserves in
      let t = c.virtual_token_reserves in
      let (lo, hi) = div_bracket (s * t) (t + a) (omega arith) in
      let left : s - out ≡ s * t / (t + a) = omega (arith, sold_share s t a) in
      (omega arith, rw left lo, rw left hi)
