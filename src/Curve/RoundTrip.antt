-- ===== src/Curve/RoundTrip.antt =====
-- Buying and selling the same tokens back, on the account of
-- programs/pump-raydium/src/state/bondingcurve.rs.
use pumpfun_solana_smart_con.Base.{ℕ, ◌+◌, ◌-◌, ◌*◌, ◌/◌, ◌≤◌, ◌<◌, ◌≡◌, ◌↔◌, some, ap, arith}
use pumpfun_solana_smart_con.Rust.{IsU64}
use pumpfun_solana_smart_con.Curve.{BondingCurve, BuyResult, SellResult, IsU64Curve}
use pumpfun_solana_smart_con.Curve.Quote.{get_tokens_for_buy_sol}
use pumpfun_solana_smart_con.Curve.Quote.Product.{buy_keeps_product, sold, div_bracket}
use pumpfun_solana_smart_con.Curve.Update.{apply_buy, apply_sell}
use pumpfun_solana_smart_con.Curve.Update.Buy.{apply_buy-Bought, Bought-IsU64Curve}
use pumpfun_solana_smart_con.Curve.Update.Sell.{apply_sell-Sold}
use native.Mathlib.Nat.{le-div_iff_mul-le, div-le_of_le-mul}

-- What is paid back, over plain numbers: `x` is the product after the buy.
payback :
    (s t a m x : ℕ)
    → 0 < t
    → x ≤ (s + a) * t
    → 1000 * (s * t) < 1000 * x + (s + a)
    → m ≡ s + a - x / t
    → ((m ≤ a) ↔ (s * t ≤ x)) × (1000 * (t * m) < 1000 * (t * (a + 1)) + (s + a))
payback s t a m x pos top lost e =
    let (lo, hi) = div_bracket x t pos in
    let cap : x / t ≤ s + a = div-le_of_le-mul t (omega arith) in
    let total : m + x / t ≡ s + a = omega arith in
    (
      (
        λ h. (le-div_iff_mul-le pos).0 (omega arith),
        λ h. let k : s ≤ x / t = (le-div_iff_mul-le pos).1 h in omega arith,
      ),
      omega (arith, ap (λ (z : ℕ). t * z) total),
    )

-- A buy for `a` lamports that is not the last one, followed by the sale of the tokens it gave.
-- The sale pays back at most `a` exactly when the buy did not lower the product of the virtual
-- reserves; and what it pays back is below a + 1 + (sol + a) / (1000 tokens) in any case.
pub buy_sell_back :
    (a : ℕ) (c d d' : BondingCurve) {r : BuyResult} {p : SellResult}
    → IsU64Curve c
    → IsU64 a
    → apply_buy a c ≡ (some r, d)
    → r.token_amount < c.real_token_reserves
    → apply_sell r.token_amount d ≡ (some p, d')
    → let s = c.virtual_sol_reserves in
      let t = c.virtual_token_reserves in
      ((p.sol_amount ≤ a) ↔ (s * t ≤ d.virtual_sol_reserves * d.virtual_token_reserves))
      × (1000 * (t * p.sol_amount) < 1000 * (t * (a + 1)) + (s + a))
buy_sell_back a c d d' {r} {p} u ha bought few paid =
    let b = apply_buy-Bought a c u bought in
    let quote : get_tokens_for_buy_sol c a ≡ some r.token_amount =
      ground (arith, b.quoted, b.priced_at) in
    let same : r.sol_amount ≡ a = ground (arith, b.priced_at) in
    let (within, lost, _) = buy_keeps_product c a u ha quote in
    let after = Bought-IsU64Curve u b in
    let back = (apply_sell-Sold r.token_amount d after paid).priced_at in
    let (pos, price) = sold d r.token_amount after (omega (arith, u.rt)) back in
    let sol : d.virtual_sol_reserves ≡ c.virtual_sol_reserves + a = ground (arith, b.moved) in
    let left : d.virtual_token_reserves + r.token_amount ≡ c.virtual_token_reserves =
      ground (arith, b.moved) in
    let fewer : d.virtual_token_reserves ≡ c.virtual_token_reserves - r.token_amount =
      omega arith in
    payback c.virtual_sol_reserves c.virtual_token_reserves a p.sol_amount
      (d.virtual_sol_reserves * d.virtual_token_reserves) (omega arith) (rw (← sol) (grind arith))
      (rw (sol, fewer) lost) (rw (← sol, ← left) price)
