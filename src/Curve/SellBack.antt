-- ===== src/Curve/SellBack.antt =====
-- Whether the first buyer can sell back, on the account of
-- programs/pump-raydium/src/state/bondingcurve.rs.
use pumpfun_solana_smart_con.Base.{
  ℕ, ◌+◌, ◌*◌, ◌/◌, ◌≤◌, ◌<◌, ◌≡◌, ◌≢◌, ◌↔◌, ◌⊎◌, inl, inr, none, some, ltb, arith, ap, Bool-cases,
  Option-cases,
}
use pumpfun_solana_smart_con.Rust.{IsU64, u128_bound}
use pumpfun_solana_smart_con.Curve.{BondingCurve, BuyResult, IsU64Curve}
use pumpfun_solana_smart_con.Curve.Quote.Price.{sell_price, sold_share}
use pumpfun_solana_smart_con.Curve.RoundTrip.{buy_sell_back}
use pumpfun_solana_smart_con.Curve.Update.{apply_buy, apply_sell}
use pumpfun_solana_smart_con.Curve.Update.Books.{CanSell}
use pumpfun_solana_smart_con.Curve.Update.Buy.{apply_buy-Bought, Bought-IsU64Curve}
use pumpfun_solana_smart_con.Curve.Update.Sell.{apply_sell-Sold, apply_sell_total}
use native.Mathlib.Nat.{le-div_iff_mul-le, div-lt_iff_lt-mul}

module _ (a : ℕ) (c d : BondingCurve) {r : BuyResult} (u : IsU64Curve c) (ha : IsU64 a)
    (first : c.real_sol_reserves ≡ 0) (bought : apply_buy a c ≡ (some r, d))
    (some_tokens : 0 < r.token_amount) (few : r.token_amount < c.real_token_reserves) where
  -- The price of the sale is within the payment when the product is not lowered.
  fair_price :
      c.virtual_sol_reserves * c.virtual_token_reserves
        ≤ d.virtual_sol_reserves * d.virtual_token_reserves
      → sell_price d r.token_amount ≤ a
  fair_price fair =
      let b = apply_buy-Bought a c u bought in
      let sol : d.virtual_sol_reserves ≡ c.virtual_sol_reserves + a =
        ground (arith, b.moved, b.priced_at) in
      let tokens : d.virtual_token_reserves + r.token_amount ≡ c.virtual_token_reserves =
        ground (arith, b.moved, b.fits) in
      let whole : c.virtual_sol_reserves * (d.virtual_token_reserves + r.token_amount)
          ≤ d.virtual_sol_reserves * d.virtual_token_reserves =
        rw tokens fair in
      let pos : 0 < d.virtual_token_reserves + r.token_amount = omega arith in
      let share : c.virtual_sol_reserves
          ≤ d.virtual_sol_reserves
            * d.virtual_token_reserves
            / (d.virtual_token_reserves + r.token_amount) =
        (le-div_iff_mul-le pos).1 whole in
      omega arith

  sale_goes :
      d.virtual_sol_reserves * (1000 * d.virtual_token_reserves) < u128_bound
      → c.virtual_sol_reserves * c.virtual_token_reserves
        ≤ d.virtual_sol_reserves * d.virtual_token_reserves
      → (apply_sell r.token_amount d).0 ≢ none
  sale_goes product fair refused =
      let b = apply_buy-Bought a c u bought in
      let can : CanSell d r.token_amount (sell_price d r.token_amount) = record {
        vt = ground (arith, b.moved, b.fits, u.vt);
        rt = ground (arith, b.moved, b.fits, u.rt);
        vs =
            omega
              (arith, sold_share d.virtual_sol_reserves d.virtual_token_reserves r.token_amount);
        rs = ground (arith, b.moved, b.priced_at, fair_price fair);
      } in
      let went =
        apply_sell_total r.token_amount d (Bought-IsU64Curve u b) (omega (arith, u.rt))
          (ground arith) can in
      ground (arith, ap (λ x. x.0) went)

  sale_stops :
      d.virtual_sol_reserves * d.virtual_token_reserves
        < c.virtual_sol_reserves * c.virtual_token_reserves
      → (apply_sell r.token_amount d).0 ≡ none
  sale_stops lowered = elim (Option-cases (apply_sell r.token_amount d).0) [
    | inl refused ↦ refused
    | inr (p, went) ↦
        let b = apply_buy-Bought a c u bought in
        let e : apply_sell r.token_amount d ≡ (some p, (apply_sell r.token_amount d).1) =
          ap (λ o. (o, (apply_sell r.token_amount d).1)) went in
        let s = apply_sell-Sold r.token_amount d (Bought-IsU64Curve u b) e in
        let (within, _) = buy_sell_back a c d _ u ha bought few e in
        let held : p.sol_amount ≤ a = ground (arith, s.fits, b.moved, b.priced_at) in
        absurd (omega (arith, within.0 held))
  ]

  -- The account holds what was paid.
  holds_payment : d.real_sol_reserves ≡ a
  holds_payment = let b = apply_buy-Bought a c u bought in ground (arith, b.moved, b.priced_at)

  -- The price of the sale exceeds the payment when the product is lowered.
  unfair_price :
      d.virtual_sol_reserves * d.virtual_token_reserves
        < c.virtual_sol_reserves * c.virtual_token_reserves
      → a < sell_price d r.token_amount
  unfair_price lowered =
      let b = apply_buy-Bought a c u bought in
      let sol : d.virtual_sol_reserves ≡ c.virtual_sol_reserves + a =
        ground (arith, b.moved, b.priced_at) in
      let tokens : d.virtual_token_reserves + r.token_amount ≡ c.virtual_token_reserves =
        ground (arith, b.moved, b.fits) in
      let whole : d.virtual_sol_reserves * d.virtual_token_reserves
          < c.virtual_sol_reserves * (d.virtual_token_reserves + r.token_amount) =
        rw tokens lowered in
      let pos : 0 < d.virtual_token_reserves + r.token_amount = omega arith in
      let share : d.virtual_sol_reserves
            * d.virtual_token_reserves
            / (d.virtual_token_reserves + r.token_amount)
          < c.virtual_sol_reserves =
        (div-lt_iff_lt-mul pos).1 whole in
      omega arith

  lowered_or_not :
      (d.virtual_sol_reserves * d.virtual_token_reserves
        < c.virtual_sol_reserves * c.virtual_token_reserves)
      ⊎ (c.virtual_sol_reserves * c.virtual_token_reserves
          ≤ d.virtual_sol_reserves * d.virtual_token_reserves)
  lowered_or_not =
      elim (Bool-cases (
        ltb (d.virtual_sol_reserves * d.virtual_token_reserves)
          (c.virtual_sol_reserves * c.virtual_token_reserves))) [
            | inl lowered ↦ inl (ground arith)
            | inr fair ↦ inr (ground arith)
          ]

  -- The first buyer, at an account without real lamports, whose buy gave some tokens and was not
  -- the last: selling all of them back is refused exactly when the buy has lowered the product of
  -- the virtual reserves, which rounding can do, and that is exactly when the price of the sale is
  -- above what was paid, which is all the real lamports that the account holds. The product of the
  -- reserves after the buy is below 2^128 / 1000.
  pub sell_back_refused :
      d.virtual_sol_reserves * (1000 * d.virtual_token_reserves) < u128_bound
      → (((apply_sell r.token_amount d).0 ≡ none) ↔ (
          d.virtual_sol_reserves * d.virtual_token_reserves
          < c.virtual_sol_reserves * c.virtual_token_reserves))
        × ((a < sell_price d r.token_amount) ↔ (
            d.virtual_sol_reserves * d.virtual_token_reserves
            < c.virtual_sol_reserves * c.virtual_token_reserves))
        × (d.real_sol_reserves ≡ a)
  sell_back_refused product = (
    (
      λ refused. elim lowered_or_not [
        | inl lowered ↦ lowered
        | inr fair ↦ absurd (sale_goes product fair refused)
      ],
      sale_stops,
    ),
    (
      λ above. elim lowered_or_not [
        | inl lowered ↦ lowered
        | inr fair ↦ absurd (omega (arith, fair_price fair))
      ],
      unfair_price,
    ),
    holds_payment,
  )
