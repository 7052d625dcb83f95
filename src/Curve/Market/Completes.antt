-- ===== src/Curve/Market/Completes.antt =====
-- How a curve of programs/pump-raydium/src/state/bondingcurve.rs comes to its end.
use pumpfun_solana_smart_con.Base.{
  ℕ, ◌+◌, ◌-◌, ◌*◌, ◌≤◌, ◌<◌, ◌≡◌, inr, true, false, some, arith, refl,
}
use pumpfun_solana_smart_con.Rust.{IsU64, u128_bound}
use pumpfun_solana_smart_con.Curve.{BondingCurve, IsU64Curve}
use pumpfun_solana_smart_con.Curve.Update.{total_raise, apply_buy}
use pumpfun_solana_smart_con.Curve.Update.Buy.{final_price}
use pumpfun_solana_smart_con.Curve.Market.{view, BuysAll, take_out}
use pumpfun_solana_smart_con.Curve.Market.Price.{final_price-IsLeast}
use pumpfun_solana_smart_con.Curve.Market.Refines.{apply_buy_refines}

-- The sale of the last token: the curve is completed and sold out, for `m` lamports.
pub record Completes (a : ℕ) (c : BondingCurve) (m : ℕ) : Type 0 where
  pub after : BondingCurve
  pub answer :
      apply_buy a c
      ≡ (some (record { token_amount = c.real_token_reserves; sol_amount = m }), after)
  pub completed : after.is_completed ≡ true
  pub sold_out : after.real_token_reserves ≡ 0
  pub capped : m ≤ total_raise

-- An offer at the price of the curve covers.
offer_covers :
    (s t a left rt : ℕ)
    → left + rt ≡ t
    → 0 < a
    → s * rt ≤ a * left
    → 1000 * (s * t) < (1000 * left + 1) * (s + a)
offer_covers s t a left rt split pos offer =
    let whole : s * (left + rt) ≡ s * left + s * rt = grind arith in
    let parts : (1000 * left + 1) * (s + a) ≡ 1000 * (s * left + a * left) + (s + a) =
      grind arith in
    rw (← split, whole, parts) (omega arith)

-- Whoever offers what all the tokens cost on the curve, sol * real tokens / (tokens - real tokens)
-- and more than nothing, completes the curve: the buy goes through, sells every real token for at
-- most the total raise, and sets `is_completed`. The account holds tokens, no fewer virtual than
-- real ones; the account and the offer are u64; the product of the reserves is below 2^128 / 1000;
-- both sol reserves have room for the total raise.
pub apply_buy-Completes :
    (a : ℕ) (c : BondingCurve)
    → IsU64Curve c
    → IsU64 a
    → 0 < c.real_token_reserves
    → c.real_token_reserves ≤ c.virtual_token_reserves
    → 0 < a
    → c.virtual_sol_reserves * c.real_token_reserves
      ≤ a * (c.virtual_token_reserves - c.real_token_reserves)
    → c.virtual_sol_reserves * (1000 * c.virtual_token_reserves) < u128_bound
    → IsU64 (c.virtual_sol_reserves + total_raise)
    → IsU64 (c.real_sol_reserves + total_raise)
    → (m : ℕ) × Completes a c m
apply_buy-Completes a c u ha some_left held pos offer product vs rs =
    let capped : final_price c ≤ total_raise = omega arith in
    let all : BuysAll (view c) a c.real_token_reserves (final_price c)
        (take_out c.real_token_reserves (final_price c) false (view c)) =
      record {
        positive = pos;
        some_left = some_left;
        held = held;
        enough =
            offer_covers c.virtual_sol_reserves c.virtual_token_reserves a
              (c.virtual_token_reserves - c.real_token_reserves) c.real_token_reserves (omega arith)
              pos offer;
        bought = refl;
        cost = final_price-IsLeast c some_left held;
        after = refl;
      } in
    let b =
      (apply_buy_refines c a u ha c.real_token_reserves (final_price c)
          (take_out c.real_token_reserves (final_price c) false (view c))).1
        (inr all, record { product = product; vs = omega arith; rs = omega arith }) in
    (
      final_price c,
      record {
        after = b.after;
        answer = b.answer;
        completed = ground (arith, b.viewed);
        sold_out = ground (arith, b.viewed);
        capped = capped;
      },
    )
