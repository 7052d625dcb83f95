-- ===== src/Curve/Market/Refines.antt =====
-- `apply_buy` and `apply_sell` of programs/pump-raydium/src/state/bondingcurve.rs do what the
-- abstract market says, and refuse only what it does not allow or what does not fit their numbers.
use pumpfun_solana_smart_con.Base.{
  ℕ, ◌+◌, ◌-◌, ◌*◌, ◌<◌, ◌≡◌, ◌↔◌, inl, inr, true, some, arith, ◌∙◌, sym,
}
use pumpfun_solana_smart_con.Rust.{IsU64, u128_bound}
use pumpfun_solana_smart_con.Curve.{BondingCurve, IsU64Curve}
use pumpfun_solana_smart_con.Curve.Quote.{get_tokens_for_buy_sol, get_sol_for_sell_tokens}
use pumpfun_solana_smart_con.Curve.Quote.Price.{
  buy_price, sell_price, get_tokens_for_buy_sol-eq, get_sol_for_sell_tokens-eq,
}
use pumpfun_solana_smart_con.Curve.Update.{last_buy, book_buy, apply_buy, apply_sell}
use pumpfun_solana_smart_con.Curve.Update.Books.{
  CanBuy, bought_curve, sold_curve, book_buy-eq, book_sell-eq, bind_some,
}
use pumpfun_solana_smart_con.Curve.Update.Buy.{
  apply_buy-Bought, apply_buy-regular, apply_buy-last, last_buy-eq, final_price,
}
use pumpfun_solana_smart_con.Curve.Update.Sell.{apply_sell-Sold, apply_sell-quoted}
use pumpfun_solana_smart_con.Curve.Market.{Pool, view, BuysSome, BuysAll, Buys, Sells}
use pumpfun_solana_smart_con.Curve.Market.Price.{
  IsLeast-unique, IsGreatest-unique, Covers-mono, buy_price-IsLeast, sell_price-IsGreatest,
  final_price-IsLeast,
}

-- The numbers of a buy for `m` lamports fit the words they are computed in.
pub record BuyFits (c : BondingCurve) (m : ℕ) : Type 0 where
  pub product : c.virtual_sol_reserves * (1000 * c.virtual_token_reserves) < u128_bound
  pub vs : IsU64 (c.virtual_sol_reserves + m)
  pub rs : IsU64 (c.real_sol_reserves + m)

pub record SellFits (c : BondingCurve) (n : ℕ) : Type 0 where
  pub product : c.virtual_sol_reserves * (1000 * c.virtual_token_reserves) < u128_bound
  pub vt : IsU64 (c.virtual_token_reserves + n)
  pub rt : IsU64 (c.real_token_reserves + n)

-- `apply_buy` answers `n` tokens for `m` lamports and leaves an account with the view `q`.
pub record BuyAnswers (c : BondingCurve) (a n m : ℕ) (q : Pool) : Type 0 where
  pub after : BondingCurve
  pub answer : apply_buy a c ≡ (some (record { token_amount = n; sol_amount = m }), after)
  pub viewed : view after ≡ q

pub record SellAnswers (c : BondingCurve) (n m : ℕ) (q : Pool) : Type 0 where
  pub after : BondingCurve
  pub answer : apply_sell n c ≡ (some (record { token_amount = n; sol_amount = m }), after)
  pub viewed : view after ≡ q

module _ (c : BondingCurve) (a : ℕ) (u : IsU64Curve c) (ha : IsU64 a) where
  quoted_inv :
      {out : ℕ}
      → get_tokens_for_buy_sol c a ≡ some out
      → (0 < a)
        × (c.virtual_sol_reserves * (1000 * c.virtual_token_reserves) < u128_bound)
        × (out ≡ buy_price c a)
  quoted_inv q = ground (arith, get_tokens_for_buy_sol-eq c a u ha)

  buy_sound : {n m : ℕ} {q : Pool} → BuyAnswers c a n m q → Buys (view c) a n m q × BuyFits c m
  buy_sound {n} {m} {q} h =
      let b = apply_buy-Bought a c u h.answer in
      let (pos, product, price) = quoted_inv b.quoted in
      (
        elim b.priced_at [
          | inl (few, cost, same) ↦ inl (record {
            positive = pos;
            left = c.virtual_token_reserves - buy_price c a;
            least = buy_price-IsLeast c a pos;
            bought = ground (arith, b.fits);
            few = few;
            cost = cost;
            after = ground (arith, b.moved, h.viewed);
          })
          | inr (all, some_left, covered, cost) ↦ inr (record {
            positive = pos;
            some_left = ground arith;
            held = ground (arith, b.fits);
            enough = Covers-mono c a (omega arith) (buy_price-IsLeast c a pos).holds;
            bought = all;
            cost = rw cost (final_price-IsLeast c (ground arith) (ground (arith, b.fits)));
            after = ground (arith, b.moved, h.viewed);
          })
        ],
        record { product = product; vs = b.fits.vs; rs = b.fits.rs },
      )

  buy_some : {n m : ℕ} {q : Pool} → BuysSome (view c) a n m q → BuyFits c m → BuyAnswers c a n m q
  buy_some {n} {m} {q} s f =
      let least = IsLeast-unique s.least (buy_price-IsLeast c a s.positive) in
      let bought : buy_price c a ≡ n = omega arith in
      let quoted : get_tokens_for_buy_sol c a ≡ some n =
        ground (arith, get_tokens_for_buy_sol-eq c a u ha) in
      let can : CanBuy c n m = record {
        vt = omega arith;
        rt = omega arith;
        vs = f.vs;
        rs = f.rs;
      } in
      record {
        after = bought_curve n m c;
        answer =
            apply_buy-regular a c quoted (ground (arith, s.few))
            ∙ rw (sym s.cost) (book_buy-eq n m c u can);
        viewed = sym s.after;
      }

  buy_all : {n m : ℕ} {q : Pool} → BuysAll (view c) a n m q → BuyFits c m → BuyAnswers c a n m q
  buy_all {n} {m} {q} s f =
      let cost : m ≡ final_price c =
        IsLeast-unique s.cost (final_price-IsLeast c s.some_left s.held) in
      let less =
        (buy_price-IsLeast c a s.positive).below (c.virtual_token_reserves - c.real_token_reserves)
          s.enough in
      let quoted : get_tokens_for_buy_sol c a ≡ some (buy_price c a) =
        ground (arith, get_tokens_for_buy_sol-eq c a u ha) in
      let c' : BondingCurve = record c { is_completed = true } in
      let done : last_buy c ≡ (some (n, m), c') = ground (arith, last_buy-eq c u) in
      let can : CanBuy c' n m = record {
        vt = ground arith;
        rt = ground arith;
        vs = f.vs;
        rs = f.rs;
      } in
      let words : IsU64Curve c' = record { vs = u.vs; vt = u.vt; rs = u.rs; rt = u.rt } in
      record {
        after = bought_curve n m c';
        answer =
            apply_buy-last a c quoted (ground arith)
            ∙ bind_some last_buy (λ p. book_buy p.0 p.1) c done
            ∙ book_buy-eq n m c' words can;
        viewed = ground (arith, s.after, s.bought);
      }

  -- Refinement, in both directions: `apply_buy` answers `n` tokens for `m` lamports and leaves an
  -- account that looks like the pool `q` exactly when the abstract market lets an offer of `a`
  -- lamports buy that and go on to `q`, the product of the reserves is below 2^128 / 1000, and
  -- both sol reserves have room for `m`. The account and `a` are u64.
  pub apply_buy_refines :
      (n m : ℕ) (q : Pool) → BuyAnswers c a n m q ↔ (Buys (view c) a n m q × BuyFits c m)
  apply_buy_refines n m q =
      (buy_sound, λ h. elim h.0 [ inl part ↦ buy_some part h.1 | inr all ↦ buy_all all h.1 ])

module _ (c : BondingCurve) (n : ℕ) (u : IsU64Curve c) (hn : IsU64 n) where
  sell_sound : {m : ℕ} {q : Pool} → SellAnswers c n m q → Sells (view c) n m q × SellFits c n
  sell_sound {m} {q} h =
      let b = apply_sell-Sold n c u h.answer in
      let e = get_sol_for_sell_tokens-eq c n u hn in
      let pos : 0 < n = ground (arith, e, b.priced_at) in
      let price : m ≡ sell_price c n = ground (arith, e, b.priced_at) in
      (
        record {
          positive = pos;
          left = c.virtual_sol_reserves - sell_price c n;
          greatest = sell_price-IsGreatest c n pos;
          paid = omega arith;
          covered = b.fits.rs;
          after = ground (arith, b.moved, h.viewed);
        },
        record { product = ground (arith, e, b.priced_at); vt = b.fits.vt; rt = b.fits.rt },
      )

  sell_complete : {m : ℕ} {q : Pool} → Sells (view c) n m q → SellFits c n → SellAnswers c n m q
  sell_complete {m} {q} s f =
      let greatest = IsGreatest-unique s.greatest (sell_price-IsGreatest c n s.positive) in
      let price : sell_price c n ≡ m = omega arith in
      let quoted : get_sol_for_sell_tokens c n ≡ some m =
        ground (arith, get_sol_for_sell_tokens-eq c n u hn) in
      record {
        after = sold_curve n m c;
        answer =
            apply_sell-quoted n c quoted
            ∙ book_sell-eq n m c u hn
                (record { vt = f.vt; rt = f.rt; vs = omega arith; rs = s.covered });
        viewed = sym s.after;
      }

  -- Refinement, in both directions: `apply_sell` takes `n` tokens for `m` lamports and leaves an
  -- account that looks like the pool `q` exactly when the abstract market lets `n` tokens be sold
  -- for `m` and go on to `q`, the product of the reserves is below 2^128 / 1000, and both token
  -- reserves have room for `n`. The account and `n` are u64.
  pub apply_sell_refines :
      (m : ℕ) (q : Pool) → SellAnswers c n m q ↔ (Sells (view c) n m q × SellFits c n)
  apply_sell_refines m q = (sell_sound, λ h. sell_complete h.0 h.1)
