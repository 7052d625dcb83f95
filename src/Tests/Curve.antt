-- ===== src/Tests/Curve.antt =====
-- Runs of the bonding curve of programs/pump-raydium/src/state/bondingcurve.rs.
use pumpfun_solana_smart_con.Base.{
  ◌+◌, ◌*◌, ◌≤◌, ◌<◌, ◌≡◌, ◌↔◌, refl, false, none, some, arith, if◌then◌else◌,
}
use pumpfun_solana_smart_con.Constants.{
  initial_virtual_token_reserves, initial_virtual_sol_reserves, initial_real_token_reserves,
}
use pumpfun_solana_smart_con.Curve.{BondingCurve, BuyResult, SellResult, IsU64Curve}
use pumpfun_solana_smart_con.Curve.Quote.{
  scale_tokens, sell_quote, buy_quote, get_sol_for_sell_tokens, get_tokens_for_buy_sol,
}
use pumpfun_solana_smart_con.Curve.Quote.Price.{quotes, buy_price, sell_price, quoted_prices}
use pumpfun_solana_smart_con.Curve.SellBack.{sell_back_refused}
use pumpfun_solana_smart_con.Curve.RoundTrip.{buy_sell_back}
use pumpfun_solana_smart_con.Curve.Trades.{Flow, here, buy, sell, Follows, Trades-Follows}
use pumpfun_solana_smart_con.Curve.Update.{last_buy, book_buy, book_sell, apply_buy, apply_sell}
use pumpfun_solana_smart_con.Curve.Update.Buy.{Bought, apply_buy-Bought}
use pumpfun_solana_smart_con.Curve.Update.Sell.{Sold, apply_sell-Sold}

-- An account as launched with the constants of programs/pump-raydium/src/constants.rs.
abbrev pub launched : BondingCurve
launched = record {
  token_mint = 1;
  creator = 2;
  init_lamport = 0;
  token_total_supply = 1_000_000_000_000_000;
  virtual_sol_reserves = initial_virtual_sol_reserves;
  virtual_token_reserves = initial_virtual_token_reserves;
  real_sol_reserves = 0;
  real_token_reserves = initial_real_token_reserves;
  is_completed = false;
}

pub launched_words : IsU64Curve launched
launched_words = omega arith

-- The account after a buy for one SOL.
abbrev pub traded : BondingCurve
traded = record launched {
  virtual_sol_reserves = 31_000_000_000;
  virtual_token_reserves = 1_038_387_281_612_904;
  real_sol_reserves = 1_000_000_000;
  real_token_reserves = 758_487_090_612_904;
}

abbrev one_sol : BuyResult
one_sol = record { token_amount = 34_612_909_387_096; sol_amount = 1_000_000_000 }

pub traded_words : IsU64Curve traded
traded_words = omega arith

quote_one_sol : get_tokens_for_buy_sol launched 1_000_000_000 ≡ some 34_612_909_387_096
unfolding get_tokens_for_buy_sol buy_quote scale_tokens
quote_one_sol = refl

quote_back : get_sol_for_sell_tokens traded 34_612_909_387_096 ≡ some 1_000_000_000
unfolding get_sol_for_sell_tokens sell_quote scale_tokens
quote_back = refl

pub buy_one_sol : apply_buy 1_000_000_000 launched ≡ (some one_sol, traded)
unfolding apply_buy book_buy get_tokens_for_buy_sol buy_quote scale_tokens
buy_one_sol = refl

-- A buy that takes every token costs 1.4 SOL, though it offers 100.
buy_all :
    (apply_buy 100_000_000_000 launched).0
    ≡ some (record { token_amount = 793_100_000_000_000; sol_amount = 1_416_755_018 })
unfolding apply_buy last_buy book_buy get_tokens_for_buy_sol buy_quote scale_tokens
    get_sol_for_sell_tokens sell_quote
buy_all = refl

abbrev sold_back : SellResult
sold_back = record { token_amount = 34_612_909_387_096; sol_amount = 1_000_000_000 }

sell_one_sol : apply_sell 34_612_909_387_096 traded ≡ (some sold_back, launched)
unfolding apply_sell book_sell get_sol_for_sell_tokens sell_quote scale_tokens
sell_one_sol = refl

quoted_prices_example :
    (get_tokens_for_buy_sol traded 500
      ≡ (if quotes traded 500 then some (buy_price traded 500) else none))
    × (get_sol_for_sell_tokens traded 500
        ≡ (if quotes traded 500 then some (sell_price traded 500) else none))
quoted_prices_example = quoted_prices traded 500 traded_words (omega arith)

apply_buy-Bought_example : Bought launched 1_000_000_000 one_sol traded
apply_buy-Bought_example = apply_buy-Bought 1_000_000_000 launched launched_words buy_one_sol

apply_sell-Sold_example : Sold traded 34_612_909_387_096 sold_back launched
apply_sell-Sold_example = apply_sell-Sold 34_612_909_387_096 traded traded_words sell_one_sol

abbrev day : Flow
day = record {
  tokens_out = 34_612_909_387_096;
  tokens_in = 34_612_909_387_096;
  sol_in = 1_000_000_000;
  sol_out = 1_000_000_000;
}

Trades-Follows_example : Follows launched day launched
Trades-Follows_example =
    Trades-Follows launched_words (omega arith)
      (sell 34_612_909_387_096 (buy 1_000_000_000 (here refl) buy_one_sol) sell_one_sol)

buy_sell_back_example :
    let s = launched.virtual_sol_reserves in
    let t = launched.virtual_token_reserves in
    ((1_000_000_000 ≤ 1_000_000_000)
      ↔ (s * t ≤ traded.virtual_sol_reserves * traded.virtual_token_reserves))
    × (1000 * (t * 1_000_000_000) < 1000 * (t * (1_000_000_000 + 1)) + (s + 1_000_000_000))
buy_sell_back_example =
    buy_sell_back 1_000_000_000 launched traded launched launched_words (omega arith) buy_one_sol
      (omega arith) sell_one_sol

-- A first buy whose tokens are worth one lamport more than they cost.
abbrev unlucky : BondingCurve
unlucky = record launched {
  virtual_sol_reserves = 31_000_000_827;
  virtual_token_reserves = 1_038_387_253_911_411;
  real_sol_reserves = 1_000_000_827;
  real_token_reserves = 758_487_062_911_411;
}

abbrev unlucky_tokens : BuyResult
unlucky_tokens = record { token_amount = 34_612_937_088_589; sol_amount = 1_000_000_827 }

buy_unlucky : apply_buy 1_000_000_827 launched ≡ (some unlucky_tokens, unlucky)
unfolding apply_buy book_buy get_tokens_for_buy_sol buy_quote scale_tokens
buy_unlucky = refl

sell_back_refused_example :
    (((apply_sell 34_612_937_088_589 unlucky).0 ≡ none) ↔ (
      unlucky.virtual_sol_reserves * unlucky.virtual_token_reserves
      < launched.virtual_sol_reserves * launched.virtual_token_reserves))
    × ((1_000_000_827 < sell_price unlucky 34_612_937_088_589) ↔ (
        unlucky.virtual_sol_reserves * unlucky.virtual_token_reserves
        < launched.virtual_sol_reserves * launched.virtual_token_reserves))
    × (unlucky.real_sol_reserves ≡ 1_000_000_827)
sell_back_refused_example =
    sell_back_refused 1_000_000_827 launched unlucky launched_words (omega arith) refl buy_unlucky
      (omega arith) (omega arith) (omega arith)

sell_unlucky : (apply_sell 34_612_937_088_589 unlucky).0 ≡ none
unfolding apply_sell book_sell get_sol_for_sell_tokens sell_quote scale_tokens
sell_unlucky = refl
