-- ===== src/Tests/Market.antt =====
-- The abstract market beside runs of programs/pump-raydium/src/state/bondingcurve.rs.
use pumpfun_solana_smart_con.Base.{ℕ, ◌↔◌, arith, refl}
use pumpfun_solana_smart_con.Curve.Market.{view, Buys, Sells}
use pumpfun_solana_smart_con.Curve.Market.Refines.{
  BuyFits, SellFits, BuyAnswers, SellAnswers, apply_buy_refines, apply_sell_refines,
}
use pumpfun_solana_smart_con.Curve.Market.Completes.{Completes, apply_buy-Completes}
use pumpfun_solana_smart_con.Tests.Curve.{
  launched, traded, launched_words, traded_words, buy_one_sol,
}

abbrev bought : ℕ
bought = 34_612_909_387_096

apply_buy_refines_example : BuyAnswers launched 1_000_000_000 bought 1_000_000_000 (view traded) ↔ (
    Buys (view launched) 1_000_000_000 bought 1_000_000_000 (view traded)
    × BuyFits launched 1_000_000_000)
apply_buy_refines_example =
    apply_buy_refines launched 1_000_000_000 launched_words (omega arith) bought 1_000_000_000
      (view traded)

-- So the run of one buy is a step of the market.
market-Buys : Buys (view launched) 1_000_000_000 bought 1_000_000_000 (view traded)
market-Buys =
    ((apply_buy_refines launched 1_000_000_000 launched_words (omega arith) bought 1_000_000_000
        (view traded)).0
      (record { after = traded; answer = buy_one_sol; viewed = refl })).0

apply_sell_refines_example :
    SellAnswers traded bought 1_000_000_000 (view launched)
    ↔ (Sells (view traded) bought 1_000_000_000 (view launched) × SellFits traded bought)
apply_sell_refines_example =
    apply_sell_refines traded bought traded_words (omega arith) 1_000_000_000 (view launched)

apply_buy-Completes_example : (m : ℕ) × Completes 86_000_000_000 launched m
apply_buy-Completes_example =
    apply_buy-Completes 86_000_000_000 launched launched_words (omega arith) (omega arith)
      (omega arith) (omega arith) (omega arith) (omega arith) (omega arith) (omega arith)
