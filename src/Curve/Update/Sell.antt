-- ===== src/Curve/Update/Sell.antt =====
-- `apply_sell` of programs/pump-raydium/src/state/bondingcurve.rs as a whole: successes and
-- failures.
use pumpfun_solana_smart_con.Base.{
  ℕ, ◌≤◌, ◌≡◌, inl, inr, true, none, some, arith, sym, ◌∙◌, Option-cases,
}
use pumpfun_solana_smart_con.Rust.{IsU64}
use pumpfun_solana_smart_con.Curve.{BondingCurve, SellResult, IsU64Curve}
use pumpfun_solana_smart_con.Curve.Quote.{get_sol_for_sell_tokens}
use pumpfun_solana_smart_con.Curve.Quote.Price.{quotes, sell_price, get_sol_for_sell_tokens-eq}
use pumpfun_solana_smart_con.Curve.Update.{book_sell, apply_sell}
use pumpfun_solana_smart_con.Curve.Update.Books.{CanSell, sold_curve, book_sell-eq, book_sell_inv}

-- What a sale of `n` tokens that goes through with the result `r` has made of the account `c`.
pub record Sold (c : BondingCurve) (n : ℕ) (r : SellResult) (d : BondingCurve) : Type 0 where
  pub fits : CanSell c n r.sol_amount
  pub moved : d ≡ sold_curve n r.sol_amount c
  pub tokens : r.token_amount ≡ n
  pub priced_at : get_sol_for_sell_tokens c n ≡ some r.sol_amount

module _ (n : ℕ) (c : BondingCurve) where
  apply_sell-unquoted : get_sol_for_sell_tokens c n ≡ none → apply_sell n c ≡ (none, c)
  unfolding apply_sell
  apply_sell-unquoted e = ground arith

  pub apply_sell-quoted :
      {m : ℕ} → get_sol_for_sell_tokens c n ≡ some m → apply_sell n c ≡ book_sell n m c
  unfolding apply_sell
  apply_sell-quoted e = ground arith

module _ (n : ℕ) (c : BondingCurve) (u : IsU64Curve c) where
  -- A successful `apply_sell` reports the `n` tokens it was given and the quoted lamports, adds
  -- those tokens to both token reserves, takes those lamports from both sol reserves, which held
  -- them, and changes nothing else.
  pub apply_sell-Sold :
      {r : SellResult} {d : BondingCurve} → apply_sell n c ≡ (some r, d) → Sold c n r d
  apply_sell-Sold e = elim (Option-cases (get_sol_for_sell_tokens c n)) [
    | inl unquoted ↦ cc (apply_sell-unquoted n c unquoted)
    | inr (m, q) ↦
        let (can, er, ed) = book_sell_inv n m c u (sym (apply_sell-quoted n c q) ∙ e) in
        record {
          fits = ground arith;
          moved = ground arith;
          tokens = ground arith;
          priced_at = ground arith;
        }
  ]

  -- A sale that is quoted goes through, if the tokens fit both token reserves and the price is
  -- there in both sol reserves.
  pub apply_sell_total :
      IsU64 n
      → quotes c n ≡ true
      → CanSell c n (sell_price c n)
      → apply_sell n c ≡ (
        some (record { token_amount = n; sol_amount = sell_price c n }),
        sold_curve n (sell_price c n) c,
      )
  apply_sell_total hn q can =
      apply_sell-quoted n c (ground (arith, get_sol_for_sell_tokens-eq c n u hn))
      ∙ book_sell-eq n (sell_price c n) c u hn can

  book_sell_atomic :
      (m : ℕ)
      → c.real_token_reserves ≤ c.virtual_token_reserves
      → (book_sell n m c).0 ≡ none
      → (book_sell n m c).1 ≡ c
  unfolding book_sell
  book_sell_atomic m held e = ground arith

  -- A sale that answers None has changed nothing, if there are no more real tokens than virtual
  -- ones: of the four writes, the first is the only one that can fail.
  apply_sell_atomic :
      c.real_token_reserves ≤ c.virtual_token_reserves
      → (apply_sell n c).0 ≡ none
      → (apply_sell n c).1 ≡ c
  apply_sell_atomic held e = elim (Option-cases (get_sol_for_sell_tokens c n)) [
    | inl unquoted ↦ ground (arith, apply_sell-unquoted n c unquoted)
    | inr (m, q) ↦ ground (arith, apply_sell-quoted n c q, book_sell_atomic m held)
  ]
