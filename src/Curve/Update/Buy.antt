-- ===== src/Curve/Update/Buy.antt =====
-- `apply_buy` of programs/pump-raydium/src/state/bondingcurve.rs as a whole: the last buy,
-- successes and failures.
use pumpfun_solana_smart_con.Base.{
  ℕ, ◌+◌, ◌-◌, ◌*◌, ◌/◌, ◌≤◌, ◌<◌, ◌≡◌, ◌⊎◌, inl, inr, true, false, none, some, arith, ltb, leb,
  ◌==◌, sym, ◌∙◌, if◌then◌else◌, Bool-cases, Option-cases,
}
use pumpfun_solana_smart_con.Curve.{BondingCurve, BuyResult, IsU64Curve}
use pumpfun_solana_smart_con.Curve.Quote.{get_sol_for_sell_tokens, get_tokens_for_buy_sol}
use pumpfun_solana_smart_con.Curve.Quote.Price.{get_sol_for_sell_tokens-eq}
use pumpfun_solana_smart_con.Curve.Update.{◌>>=◌, total_raise, last_buy, book_buy, apply_buy}
use pumpfun_solana_smart_con.Curve.Update.Books.{CanBuy, bought_curve, book_buy_inv, bind_some}

-- What all the tokens that are left cost: the total raise, less its share that stays behind.
abbrev pub final_price : BondingCurve → ℕ
final_price c =
    let left = c.virtual_token_reserves - c.real_token_reserves in
    total_raise - total_raise * left / (left + c.real_token_reserves)

-- The account as the last buy overwrites it to compute its price.
abbrev priced : BondingCurve → BondingCurve
priced c = record c {
  virtual_token_reserves = c.virtual_token_reserves - c.real_token_reserves;
  virtual_sol_reserves = total_raise;
}

last_quote :
    (c : BondingCurve)
    → IsU64Curve c
    → get_sol_for_sell_tokens (priced c) c.real_token_reserves
      ≡ (if c.real_token_reserves == 0 then none else some (final_price c))
last_quote c u = ground (
  arith,
  get_sol_for_sell_tokens-eq (priced c) c.real_token_reserves
      (record { vs = omega arith; vt = omega arith; rs = u.rs; rt = u.rt }) u.rt,
)

-- The last buy on every branch.
pub last_buy-eq :
    (c : BondingCurve)
    → IsU64Curve c
    → last_buy c ≡ (
        if ltb c.virtual_token_reserves c.real_token_reserves
        then (none, c)
        else if c.real_token_reserves == 0
        then (none, priced c)
        else (some (c.real_token_reserves, final_price c), record c { is_completed = true }))
unfolding last_buy
last_buy-eq c u = ground (arith, last_quote c u)

last_buy-cases :
    (c : BondingCurve)
    → IsU64Curve c
    → ((last_buy c).0 ≡ none)
      ⊎ ((0 < c.real_token_reserves)
          × (c.real_token_reserves ≤ c.virtual_token_reserves)
          × (last_buy c
              ≡ (some (c.real_token_reserves, final_price c), record c { is_completed = true })))
last_buy-cases c u = elim (Bool-cases (ltb c.virtual_token_reserves c.real_token_reserves)) [
  | inl short ↦ inl (ground (arith, last_buy-eq c u))
  | inr enough ↦ elim (Bool-cases (c.real_token_reserves == 0)) [
    | inl empty ↦ inl (ground (arith, last_buy-eq c u))
    | inr left ↦ inr (ground arith, ground arith, ground (arith, last_buy-eq c u))
  ]
]

pub final_price-le : (c : BondingCurve) → final_price c ≤ total_raise
final_price-le c = omega arith

module _ (a : ℕ) (c : BondingCurve) where
  apply_buy-unquoted : get_tokens_for_buy_sol c a ≡ none → apply_buy a c ≡ (none, c)
  unfolding apply_buy
  apply_buy-unquoted e = ground arith

  pub apply_buy-regular :
      {out : ℕ}
      → get_tokens_for_buy_sol c a ≡ some out
      → leb c.real_token_reserves out ≡ false
      → apply_buy a c ≡ book_buy out a c
  unfolding apply_buy
  apply_buy-regular e few = ground arith

  pub apply_buy-last :
      {out : ℕ}
      → get_tokens_for_buy_sol c a ≡ some out
      → leb c.real_token_reserves out ≡ true
      → apply_buy a c ≡ (last_buy >>= λ p. book_buy p.0 p.1) c
  unfolding apply_buy
  apply_buy-last e all = ground arith

-- What a buy that goes through for the amounts `r` has made of the account `c`.
pub record Bought (c : BondingCurve) (a : ℕ) (r : BuyResult) (d : BondingCurve) : Type 0 where
  pub fits : CanBuy c r.token_amount r.sol_amount
  pub moved : d ≡ record (bought_curve r.token_amount r.sol_amount c) {
    is_completed = if leb c.real_token_reserves r.token_amount then true else c.is_completed;
  }
  pub quote : ℕ
  pub quoted : get_tokens_for_buy_sol c a ≡ some quote
  pub priced_at :
      ((r.token_amount < c.real_token_reserves) × (r.sol_amount ≡ a) × (quote ≡ r.token_amount))
      ⊎ ((r.token_amount ≡ c.real_token_reserves)
          × (0 < r.token_amount)
          × (r.token_amount ≤ quote)
          × (r.sol_amount ≡ final_price c))

module _ (a : ℕ) (c : BondingCurve) (u : IsU64Curve c) {r : BuyResult} {d : BondingCurve} where
  regular_buy :
      {out : ℕ}
      → get_tokens_for_buy_sol c a ≡ some out
      → leb c.real_token_reserves out ≡ false
      → book_buy out a c ≡ (some r, d)
      → Bought c a r d
  regular_buy {out} q few e =
      let (can, er, ed) = book_buy_inv out a c u e in
      record {
        fits = ground arith;
        moved = ground arith;
        quote = out;
        quoted = q;
        priced_at = ground arith;
      }

  final_buy :
      {out : ℕ}
      → get_tokens_for_buy_sol c a ≡ some out
      → leb c.real_token_reserves out ≡ true
      → (last_buy >>= λ p. book_buy p.0 p.1) c ≡ (some r, d)
      → Bought c a r d
  final_buy {out} q all e = elim (last_buy-cases c u) [
    | inl failed ↦ cc (failed, e)
    | inr (some_left, held, done) ↦
        let (can, er, ed) =
          book_buy_inv c.real_token_reserves (final_price c) (record c { is_completed = true })
            (record { vs = u.vs; vt = u.vt; rs = u.rs; rt = u.rt })
            (sym (bind_some last_buy (λ p. book_buy p.0 p.1) c done) ∙ e) in
        record {
          fits = ground arith;
          moved = ground arith;
          quote = out;
          quoted = q;
          priced_at = ground arith;
        }
  ]

  -- A successful `apply_buy` takes the tokens it reports from the virtual and the real token
  -- reserves, adds the lamports it reports to both sol reserves, and changes nothing else but
  -- `is_completed`, set exactly when it takes all real tokens. It sells the quote for `a`, when that
  -- is less than the real tokens, and else the whole of them, more than none, for the final price.
  pub apply_buy-Bought : apply_buy a c ≡ (some r, d) → Bought c a r d
  apply_buy-Bought e = elim (Option-cases (get_tokens_for_buy_sol c a)) [
    | inl unquoted ↦ cc (apply_buy-unquoted a c unquoted)
    | inr (out, q) ↦ elim (Bool-cases (leb c.real_token_reserves out)) [
      | inl all ↦ final_buy q all (sym (apply_buy-last a c q all) ∙ e)
      | inr few ↦ regular_buy q few (sym (apply_buy-regular a c q few) ∙ e)
    ]
  ]

pub Bought-IsU64Curve :
    {c d : BondingCurve} {a : ℕ} {r : BuyResult} → IsU64Curve c → Bought c a r d → IsU64Curve d
Bought-IsU64Curve u b = ground arith
