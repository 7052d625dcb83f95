-- ===== src/Curve/Quote/Price.antt =====
-- The two quotes of programs/pump-raydium/src/state/bondingcurve.rs in closed form.
use pumpfun_solana_smart_con.Base.{
  ℕ, ◌+◌, ◌-◌, ◌*◌, ◌/◌, ◌≤◌, ◌<◌, ◌≡◌, none, some, arith, ltb, ◌==◌, if◌then◌else◌, Bool, not,
  ◌&&◌,
}
use pumpfun_solana_smart_con.Rust.{IsU64, u128_bound}
use pumpfun_solana_smart_con.Curve.{BondingCurve, IsU64Curve}
use pumpfun_solana_smart_con.Curve.Quote.{
  scale_tokens, sell_quote, buy_quote, get_sol_for_sell_tokens, get_tokens_for_buy_sol,
}
use native.Mathlib.Nat.{div-le_of_le-mul, mul-div-mul_left}

-- Going from 6 to 9 decimals is a multiplication by 1000 and cannot overflow.
scale_tokens-eq : (x : ℕ) → IsU64 x → scale_tokens x ≡ some (1000 * x)
unfolding scale_tokens
scale_tokens-eq x h = ground arith

pub share-le : (s t a : ℕ) → s * t / (s + a) ≤ t
share-le s t a = div-le_of_le-mul (s + a) (grind arith)

-- The tokens that `a` lamports buy.
abbrev pub buy_price : BondingCurve → ℕ → ℕ
buy_price c a =
    let s = c.virtual_sol_reserves in
    let t = 1000 * c.virtual_token_reserves in (t - s * t / (s + a)) / 1000

buy_quote-eq :
    (c : BondingCurve) (a : ℕ)
    → IsU64Curve c
    → IsU64 a
    → 0 < a
    → buy_quote c a ≡ (
        if ltb (c.virtual_sol_reserves * (1000 * c.virtual_token_reserves)) u128_bound
        then some (buy_price c a)
        else none)
unfolding buy_quote
buy_quote-eq c a u ha pos = ground (
  arith,
  scale_tokens-eq c.virtual_token_reserves u.vt,
  share-le c.virtual_sol_reserves (1000 * c.virtual_token_reserves) a,
)

-- The lamports that `a` tokens sell for.
abbrev pub sell_price : BondingCurve → ℕ → ℕ
sell_price c a =
    let s = c.virtual_sol_reserves in let t = c.virtual_token_reserves in s - s * t / (t + a)

-- The scale cancels.
unscale : (s t a : ℕ) → s * (1000 * t) / (1000 * t + 1000 * a) ≡ s * t / (t + a)
unscale s t a =
    let e : s * (1000 * t) ≡ 1000 * (s * t) = omega arith in
    let f : 1000 * t + 1000 * a ≡ 1000 * (t + a) = omega arith in
    rw (e, f) (mul-div-mul_left (s * t) (t + a) (omega arith))

pub sold_share : (s t a : ℕ) → s * t / (t + a) ≤ s
sold_share s t a = div-le_of_le-mul (t + a) (grind arith)

sell_quote-eq :
    (c : BondingCurve) (a : ℕ)
    → IsU64Curve c
    → IsU64 a
    → 0 < a
    → sell_quote c a ≡ (
        if ltb (c.virtual_sol_reserves * (1000 * c.virtual_token_reserves)) u128_bound
        then some (sell_price c a)
        else none)
unfolding sell_quote
sell_quote-eq c a u ha pos =
    rw (sell_quote, scale_tokens-eq c.virtual_token_reserves u.vt, scale_tokens-eq a ha)
      (ground (
        arith,
        unscale c.virtual_sol_reserves c.virtual_token_reserves a,
        sold_share c.virtual_sol_reserves c.virtual_token_reserves a,
      ))

-- A quote answers: the amount is positive and the scaled product fits 128 bits.
abbrev pub quotes : BondingCurve → ℕ → Bool
quotes c a =
    not (a == 0) && ltb (c.virtual_sol_reserves * (1000 * c.virtual_token_reserves)) u128_bound

pub get_tokens_for_buy_sol-eq :
    (c : BondingCurve) (a : ℕ)
    → IsU64Curve c
    → IsU64 a
    → get_tokens_for_buy_sol c a ≡ (if quotes c a then some (buy_price c a) else none)
unfolding get_tokens_for_buy_sol
get_tokens_for_buy_sol-eq c a u ha = ground (arith, buy_quote-eq c a u ha)

pub get_sol_for_sell_tokens-eq :
    (c : BondingCurve) (a : ℕ)
    → IsU64Curve c
    → IsU64 a
    → get_sol_for_sell_tokens c a ≡ (if quotes c a then some (sell_price c a) else none)
unfolding get_sol_for_sell_tokens
get_sol_for_sell_tokens-eq c a u ha = ground (arith, sell_quote-eq c a u ha)

-- What both quotes answer, on every branch, for an account with u64 reserves s of lamports and t of
-- tokens: None exactly when the amount `a` is 0 or 1000 s t reaches 2^128, and else
-- (1000 t - floor (1000 s t / (s + a))) / 1000 tokens, rounded down, for `a` lamports, and
-- s - floor (s t / (t + a)) lamports for `a` tokens. No other step can overflow.
pub quoted_prices :
    (c : BondingCurve) (a : ℕ)
    → IsU64Curve c
    → IsU64 a
    → (get_tokens_for_buy_sol c a ≡ (if quotes c a then some (buy_price c a) else none))
      × (get_sol_for_sell_tokens c a ≡ (if quotes c a then some (sell_price c a) else none))
quoted_prices c a u ha = (get_tokens_for_buy_sol-eq c a u ha, get_sol_for_sell_tokens-eq c a u ha)
