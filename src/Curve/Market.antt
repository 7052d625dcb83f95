-- ===== src/Curve/Market.antt =====
-- An abstract market: what the account of programs/pump-raydium/src/state/bondingcurve.rs promises
-- its traders, without the arithmetic that finds the prices.
pub mod Price
pub mod Refines
pub mod Completes
use pumpfun_solana_smart_con.Base.{ℕ, ◌+◌, ◌-◌, ◌*◌, ◌≤◌, ◌<◌, ◌≡◌, ◌⊎◌, Bool, false, not}
use pumpfun_solana_smart_con.Curve.{BondingCurve}
use pumpfun_solana_smart_con.Curve.Update.{total_raise}

-- The reserves that make the price, what has been raised, what is for sale, and whether trading is
-- open.
pub record Pool : Type 0 where
  pub sol : ℕ
  pub tokens : ℕ
  pub raised : ℕ
  pub for_sale : ℕ
  pub open_for_trade : Bool

abbrev pub view : BondingCurve → Pool
view c = record {
  sol = c.virtual_sol_reserves;
  tokens = c.virtual_token_reserves;
  raised = c.real_sol_reserves;
  for_sale = c.real_token_reserves;
  open_for_trade = not c.is_completed;
}

pub record IsLeast (P : ℕ → Type 0) (n : ℕ) : Type 0 where
  pub holds : P n
  pub below : (x : ℕ) → P x → n ≤ x

pub record IsGreatest (P : ℕ → Type 0) (n : ℕ) : Type 0 where
  pub holds : P n
  pub above : (x : ℕ) → P x → x ≤ n

-- With `left` tokens left after a payment of `a`, the product of the reserves is what it was, up to
-- a thousandth of a token.
abbrev pub Covers : Pool → (a left : ℕ) → Type 0
Covers p a left = 1000 * (p.sol * p.tokens) < (1000 * left + 1) * (p.sol + a)

abbrev pub take_out : (n m : ℕ) → Bool → Pool → Pool
take_out n m still p = record {
  sol = p.sol + m;
  tokens = p.tokens - n;
  raised = p.raised + m;
  for_sale = p.for_sale - n;
  open_for_trade = still;
}

-- An offer of `a` lamports buys `n` tokens that leave the pool with as few as the price allows, and
-- costs all that is offered.
pub record BuysSome (p : Pool) (a n m : ℕ) (q : Pool) : Type 0 where
  pub positive : 0 < a
  pub left : ℕ
  pub least : IsLeast (Covers p a) left
  pub bought : n + left ≡ p.tokens
  pub few : n < p.for_sale
  pub cost : m ≡ a
  pub after : q ≡ take_out n m p.open_for_trade p

-- An offer that pays for everything that is for sale buys that, and costs its share of the total
-- raise, rounded up; trading is over.
pub record BuysAll (p : Pool) (a n m : ℕ) (q : Pool) : Type 0 where
  pub positive : 0 < a
  pub some_left : 0 < p.for_sale
  pub held : p.for_sale ≤ p.tokens
  pub enough : Covers p a (p.tokens - p.for_sale)
  pub bought : n ≡ p.for_sale
  pub cost : IsLeast (λ x. total_raise * p.for_sale ≤ x * p.tokens) m
  pub after : q ≡ take_out n m false p

abbrev pub Buys : Pool → (a n m : ℕ) → Pool → Type 0
Buys p a n m q = BuysSome p a n m q ⊎ BuysAll p a n m q

-- `n` tokens are bought back for what keeps the product from growing, paid from what was raised.
pub record Sells (p : Pool) (n m : ℕ) (q : Pool) : Type 0 where
  pub positive : 0 < n
  pub left : ℕ
  pub greatest : IsGreatest (λ x. x * (p.tokens + n) ≤ p.sol * p.tokens) left
  pub paid : m + left ≡ p.sol
  pub covered : m ≤ p.raised
  pub after : q ≡ record {
    sol = p.sol - m;
    tokens = p.tokens + n;
    raised = p.raised - m;
    for_sale = p.for_sale + n;
    open_for_trade = p.open_for_trade;
  }
