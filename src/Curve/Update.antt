-- ===== src/Curve/Update.antt =====
-- `apply_buy` and `apply_sell` of programs/pump-raydium/src/state/bondingcurve.rs.
pub mod Books
pub mod Buy
pub mod Sell
use pumpfun_solana_smart_con.Base.{ℕ, true, Option, none, some, leb, if◌then◌else◌}
use pumpfun_solana_smart_con.Rust.{checked_add, checked_sub, try_into_u64}
use pumpfun_solana_smart_con.Curve.{BondingCurve, BuyResult, SellResult}
use pumpfun_solana_smart_con.Curve.Quote.{get_sol_for_sell_tokens, get_tokens_for_buy_sol}

-- A method on `&mut self`: the account comes back on every path, also after `None`.
abbrev pub Action : Type 0 → Type 0
Action A = BondingCurve → Option A × BondingCurve

infixl 5 ◌>>=◌ ◌>>◌
abbrev pub ◌>>=◌ : {A B : Type 0} → Action A → (A → Action B) → Action B
◌>>=◌ m f c = let (r, c') = m c in elim r [ none ↦ (none, c') | some a ↦ f a c' ]

abbrev pub ◌>>◌ : {A B : Type 0} → Action A → Action B → Action B
m >> k = m >>= λ _. k

abbrev pub pure : {A : Type 0} → A → Action A
pure a c = (some a, c)

abbrev pub gets : {A : Type 0} → (BondingCurve → A) → Action A
gets f c = (some (f c), c)

-- `?` on an Option that does not depend on the account.
abbrev pub lift : {A : Type 0} → Option A → Action A
lift o c = (o, c)

-- A call of a method on `&self`.
abbrev pub asks : {A : Type 0} → (BondingCurve → Option A) → Action A
asks f c = (f c, c)

abbrev pub modify : (BondingCurve → BondingCurve) → Action (Unit {0})
modify f c = (some tt, f c)

-- The lamports that the curve is to have raised when its last token is sold.
abbrev pub total_raise : ℕ
total_raise = 1_916_755_017

-- The branch "Last Buy": every token that is left, at a price that is computed with the reserves
-- overwritten for the time of one call.
unfoldable pub last_buy : Action (ℕ × ℕ)
last_buy = do
  token_amount ← gets (λ c. c.real_token_reserves)
  current_virtual_token_reserves ← gets (λ c. c.virtual_token_reserves)
  current_virtual_sol_reserves ← gets (λ c. c.virtual_sol_reserves)
  left ← lift (checked_sub current_virtual_token_reserves token_amount)
  lowered ← lift (try_into_u64 left)
  modify (λ c. record c { virtual_token_reserves = lowered })
  modify (λ c. record c { virtual_sol_reserves = total_raise })
  recomputed_sol_amount ← asks (λ c. get_sol_for_sell_tokens c token_amount)
  modify (λ c. record c { virtual_token_reserves = current_virtual_token_reserves })
  modify (λ c. record c { virtual_sol_reserves = current_virtual_sol_reserves })
  modify (λ c. record c { is_completed = true })
  pure (token_amount, recomputed_sol_amount)

-- The bookkeeping after the amounts of a buy are known.
unfoldable pub book_buy : ℕ → ℕ → Action BuyResult
book_buy token_amount sol_amount = do
  vt ← gets (λ c. c.virtual_token_reserves)
  new_virtual_token_reserves ← lift (checked_sub vt token_amount)
  rt ← gets (λ c. c.real_token_reserves)
  new_real_token_reserves ← lift (checked_sub rt token_amount)
  vs ← gets (λ c. c.virtual_sol_reserves)
  new_virtual_sol_reserves ← lift (checked_add vs sol_amount)
  rs ← gets (λ c. c.real_sol_reserves)
  new_real_sol_reserves ← lift (checked_add rs sol_amount)
  vt' ← lift (try_into_u64 new_virtual_token_reserves)
  modify (λ c. record c { virtual_token_reserves = vt' })
  rt' ← lift (try_into_u64 new_real_token_reserves)
  modify (λ c. record c { real_token_reserves = rt' })
  vs' ← lift (try_into_u64 new_virtual_sol_reserves)
  modify (λ c. record c { virtual_sol_reserves = vs' })
  rs' ← lift (try_into_u64 new_real_sol_reserves)
  modify (λ c. record c { real_sol_reserves = rs' })
  pure (record { token_amount = token_amount; sol_amount = sol_amount })

unfoldable pub apply_buy : ℕ → Action BuyResult
apply_buy sol_amount = do
  token_amount ← asks (λ c. get_tokens_for_buy_sol c sol_amount)
  real ← gets (λ c. c.real_token_reserves)
  (tokens, sol) ← if leb real token_amount then last_buy else pure (token_amount, sol_amount)
  book_buy tokens sol

-- The bookkeeping after the price of a sale is known.
unfoldable pub book_sell : ℕ → ℕ → Action SellResult
book_sell token_amount sol_amount = do
  vt ← gets (λ c. c.virtual_token_reserves)
  new_virtual_token_reserves ← lift (checked_add vt token_amount)
  rt ← gets (λ c. c.real_token_reserves)
  new_real_token_reserves ← lift (checked_add rt token_amount)
  vs ← gets (λ c. c.virtual_sol_reserves)
  new_virtual_sol_reserves ← lift (checked_sub vs sol_amount)
  rs ← gets (λ c. c.real_sol_reserves)
  new_real_sol_reserves ← lift (checked_sub rs sol_amount)
  vt' ← lift (try_into_u64 new_virtual_token_reserves)
  modify (λ c. record c { virtual_token_reserves = vt' })
  rt' ← lift (try_into_u64 new_real_token_reserves)
  modify (λ c. record c { real_token_reserves = rt' })
  vs' ← lift (try_into_u64 new_virtual_sol_reserves)
  modify (λ c. record c { virtual_sol_reserves = vs' })
  rs' ← lift (try_into_u64 new_real_sol_reserves)
  modify (λ c. record c { real_sol_reserves = rs' })
  pure (record { token_amount = token_amount; sol_amount = sol_amount })

unfoldable pub apply_sell : ℕ → Action SellResult
apply_sell token_amount = do
  sol_amount ← asks (λ c. get_sol_for_sell_tokens c token_amount)
  book_sell token_amount sol_amount
