-- ===== src/Tests/Codec.antt =====
-- A serialisation of configurations for the examples: the numbers first, then the amounts.
use pumpfun_solana_smart_con.Base.{
  ℕ, zero, suc, ◌≡◌, refl, Bool, true, false, Option, none, some, List, [], ◌∷◌, ◌++◌, length, take,
  drop, take-append, drop-append,
}
use pumpfun_solana_smart_con.Rust.{Result, ok, err}
use pumpfun_solana_smart_con.Errors.{Fault, foreign}
use pumpfun_solana_smart_con.Config.{Config, AmountConfig, range, enum}
use mathlib.Core.List.{append_assoc}

abbrev put_option : Option ℕ → List ℕ → List ℕ
put_option none rest = 0 ∷ rest
put_option (some x) rest = 1 ∷ x ∷ rest

abbrev put_amount : AmountConfig ℕ → List ℕ → List ℕ
put_amount (range min max) rest = 0 ∷ put_option min (put_option max rest)
put_amount (enum options) rest = 1 ∷ length options ∷ (options ++ rest)

abbrev get_option : List ℕ → Option ℕ × List ℕ
get_option (suc _ ∷ x ∷ rest) = (some x, rest)
get_option (_ ∷ rest) = (none, rest)
get_option [] = (none, [])

abbrev get_amount : List ℕ → AmountConfig ℕ × List ℕ
get_amount (suc _ ∷ n ∷ rest) = (enum (take n rest), drop n rest)
get_amount (_ ∷ rest) =
    let (min, after) = get_option rest in
    let (max, left) = get_option after in (range min max, left)
get_amount [] = (enum [], [])

abbrev pub encode : Config → List ℕ
encode c =
    c.authority
    ∷ c.migration_authority
    ∷ c.team_wallet
    ∷ c.migration_wallet
    ∷ c.init_bonding_curve
    ∷ c.platform_buy_fee
    ∷ c.platform_sell_fee
    ∷ c.platform_migration_fee
    ∷ c.curve_limit
    ∷ c.initial_virtual_token_reserves_config
    ∷ c.initial_virtual_sol_reserves_config
    ∷ c.initial_real_token_reserves_config
    ∷ c.initial_raydium_token_reserves
    ∷ c.initial_raydium_sol_amount
    ∷ (elim c.initialized [ true ↦ 1 | false ↦ 0 ])
    ∷ put_amount c.lamport_amount_config
        (put_amount c.token_supply_config (put_amount c.token_decimals_config []))

abbrev flag : ℕ → Bool
flag zero = false
flag (suc _) = true

abbrev pub decode : List ℕ → Result Fault Config
decode (a ∷ b ∷ c ∷ d ∷ e ∷ f ∷ g ∷ h ∷ i ∷ j ∷ k ∷ l ∷ m ∷ n ∷ o ∷ rest) =
    let (lamports, after) = get_amount rest in
    let (supply, left) = get_amount after in
    let (decimals, _) = get_amount left in
    ok (record {
      authority = a;
      migration_authority = b;
      team_wallet = c;
      migration_wallet = d;
      init_bonding_curve = e;
      platform_buy_fee = f;
      platform_sell_fee = g;
      platform_migration_fee = h;
      curve_limit = i;
      lamport_amount_config = lamports;
      token_supply_config = supply;
      token_decimals_config = decimals;
      initial_virtual_token_reserves_config = j;
      initial_virtual_sol_reserves_config = k;
      initial_real_token_reserves_config = l;
      initial_raydium_token_reserves = m;
      initial_raydium_sol_amount = n;
      initialized = flag o;
    })
decode _ = err (foreign 3)

get_option-put_option : (a : Option ℕ) (rest : List ℕ) → get_option (put_option a rest) ≡ (a, rest)
get_option-put_option none rest = refl
get_option-put_option (some x) rest = refl

get_amount-put_amount :
    (a : AmountConfig ℕ) (rest : List ℕ) → get_amount (put_amount a rest) ≡ (a, rest)
get_amount-put_amount (range min max) rest = simp (get_option-put_option)
get_amount-put_amount (enum options) rest = simp (take-append, drop-append)

put_option-append :
    (a : Option ℕ) (xs ys : List ℕ) → put_option a xs ++ ys ≡ put_option a (xs ++ ys)
put_option-append none xs ys = refl
put_option-append (some x) xs ys = refl

put_amount-append :
    (a : AmountConfig ℕ) (xs ys : List ℕ) → put_amount a xs ++ ys ≡ put_amount a (xs ++ ys)
put_amount-append (range min max) xs ys = simp (put_option-append)
put_amount-append (enum options) xs ys = simp (append_assoc)

flag-bit : (b : Bool) → flag (elim b as (λ _. ℕ) [ true ↦ 1 | false ↦ 0 ]) ≡ b
flag-bit true = refl
flag-bit false = refl

pub decode-encode : (c : Config) (rest : List ℕ) → decode (encode c ++ rest) ≡ ok c
decode-encode c rest = simp (put_amount-append, get_amount-put_amount, flag-bit)
