-- ===== src/Config.antt =====
-- The configuration account of programs/pump-raydium/src/state/config.rs. An f64 is held as its 64
-- bits: no live code computes with one.
pub mod Validate
use pumpfun_solana_smart_con.Base.{
  ℕ, Bool, true, false, Option, none, some, List, [], ◌∷◌, ◌||◌, if◌then◌else◌,
}
use pumpfun_solana_smart_con.Rust.{Result, ok, err}
use pumpfun_solana_smart_con.Curve.{Pubkey}
use pumpfun_solana_smart_con.Errors.{ContractError, value_too_small, value_too_large, value_invalid}
use pumpfun_solana_smart_con.Base as Base

abbrev pub F64 : Type 0
F64 = ℕ

pub data AmountConfig {ℓ} (T : Type ℓ) : Type ℓ where
  range : Option T → Option T → AmountConfig T
  enum : List T → AmountConfig T

pub record Config : Type 0 where
  pub authority : Pubkey
  pub migration_authority : Pubkey
  pub team_wallet : Pubkey
  pub migration_wallet : Pubkey
  pub init_bonding_curve : F64
  pub platform_buy_fee : F64
  pub platform_sell_fee : F64
  pub platform_migration_fee : F64
  pub curve_limit : ℕ
  pub lamport_amount_config : AmountConfig ℕ
  pub token_supply_config : AmountConfig ℕ
  pub token_decimals_config : AmountConfig ℕ
  pub initial_virtual_token_reserves_config : ℕ
  pub initial_virtual_sol_reserves_config : ℕ
  pub initial_real_token_reserves_config : ℕ
  pub initial_raydium_token_reserves : ℕ
  pub initial_raydium_sol_amount : ℕ
  pub initialized : Bool

-- The traits `PartialEq` and `PartialOrd` of Rust, as far as `validate` uses them.
pub record PartialOrd {ℓ} (T : Type ℓ) : Type ℓ where
  pub eq : T → T → Bool
  pub lt : T → T → Bool
  pub gt : T → T → Bool

-- u64 and u8.
instance abbrev pub unsigned_ord : PartialOrd ℕ
unsigned_ord = record { eq = Base.◌==◌; lt = Base.ltb; gt = λ a b. Base.ltb b a }

module _ {ℓ} {T : Type ℓ} ⦃o : PartialOrd T⦄ where
  -- `Vec::contains`.
  unfoldable pub contains : List T → T → Bool
  contains [] value = false
  contains (x ∷ xs) value = o.eq x value || contains xs value

  abbrev too_small : Option T → T → Bool
  too_small none value = false
  too_small (some min) value = o.lt value min

  abbrev too_large : Option T → T → Bool
  too_large none value = false
  too_large (some max) value = o.gt value max

  unfoldable pub validate : AmountConfig T → T → Result ContractError (Unit {0})
  validate (range min max) value =
      if too_small min value
      then err value_too_small
      else if too_large max value
      then err value_too_large
      else ok tt
  validate (enum options) value = if contains options value then ok tt else err value_invalid
