-- ===== src/Config/Validate.antt =====
-- What `AmountConfig::validate` of programs/pump-raydium/src/state/config.rs admits.
use pumpfun_solana_smart_con.Base.{
  ℕ, ◌≤◌, ◌≡◌, ◌↔◌, inl, inr, Bool, true, Option, none, some, List, [], ◌∷◌, arith, ◌==◌,
  Bool-cases,
}
use pumpfun_solana_smart_con.Rust.{ok, err}
use pumpfun_solana_smart_con.Errors.{value_too_small, value_too_large, value_invalid}
use pumpfun_solana_smart_con.Config.{AmountConfig, range, enum, contains, validate, unsigned_ord}
use mathlib.Core.List.{Mem, mem-cons, not-mem-nil}
use mathlib.Core.Logic.Or

is_true_prop : (b : Bool) → IsProp (b ≡ true)
is_true_prop b = hlevel

contains-Mem : (xs : List ℕ) (v : ℕ) → (contains xs v ≡ true) ↔ Mem v xs
unfolding contains
contains-Mem [] v = (λ e. cc, λ m. absurd (not-mem-nil m))
contains-Mem (x ∷ xs) v =
    let (there, back) = contains-Mem xs v in
    (
      λ e. elim (Bool-cases (x == v)) [
        | inl same ↦ mem-cons.1 (Or.inl (ground arith))
        | inr other ↦ mem-cons.1 (Or.inr (there (ground arith)))
      ],
      λ m.
          Or.elim (is_true_prop _) (mem-cons.0 m) (λ e. ground arith) (λ k. ground (arith, back k)),
    )

-- The least and the greatest value of a range, where they are given.
abbrev pub AtLeast : Option ℕ → ℕ → Type 0
AtLeast none v = Unit
AtLeast (some min) v = min ≤ v

abbrev pub AtMost : Option ℕ → ℕ → Type 0
AtMost none v = Unit
AtMost (some max) v = v ≤ max

-- What a configuration admits.
abbrev pub Admits : AmountConfig ℕ → ℕ → Type 0
Admits (range min max) v = AtLeast min v × AtMost max v
Admits (enum options) v = Mem v options

-- `validate` at u64 and u8 answers Ok exactly for what the configuration admits: for a range, a
-- value that is at least the minimum and at most the maximum, each where given; for an enumeration,
-- a value that is listed.
pub validate-Admits : (c : AmountConfig ℕ) (v : ℕ) → (validate c v ≡ ok tt) ↔ Admits c v
unfolding validate
validate-Admits (range none none) v = ground arith
validate-Admits (range none (some max)) v = ground arith
validate-Admits (range (some min) none) v = ground arith
validate-Admits (range (some min) (some max)) v = ground arith
validate-Admits (enum options) v =
    let (there, back) = contains-Mem options v in
    (λ e. there (ground arith), λ m. ground (arith, back m))

range_small :
    (min max : Option ℕ) (v : ℕ)
    → (validate (range min max) v ≡ err value_too_small) ↔ (¬ AtLeast min v)
unfolding validate
range_small none none v = ground arith
range_small none (some max) v = ground arith
range_small (some min) none v = ground arith
range_small (some min) (some max) v = ground arith

range_large :
    (min max : Option ℕ) (v : ℕ)
    → (validate (range min max) v ≡ err value_too_large) ↔ (AtLeast min v × (¬ AtMost max v))
unfolding validate
range_large none none v = ground arith
range_large none (some max) v = ground arith
range_large (some min) none v = ground arith
range_large (some min) (some max) v = ground arith

enum_invalid :
    (options : List ℕ) (v : ℕ) → (validate (enum options) v ≡ err value_invalid) ↔ (¬ Mem v options)
unfolding validate
enum_invalid options v =
    let (there, back) = contains-Mem options v in
    (
      λ e m. ground (arith, back m),
      λ n. elim (Bool-cases (contains options v)) [
        | inl found ↦ absurd (n (there found))
        | inr missing ↦ ground arith
      ],
    )

-- A value that `validate` refuses gets the error that names the reason: ValueTooSmall if it lies
-- below the minimum of a range, also where the maximum is below it too, ValueTooLarge if it only
-- lies above the maximum, and ValueInvalid if it is not in an enumeration.
validate_errors :
    (min max : Option ℕ) (options : List ℕ) (v : ℕ)
    → ((validate (range min max) v ≡ err value_too_small) ↔ (¬ AtLeast min v))
      × ((validate (range min max) v ≡ err value_too_large) ↔ (AtLeast min v × (¬ AtMost max v)))
      × ((validate (enum options) v ≡ err value_invalid) ↔ (¬ Mem v options))
unfolding validate
validate_errors min max options v =
    (range_small min max v, range_large min max v, enum_invalid options v)
