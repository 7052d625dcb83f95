-- ===== src/Utils.antt =====
-- The transfers and the conversions of programs/pump-raydium/src/utils.rs.
pub mod Decimals
use pumpfun_solana_smart_con.Base.{ℕ, ◌*◌, false, none}
use pumpfun_solana_smart_con.Curve.{Pubkey}
use pumpfun_solana_smart_con.Rust.Float.{F64, finite, unit, as_f64, as_u64, div, mul}
use pumpfun_solana_smart_con.Svm.{Runtime, Run, Seeds, step, transfer, token_transfer}

module _ (rt : Runtime) where
  unfoldable pub sol_transfer_from_user : (signer destination : Pubkey) → ℕ → Run (Unit {0})
  sol_transfer_from_user signer destination amount =
      step (rt.invoke none (transfer signer destination amount))

  unfoldable pub token_transfer_user : (from authority to : Pubkey) → ℕ → Run (Unit {0})
  token_transfer_user from authority to amount =
      step (rt.invoke none (token_transfer from to authority amount))

  unfoldable pub token_transfer_with_signer :
      (from authority to : Pubkey) → Seeds → ℕ → Run (Unit {0})
  token_transfer_with_signer from authority to signer_seeds amount =
      step (rt.invoke signer_seeds (token_transfer from to authority amount))

  unfoldable pub sol_transfer_with_signer :
      (source destination : Pubkey) → Seeds → ℕ → Run (Unit {0})
  sol_transfer_with_signer source destination signers_seeds amount =
      step (rt.invoke signers_seeds (transfer source destination amount))

-- The literal 10.0.
abbrev pub ten : F64
ten = finite false (10 * unit)

-- `f64::powf` is a parameter, since Rust leaves its precision open.
module _ (powf : F64 → F64 → F64) where
  unfoldable pub convert_to_float : (value decimals : ℕ) → F64
  convert_to_float value decimals = div (as_f64 value) (powf ten (as_f64 decimals))

  unfoldable pub convert_from_float : F64 → (decimals : ℕ) → ℕ
  convert_from_float value decimals = as_u64 (mul value (powf ten (as_f64 decimals)))
