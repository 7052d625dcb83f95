-- ===== src/Amm.antt =====
-- The instruction types of programs/pump-raydium/src/amm_instruction.rs: a client of the Raydium
-- pool program. Bytes, codec and builders are in the child modules.
pub mod Bytes
pub mod Codec
pub mod RoundTrip
pub mod Accepts
pub mod Sdk
pub mod Liquidity
pub mod Swaps
pub mod Documented
use pumpfun_solana_smart_con.Base.{ℕ}

pub record InitializeInstruction : Type 0 where
  pub nonce : ℕ
  pub open_time : ℕ

pub record InitializeInstruction2 : Type 0 where
  pub nonce : ℕ
  pub open_time : ℕ
  pub init_pc_amount : ℕ
  pub init_coin_amount : ℕ

pub record PreInitializeInstruction : Type 0 where
  pub nonce : ℕ

pub record DepositInstruction : Type 0 where
  pub max_coin_amount : ℕ
  pub max_pc_amount : ℕ
  pub base_side : ℕ

pub record WithdrawInstruction : Type 0 where
  pub amount : ℕ

pub record SwapInstructionBaseIn : Type 0 where
  pub amount_in : ℕ
  pub minimum_amount_out : ℕ

pub record SwapInstructionBaseOut : Type 0 where
  pub max_amount_in : ℕ
  pub amount_out : ℕ

pub data AmmInstruction : Type 0 where
  initialize : InitializeInstruction → AmmInstruction
  initialize2 : InitializeInstruction2 → AmmInstruction
  reserved0 : AmmInstruction
  deposit : DepositInstruction → AmmInstruction
  withdraw : WithdrawInstruction → AmmInstruction
  reserved1 reserved2 reserved3 reserved4 : AmmInstruction
  swap_base_in : SwapInstructionBaseIn → AmmInstruction
  pre_initialize : PreInitializeInstruction → AmmInstruction
  swap_base_out : SwapInstructionBaseOut → AmmInstruction
  reserved5 : AmmInstruction

-- The one `ProgramError` that the file raises.
pub data ProgramError : Type 0 where
  invalid_instruction_data : ProgramError
