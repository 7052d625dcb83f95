-- ===== src/Amm/Sdk.antt =====
-- What programs/pump-raydium/src/amm_instruction.rs uses of the Solana crates: `AccountMeta`,
-- `Instruction` and the program ids.
use pumpfun_solana_smart_con.Base.{ℕ, ◌≡◌, Bool, true, false, List}
use pumpfun_solana_smart_con.Curve.{Pubkey}

-- `AccountMeta` of the crate solana_program with its two constructors, and the ids that the
-- crates declare. The laws are the constructors' documentation.
pub record Sdk : Type 1 where
  pub AccountMeta : Type 0
  pub new : Pubkey → Bool → AccountMeta
  pub new_readonly : Pubkey → Bool → AccountMeta
  pub pubkey : AccountMeta → Pubkey
  pub is_signer : AccountMeta → Bool
  pub is_writable : AccountMeta → Bool
  pub spl_token_id : Pubkey
  pub spl_associated_token_account_id : Pubkey
  pub system_program_id : Pubkey
  pub rent_id : Pubkey
  pub pubkey-new : (k : Pubkey) (s : Bool) → pubkey (new k s) ≡ k
  pub pubkey-new_readonly : (k : Pubkey) (s : Bool) → pubkey (new_readonly k s) ≡ k
  pub is_signer-new : (k : Pubkey) (s : Bool) → is_signer (new k s) ≡ s
  pub is_signer-new_readonly : (k : Pubkey) (s : Bool) → is_signer (new_readonly k s) ≡ s
  pub is_writable-new : (k : Pubkey) (s : Bool) → is_writable (new k s) ≡ true
  pub is_writable-new_readonly : (k : Pubkey) (s : Bool) → is_writable (new_readonly k s) ≡ false

-- `Instruction` of the crate, over a type of account metas.
pub record Instruction (M : Type 0) : Type 0 where
  pub program_id : Pubkey
  pub accounts : List M
  pub data_bytes : List ℕ
