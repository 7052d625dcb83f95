-- ===== src/Amm/Documented.antt =====
-- The builders of programs/pump-raydium/src/amm_instruction.rs against the account lists in the
-- doc comments of `AmmInstruction`.
pub mod Liquidity
pub mod Swaps
pub mod Tables
use pumpfun_solana_smart_con.Base.{
  ℕ, ◌≡◌, refl, ◌∙◌, Bool, true, false, Option, none, some, List, [], ◌∷◌, ◌++◌, map,
}
use pumpfun_solana_smart_con.Rust.{IsU8, IsU64, Result, ok}
use pumpfun_solana_smart_con.Curve.{Pubkey}
use pumpfun_solana_smart_con.Amm.{AmmInstruction, ProgramError}
use pumpfun_solana_smart_con.Amm.Sdk.{Sdk, Instruction}
use pumpfun_solana_smart_con.Amm.Bytes.{◌>>=◌}
use pumpfun_solana_smart_con.Amm.Codec.{pack, pack_bytes, unpack}
use pumpfun_solana_smart_con.Amm.RoundTrip.{IsPackable, unpack-pack}
use pumpfun_solana_smart_con.Amm.Liquidity.{initialize2, deposit, withdraw, push_referrer}
use pumpfun_solana_smart_con.Amm.Swaps.{swap_base_in, swap_base_out}
use mathlib.Core.List.{append-nil}

-- How an account is listed: `[]`, `[writable]`, `[signer]` or `[writable, signer]`.
pub data Role : Type 0 where
  readonly writable signer writable_signer : Role

abbrev pub role_of : Bool → Bool → Role
role_of true true = writable_signer
role_of true false = writable
role_of false true = signer
role_of false false = readonly

module _ (sdk : Sdk) where
  open sdk use {AccountMeta, pubkey, is_signer, is_writable}

  abbrev pub role : AccountMeta → Role
  role m = role_of (is_writable m) (is_signer m)

  -- The built instruction calls `program`, its data is read back as `i`, and its accounts have the
  -- keys and the roles in order.
  pub record Describes (built : Result ProgramError (Instruction AccountMeta)) (program : Pubkey)
      (i : AmmInstruction) (keys : List Pubkey) (roles : List Role) : Type 0 where
    pub instruction : Instruction AccountMeta
    pub succeeds : built ≡ ok instruction
    pub calls : instruction.program_id ≡ program
    pub decodes : unpack instruction.data_bytes ≡ ok i
    pub keyed : map pubkey instruction.accounts ≡ keys
    pub listed : map role instruction.accounts ≡ roles

pub unpack-pack_bytes : (i : AmmInstruction) → IsPackable i → unpack (pack_bytes i) ≡ ok i
unpack-pack_bytes i h = rw append-nil at (unpack-pack i [] h)
