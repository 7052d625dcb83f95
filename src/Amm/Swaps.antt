-- ===== src/Amm/Swaps.antt =====
-- The builders `swap_base_in` and `swap_base_out` of
-- programs/pump-raydium/src/amm_instruction.rs.
use pumpfun_solana_smart_con.Base.{true, false, ℕ, [], ◌∷◌}
use pumpfun_solana_smart_con.Rust.{Result, ok}
use pumpfun_solana_smart_con.Curve.{Pubkey}
use pumpfun_solana_smart_con.Amm.{AmmInstruction, ProgramError}
use pumpfun_solana_smart_con.Amm.Sdk.{Sdk, Instruction}
use pumpfun_solana_smart_con.Amm.Bytes.{◌>>=◌}
use pumpfun_solana_smart_con.Amm.Codec.{pack}

module _ (sdk : Sdk) where
  open sdk use {AccountMeta, new, new_readonly, spl_token_id}

  unfoldable pub swap_base_in :
      (amm_program amm_pool amm_authority amm_open_orders amm_coin_vault amm_pc_vault market_program
        market market_bids market_asks market_event_queue market_coin_vault market_pc_vault
        market_vault_signer user_token_source user_token_destination user_source_owner : Pubkey)
      (amount_in minimum_amount_out : ℕ)
      → Result ProgramError (Instruction AccountMeta)
  swap_base_in amm_program amm_pool amm_authority amm_open_orders amm_coin_vault amm_pc_vault
        market_program market market_bids market_asks market_event_queue market_coin_vault
        market_pc_vault market_vault_signer user_token_source user_token_destination
        user_source_owner amount_in minimum_amount_out =
      do
        bytes ← pack (
            AmmInstruction.swap_base_in
              (record { amount_in = amount_in; minimum_amount_out = minimum_amount_out }))
        let accounts =
            new_readonly spl_token_id false
            ∷ new amm_pool false
            ∷ new_readonly amm_authority false
            ∷ new amm_open_orders false
            ∷ new amm_coin_vault false
            ∷ new amm_pc_vault false
            ∷ new_readonly market_program false
            ∷ new market false
            ∷ new market_bids false
            ∷ new market_asks false
            ∷ new market_event_queue false
            ∷ new market_coin_vault false
            ∷ new market_pc_vault false
            ∷ new_readonly market_vault_signer false
            ∷ new user_token_source false
            ∷ new user_token_destination false
            ∷ new_readonly user_source_owner true
            ∷ []
        ok (record { program_id = amm_program; accounts = accounts; data_bytes = bytes })

  unfoldable pub swap_base_out :
      (amm_program amm_pool amm_authority amm_open_orders amm_coin_vault amm_pc_vault market_program
        market market_bids market_asks market_event_queue market_coin_vault market_pc_vault
        market_vault_signer user_token_source user_token_destination user_source_owner : Pubkey)
      (max_amount_in amount_out : ℕ)
      → Result ProgramError (Instruction AccountMeta)
  swap_base_out amm_program amm_pool amm_authority amm_open_orders amm_coin_vault amm_pc_vault
        market_program market market_bids market_asks market_event_queue market_coin_vault
        market_pc_vault market_vault_signer user_token_source user_token_destination
        user_source_owner max_amount_in amount_out =
      do
        bytes ← pack (
            AmmInstruction.swap_base_out
              (record { max_amount_in = max_amount_in; amount_out = amount_out }))
        let accounts =
            new_readonly spl_token_id false
            ∷ new amm_pool false
            ∷ new_readonly amm_authority false
            ∷ new amm_open_orders false
            ∷ new amm_coin_vault false
            ∷ new amm_pc_vault false
            ∷ new_readonly market_program false
            ∷ new market false
            ∷ new market_bids false
            ∷ new market_asks false
            ∷ new market_event_queue false
            ∷ new market_coin_vault false
            ∷ new market_pc_vault false
            ∷ new_readonly market_vault_signer false
            ∷ new user_token_source false
            ∷ new user_token_destination false
            ∷ new_readonly user_source_owner true
            ∷ []
        ok (record { program_id = amm_program; accounts = accounts; data_bytes = bytes })
