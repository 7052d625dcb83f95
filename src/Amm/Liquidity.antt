-- ===== src/Amm/Liquidity.antt =====
-- The builders `initialize2`, `deposit` and `withdraw` of
-- programs/pump-raydium/src/amm_instruction.rs.
use pumpfun_solana_smart_con.Base.{true, false, ℕ, Option, none, some, List, [], ◌∷◌, ◌++◌}
use pumpfun_solana_smart_con.Rust.{Result, ok}
use pumpfun_solana_smart_con.Curve.{Pubkey}
use pumpfun_solana_smart_con.Amm.{AmmInstruction, ProgramError}
use pumpfun_solana_smart_con.Amm.Sdk.{Sdk, Instruction}
use pumpfun_solana_smart_con.Amm.Bytes.{◌>>=◌}
use pumpfun_solana_smart_con.Amm.Codec.{pack}

module _ (sdk : Sdk) where
  open sdk use {
    AccountMeta, new, new_readonly, spl_token_id, spl_associated_token_account_id,
    system_program_id, rent_id,
  }

  unfoldable pub initialize2 :
      (amm_program amm_pool amm_authority amm_open_orders amm_lp_mint amm_coin_mint amm_pc_mint
        amm_coin_vault amm_pc_vault amm_target_orders amm_config create_fee_destination
        market_program market user_wallet user_token_coin user_token_pc user_token_lp : Pubkey)
      (nonce open_time init_pc_amount init_coin_amount : ℕ)
      → Result ProgramError (Instruction AccountMeta)
  initialize2 amm_program amm_pool amm_authority amm_open_orders amm_lp_mint amm_coin_mint
        amm_pc_mint amm_coin_vault amm_pc_vault amm_target_orders amm_config create_fee_destination
        market_program market user_wallet user_token_coin user_token_pc user_token_lp nonce
        open_time init_pc_amount init_coin_amount =
      do
        bytes ← pack (
            AmmInstruction.initialize2 (record {
              nonce = nonce;
              open_time = open_time;
              init_pc_amount = init_pc_amount;
              init_coin_amount = init_coin_amount;
            }))
        let accounts =
            new_readonly spl_token_id false
            ∷ new_readonly spl_associated_token_account_id false
            ∷ new_readonly system_program_id false
            ∷ new_readonly rent_id false
            ∷ new amm_pool false
            ∷ new_readonly amm_authority false
            ∷ new amm_open_orders false
            ∷ new amm_lp_mint false
            ∷ new_readonly amm_coin_mint false
            ∷ new_readonly amm_pc_mint false
            ∷ new amm_coin_vault false
            ∷ new amm_pc_vault false
            ∷ new amm_target_orders false
            ∷ new_readonly amm_config false
            ∷ new create_fee_destination false
            ∷ new_readonly market_program false
            ∷ new_readonly market false
            ∷ new user_wallet true
            ∷ new user_token_coin false
            ∷ new user_token_pc false
            ∷ new user_token_lp false
            ∷ []
        ok (record { program_id = amm_program; accounts = accounts; data_bytes = bytes })

  unfoldable pub deposit :
      (amm_program amm_pool amm_authority amm_open_orders amm_target_orders amm_lp_mint
        amm_coin_vault amm_pc_vault market market_event_queue user_token_coin user_token_pc
        user_token_lp user_owner : Pubkey)
      (max_coin_amount max_pc_amount base_side : ℕ)
      → Result ProgramError (Instruction AccountMeta)
  deposit amm_program amm_pool amm_authority amm_open_orders amm_target_orders amm_lp_mint
        amm_coin_vault amm_pc_vault market market_event_queue user_token_coin user_token_pc
        user_token_lp user_owner max_coin_amount max_pc_amount base_side =
      do
        bytes ← pack (
            AmmInstruction.deposit (record {
              max_coin_amount = max_coin_amount;
              max_pc_amount = max_pc_amount;
              base_side = base_side;
            }))
        let accounts =
            new_readonly spl_token_id false
            ∷ new amm_pool false
            ∷ new_readonly amm_authority false
            ∷ new_readonly amm_open_orders false
            ∷ new amm_target_orders false
            ∷ new amm_lp_mint false
            ∷ new amm_coin_vault false
            ∷ new amm_pc_vault false
            ∷ new_readonly market false
            ∷ new user_token_coin false
            ∷ new user_token_pc false
            ∷ new user_token_lp false
            ∷ new_readonly user_owner true
            ∷ new_readonly market_event_queue false
            ∷ []
        ok (record { program_id = amm_program; accounts = accounts; data_bytes = bytes })

  -- `accounts.push(AccountMeta::new(*referrer_pc_key, false))`, if there is a referrer.
  unfoldable pub push_referrer : Option Pubkey → List AccountMeta → List AccountMeta
  push_referrer none accounts = accounts
  push_referrer (some referrer_pc_key) accounts = accounts ++ (new referrer_pc_key false ∷ [])

  unfoldable pub withdraw :
      (amm_program amm_pool amm_authority amm_open_orders amm_target_orders amm_lp_mint
        amm_coin_vault amm_pc_vault market_program market market_coin_vault market_pc_vault
        market_vault_signer user_token_lp user_token_coin user_token_pc user_owner
        market_event_queue market_bids market_asks : Pubkey)
      (referrer_pc_account : Option Pubkey) (amount : ℕ)
      → Result ProgramError (Instruction AccountMeta)
  withdraw amm_program amm_pool amm_authority amm_open_orders amm_target_orders amm_lp_mint
        amm_coin_vault amm_pc_vault market_program market market_coin_vault market_pc_vault
        market_vault_signer user_token_lp user_token_coin user_token_pc user_owner
        market_event_queue market_bids market_asks referrer_pc_account amount =
      do
        bytes ← pack (AmmInstruction.withdraw (record { amount = amount }))
        let accounts =
            new_readonly spl_token_id false
            ∷ new amm_pool false
            ∷ new_readonly amm_authority false
            ∷ new amm_open_orders false
            ∷ new amm_target_orders false
            ∷ new amm_lp_mint false
            ∷ new amm_coin_vault false
            ∷ new amm_pc_vault false
            ∷ new_readonly market_program false
            ∷ new market false
            ∷ new market_coin_vault false
            ∷ new market_pc_vault false
            ∷ new_readonly market_vault_signer false
            ∷ new user_token_lp false
            ∷ new user_token_coin false
            ∷ new user_token_pc false
            ∷ new_readonly user_owner true
            ∷ new market_event_queue false
            ∷ new market_bids false
            ∷ new market_asks false
            ∷ []
        ok (record {
          program_id = amm_program;
          accounts = push_referrer referrer_pc_account accounts;
          data_bytes = bytes;
        })
