-- ===== src/Amm/Documented/Swaps.antt =====
-- `swap_base_in` and `swap_base_out` against their doc comments.
use pumpfun_solana_smart_con.Base.{ℕ, refl, [], ◌∷◌}
use pumpfun_solana_smart_con.Rust.{IsU64}
use pumpfun_solana_smart_con.Curve.{Pubkey}
use pumpfun_solana_smart_con.Amm.{AmmInstruction}
use pumpfun_solana_smart_con.Amm.Sdk.{Sdk}
use pumpfun_solana_smart_con.Amm.Codec.{pack}
use pumpfun_solana_smart_con.Amm.Documented.{Describes, unpack-pack_bytes}
use pumpfun_solana_smart_con.Amm.Documented.Tables.{documented_swap}
use pumpfun_solana_smart_con.Amm.Swaps.{swap_base_in, swap_base_out}

module _ (sdk : Sdk) where
  open sdk use {
    spl_token_id, spl_associated_token_account_id, system_program_id, rent_id, pubkey-new,
    pubkey-new_readonly, is_signer-new, is_signer-new_readonly, is_writable-new,
    is_writable-new_readonly,
  }

  -- `swap_base_in` builds an instruction for the pool program that decodes to its two amounts, for
  -- amounts in range, and lists the keys it was given in order, with the roles that the doc comment
  -- of the instruction gives, the optional target orders account left out.
  pub swap_base_in-Describes :
      (amm_program amm_pool amm_authority amm_open_orders amm_coin_vault amm_pc_vault market_program
        market market_bids market_asks market_event_queue market_coin_vault market_pc_vault
        market_vault_signer user_token_source user_token_destination user_source_owner : Pubkey)
      (amount_in minimum_amount_out : ℕ)
      → IsU64 amount_in
      → IsU64 minimum_amount_out
      → Describes sdk
          (swap_base_in sdk amm_program amm_pool amm_authority amm_open_orders amm_coin_vault
            amm_pc_vault market_program market market_bids market_asks market_event_queue
            market_coin_vault market_pc_vault market_vault_signer user_token_source
            user_token_destination user_source_owner amount_in minimum_amount_out)
          amm_program
          (AmmInstruction.swap_base_in
            (record { amount_in = amount_in; minimum_amount_out = minimum_amount_out }))
          (spl_token_id ∷ amm_pool ∷ amm_authority ∷ amm_open_orders ∷ amm_coin_vault ∷ amm_pc_vault
            ∷ market_program ∷ market ∷ market_bids ∷ market_asks ∷ market_event_queue
            ∷ market_coin_vault ∷ market_pc_vault ∷ market_vault_signer ∷ user_token_source
            ∷ user_token_destination ∷ user_source_owner ∷ [])
          documented_swap
  unfolding swap_base_in pack
  swap_base_in-Describes amm_program amm_pool amm_authority amm_open_orders amm_coin_vault
        amm_pc_vault market_program market market_bids market_asks market_event_queue
        market_coin_vault market_pc_vault market_vault_signer user_token_source
        user_token_destination user_source_owner amount_in minimum_amount_out h0 h1 =
      record {
        instruction = _;
        succeeds = refl;
        calls = refl;
        decodes = unpack-pack_bytes _ (h0, h1);
        keyed = simp (pubkey-new, pubkey-new_readonly);
        listed =
            simp (is_signer-new, is_signer-new_readonly, is_writable-new, is_writable-new_readonly);
      }

  -- `swap_base_out` builds an instruction for the pool program that decodes to its two amounts, for
  -- amounts in range, and lists the keys it was given in order, with the roles that the doc comment
  -- of the instruction gives, the optional target orders account left out.
  pub swap_base_out-Describes :
      (amm_program amm_pool amm_authority amm_open_orders amm_coin_vault amm_pc_vault market_program
        market market_bids market_asks market_event_queue market_coin_vault market_pc_vault
        market_vault_signer user_token_source user_token_destination user_source_owner : Pubkey)
      (max_amount_in amount_out : ℕ)
      → IsU64 max_amount_in
      → IsU64 amount_out
      → Describes sdk
          (swap_base_out sdk amm_program amm_pool amm_authority amm_open_orders amm_coin_vault
            amm_pc_vault market_program market market_bids market_asks market_event_queue
            market_coin_vault market_pc_vault market_vault_signer user_token_source
            user_token_destination user_source_owner max_amount_in amount_out)
          amm_program
          (AmmInstruction.swap_base_out
            (record { max_amount_in = max_amount_in; amount_out = amount_out }))
          (spl_token_id ∷ amm_pool ∷ amm_authority ∷ amm_open_orders ∷ amm_coin_vault ∷ amm_pc_vault
            ∷ market_program ∷ market ∷ market_bids ∷ market_asks ∷ market_event_queue
            ∷ market_coin_vault ∷ market_pc_vault ∷ market_vault_signer ∷ user_token_source
            ∷ user_token_destination ∷ user_source_owner ∷ [])
          documented_swap
  unfolding swap_base_out pack
  swap_base_out-Describes amm_program amm_pool amm_authority amm_open_orders amm_coin_vault
        amm_pc_vault market_program market market_bids market_asks market_event_queue
        market_coin_vault market_pc_vault market_vault_signer user_token_source
        user_token_destination user_source_owner max_amount_in amount_out h0 h1 =
      record {
        instruction = _;
        succeeds = refl;
        calls = refl;
        decodes = unpack-pack_bytes _ (h0, h1);
        keyed = simp (pubkey-new, pubkey-new_readonly);
        listed =
            simp (is_signer-new, is_signer-new_readonly, is_writable-new, is_writable-new_readonly);
      }
