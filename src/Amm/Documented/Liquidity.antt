-- ===== src/Amm/Documented/Liquidity.antt =====
-- `initialize2`, `deposit` and `withdraw` against their doc comments.
use pumpfun_solana_smart_con.Base.{ℕ, ◌≡◌, refl, Option, none, some, List, [], ◌∷◌, ◌++◌}
use pumpfun_solana_smart_con.Rust.{IsU8, IsU64}
use pumpfun_solana_smart_con.Curve.{Pubkey}
use pumpfun_solana_smart_con.Amm.{AmmInstruction}
use pumpfun_solana_smart_con.Amm.Sdk.{Sdk}
use pumpfun_solana_smart_con.Amm.Codec.{pack}
use pumpfun_solana_smart_con.Amm.Documented.{
  Role, readonly, writable, writable_signer, Describes, unpack-pack_bytes,
}
use pumpfun_solana_smart_con.Amm.Documented.Tables.{
  documented_initialize2, documented_deposit, documented_withdraw, differences,
}
use pumpfun_solana_smart_con.Amm.Liquidity.{initialize2, deposit, withdraw, push_referrer}

-- The roles that `initialize2` gives its accounts.
abbrev pub initialize2_roles : List Role
initialize2_roles =
    readonly ∷ readonly ∷ readonly ∷ readonly ∷ writable ∷ readonly ∷ writable ∷ writable ∷ readonly
    ∷ readonly ∷ writable ∷ writable ∷ writable ∷ readonly ∷ writable ∷ readonly ∷ readonly
    ∷ writable_signer ∷ writable ∷ writable ∷ writable ∷ []

-- The keys of a `withdraw` and their roles, with the referrer's account last if there is one.
abbrev pub with_referrer {ℓ} : {A B : Type ℓ} → Option A → (A → B) → List B → List B
with_referrer none f xs = xs
with_referrer (some k) f xs = xs ++ (f k ∷ [])

module _ (sdk : Sdk) where
  open sdk use {
    spl_token_id, spl_associated_token_account_id, system_program_id, rent_id, pubkey-new,
    pubkey-new_readonly, is_signer-new, is_signer-new_readonly, is_writable-new,
    is_writable-new_readonly,
  }

  -- `deposit` builds an instruction for the pool program that decodes to the three amounts, for
  -- amounts in range, and lists its accounts in the order and with the roles that the doc comment
  -- gives.
  pub deposit-Describes :
      (amm_program amm_pool amm_authority amm_open_orders amm_target_orders amm_lp_mint
        amm_coin_vault amm_pc_vault market market_event_queue user_token_coin user_token_pc
        user_token_lp user_owner : Pubkey)
      (max_coin_amount max_pc_amount base_side : ℕ)
      → IsU64 max_coin_amount
      → IsU64 max_pc_amount
      → IsU64 base_side
      → Describes sdk
          (deposit sdk amm_program amm_pool amm_authority amm_open_orders amm_target_orders
            amm_lp_mint amm_coin_vault amm_pc_vault market market_event_queue user_token_coin
            user_token_pc user_token_lp user_owner max_coin_amount max_pc_amount base_side)
          amm_program
          (AmmInstruction.deposit (record {
            max_coin_amount = max_coin_amount;
            max_pc_amount = max_pc_amount;
            base_side = base_side;
          }))
          (spl_token_id ∷ amm_pool ∷ amm_authority ∷ amm_open_orders ∷ amm_target_orders
            ∷ amm_lp_mint ∷ amm_coin_vault ∷ amm_pc_vault ∷ market ∷ user_token_coin ∷ user_token_pc
            ∷ user_token_lp ∷ user_owner ∷ market_event_queue ∷ [])
          documented_deposit
  unfolding deposit pack
  deposit-Describes amm_program amm_pool amm_authority amm_open_orders amm_target_orders amm_lp_mint
        amm_coin_vault amm_pc_vault market market_event_queue user_token_coin user_token_pc
        user_token_lp user_owner max_coin_amount max_pc_amount base_side h0 h1 h2 =
      record {
        instruction = _;
        succeeds = refl;
        calls = refl;
        decodes = unpack-pack_bytes _ (h0, h1, h2);
        keyed = simp (pubkey-new, pubkey-new_readonly);
        listed =
            simp (is_signer-new, is_signer-new_readonly, is_writable-new, is_writable-new_readonly);
      }

  -- `initialize2` builds an instruction for the pool program that decodes to the nonce and the
  -- three amounts, for values in range, and lists its 21 accounts in the documented order. The
  -- roles are those of the doc comment except at four positions: it passes the fee destination (14)
  -- and the user's coin and pc accounts (18, 19) writable and the market (16) read-only, where the
  -- comment says the opposite.
  pub initialize2-Describes :
      (amm_program amm_pool amm_authority amm_open_orders amm_lp_mint amm_coin_mint amm_pc_mint
        amm_coin_vault amm_pc_vault amm_target_orders amm_config create_fee_destination
        market_program market user_wallet user_token_coin user_token_pc user_token_lp : Pubkey)
      (nonce open_time init_pc_amount init_coin_amount : ℕ)
      → IsU8 nonce
      → IsU64 open_time
      → IsU64 init_pc_amount
      → IsU64 init_coin_amount
      → (Describes sdk
          (initialize2 sdk amm_program amm_pool amm_authority amm_open_orders amm_lp_mint
            amm_coin_mint amm_pc_mint amm_coin_vault amm_pc_vault amm_target_orders amm_config
            create_fee_destination market_program market user_wallet user_token_coin user_token_pc
            user_token_lp nonce open_time init_pc_amount init_coin_amount)
          amm_program
          (AmmInstruction.initialize2 (record {
            nonce = nonce;
            open_time = open_time;
            init_pc_amount = init_pc_amount;
            init_coin_amount = init_coin_amount;
          }))
          (spl_token_id ∷ spl_associated_token_account_id ∷ system_program_id ∷ rent_id ∷ amm_pool
            ∷ amm_authority ∷ amm_open_orders ∷ amm_lp_mint ∷ amm_coin_mint ∷ amm_pc_mint
            ∷ amm_coin_vault ∷ amm_pc_vault ∷ amm_target_orders ∷ amm_config
            ∷ create_fee_destination ∷ market_program ∷ market ∷ user_wallet ∷ user_token_coin
            ∷ user_token_pc ∷ user_token_lp ∷ [])
          initialize2_roles)
        × (differences 0 initialize2_roles documented_initialize2 ≡ 14 ∷ 16 ∷ 18 ∷ 19 ∷ [])
  unfolding initialize2 pack
  initialize2-Describes amm_program amm_pool amm_authority amm_open_orders amm_lp_mint amm_coin_mint
        amm_pc_mint amm_coin_vault amm_pc_vault amm_target_orders amm_config create_fee_destination
        market_program market user_wallet user_token_coin user_token_pc user_token_lp nonce
        open_time init_pc_amount init_coin_amount h0 h1 h2 h3 =
      (
        record {
          instruction = _;
          succeeds = refl;
          calls = refl;
          decodes = unpack-pack_bytes _ (h0, h1, h2, h3);
          keyed = simp (pubkey-new, pubkey-new_readonly);
          listed =
              simp
                (is_signer-new, is_signer-new_readonly, is_writable-new, is_writable-new_readonly);
        },
        refl,
      )

  -- `withdraw` builds an instruction for the pool program that decodes to the amount, for an amount
  -- in range, and lists its 20 accounts in the order and with the roles that the doc comment gives,
  -- followed by the referrer's account, writable, exactly when there is a referrer.
  pub withdraw-Describes :
      (amm_program amm_pool amm_authority amm_open_orders amm_target_orders amm_lp_mint
        amm_coin_vault amm_pc_vault market_program market market_coin_vault market_pc_vault
        market_vault_signer user_token_lp user_token_coin user_token_pc user_owner
        market_event_queue market_bids market_asks : Pubkey)
      (referrer_pc_account : Option Pubkey) (amount : ℕ)
      → IsU64 amount
      → Describes sdk
          (withdraw sdk amm_program amm_pool amm_authority amm_open_orders amm_target_orders
            amm_lp_mint amm_coin_vault amm_pc_vault market_program market market_coin_vault
            market_pc_vault market_vault_signer user_token_lp user_token_coin user_token_pc
            user_owner market_event_queue market_bids market_asks referrer_pc_account amount)
          amm_program
          (AmmInstruction.withdraw (record { amount = amount }))
          (with_referrer referrer_pc_account
            (λ k. k)
            (spl_token_id ∷ amm_pool ∷ amm_authority ∷ amm_open_orders ∷ amm_target_orders
              ∷ amm_lp_mint ∷ amm_coin_vault ∷ amm_pc_vault ∷ market_program ∷ market
              ∷ market_coin_vault ∷ market_pc_vault ∷ market_vault_signer ∷ user_token_lp
              ∷ user_token_coin ∷ user_token_pc ∷ user_owner ∷ market_event_queue ∷ market_bids
              ∷ market_asks ∷ []))
          (with_referrer referrer_pc_account (λ _. writable) documented_withdraw)
  unfolding withdraw pack push_referrer
  withdraw-Describes amm_program amm_pool amm_authority amm_open_orders amm_target_orders
        amm_lp_mint amm_coin_vault amm_pc_vault market_program market market_coin_vault
        market_pc_vault market_vault_signer user_token_lp user_token_coin user_token_pc user_owner
        market_event_queue market_bids market_asks none amount h0 =
      record {
        instruction = _;
        succeeds = refl;
        calls = refl;
        decodes = unpack-pack_bytes _ h0;
        keyed = simp (pubkey-new, pubkey-new_readonly);
        listed =
            simp (is_signer-new, is_signer-new_readonly, is_writable-new, is_writable-new_readonly);
      }
  withdraw-Describes amm_program amm_pool amm_authority amm_open_orders amm_target_orders
        amm_lp_mint amm_coin_vault amm_pc_vault market_program market market_coin_vault
        market_pc_vault market_vault_signer user_token_lp user_token_coin user_token_pc user_owner
        market_event_queue market_bids market_asks (some k) amount h0 =
      record {
        instruction = _;
        succeeds = refl;
        calls = refl;
        decodes = unpack-pack_bytes _ h0;
        keyed = simp (pubkey-new, pubkey-new_readonly);
        listed =
            simp (is_signer-new, is_signer-new_readonly, is_writable-new, is_writable-new_readonly);
      }
