-- ===== src/Tests/Builders.antt =====
-- The instruction builders of programs/pump-raydium/src/amm_instruction.rs at concrete accounts.
use pumpfun_solana_smart_con.Base.{ℕ, ◌≡◌, refl, Bool, true, false, some, [], ◌∷◌, arith}
use pumpfun_solana_smart_con.Curve.{Pubkey}
use pumpfun_solana_smart_con.Amm.{AmmInstruction}
use pumpfun_solana_smart_con.Amm.Sdk.{Sdk}
use pumpfun_solana_smart_con.Amm.Documented.{writable, Describes}
use pumpfun_solana_smart_con.Amm.Documented.Tables.{
  documented_initialize2, documented_deposit, documented_withdraw, documented_swap, differences,
}
use pumpfun_solana_smart_con.Amm.Documented.Liquidity.{
  initialize2_roles, with_referrer, deposit-Describes, initialize2-Describes, withdraw-Describes,
}
use pumpfun_solana_smart_con.Amm.Documented.Swaps.{swap_base_in-Describes, swap_base_out-Describes}
use pumpfun_solana_smart_con.Amm.Liquidity.{initialize2, deposit, withdraw}
use pumpfun_solana_smart_con.Amm.Swaps.{swap_base_in, swap_base_out}

-- An account meta as a record.
record Meta : Type 0 where
  key : Pubkey
  signs : Bool
  writes : Bool

abbrev crate : Sdk
crate = record {
  AccountMeta = Meta;
  new = λ k s. record { key = k; signs = s; writes = true };
  new_readonly = λ k s. record { key = k; signs = s; writes = false };
  pubkey = λ m. m.key;
  is_signer = λ m. m.signs;
  is_writable = λ m. m.writes;
  spl_token_id = 1;
  spl_associated_token_account_id = 2;
  system_program_id = 3;
  rent_id = 4;
  pubkey-new = λ k s. refl;
  pubkey-new_readonly = λ k s. refl;
  is_signer-new = λ k s. refl;
  is_signer-new_readonly = λ k s. refl;
  is_writable-new = λ k s. refl;
  is_writable-new_readonly = λ k s. refl;
}

deposit-Describes_example :
    Describes crate
      (deposit crate 101 102 103 104 105 106 107 108 109 110 111 112 113 114 115 116 117)
      101
      (AmmInstruction.deposit
        (record { max_coin_amount = 115; max_pc_amount = 116; base_side = 117 }))
      (crate.spl_token_id ∷ 102 ∷ 103 ∷ 104 ∷ 105 ∷ 106 ∷ 107 ∷ 108 ∷ 109 ∷ 111 ∷ 112 ∷ 113 ∷ 114
        ∷ 110 ∷ [])
      documented_deposit
deposit-Describes_example =
    deposit-Describes crate 101 102 103 104 105 106 107 108 109 110 111 112 113 114 115 116 117
      (ground arith) (ground arith) (ground arith)

initialize2-Describes_example :
    (Describes crate
      (initialize2 crate 101 102 103 104 105 106 107 108 109 110 111 112 113 114 115 116 117 118 5
        120 121 122)
      101
      (AmmInstruction.initialize2
        (record { nonce = 5; open_time = 120; init_pc_amount = 121; init_coin_amount = 122 }))
      (crate.spl_token_id ∷ crate.spl_associated_token_account_id ∷ crate.system_program_id
        ∷ crate.rent_id ∷ 102 ∷ 103 ∷ 104 ∷ 105 ∷ 106 ∷ 107 ∷ 108 ∷ 109 ∷ 110 ∷ 111 ∷ 112 ∷ 113
        ∷ 114 ∷ 115 ∷ 116 ∷ 117 ∷ 118 ∷ [])
      initialize2_roles)
    × (differences 0 initialize2_roles documented_initialize2 ≡ 14 ∷ 16 ∷ 18 ∷ 19 ∷ [])
initialize2-Describes_example =
    initialize2-Describes crate 101 102 103 104 105 106 107 108 109 110 111 112 113 114 115 116 117
      118 5 120 121 122 (ground arith) (ground arith) (ground arith) (ground arith)

withdraw-Describes_example :
    Describes crate
      (withdraw crate 101 102 103 104 105 106 107 108 109 110 111 112 113 114 115 116 117 118 119
        120
        (some 120)
        122)
      101
      (AmmInstruction.withdraw (record { amount = 122 }))
      (with_referrer {A = ℕ}
        (some 120)
        (λ k. k)
        (crate.spl_token_id ∷ 102 ∷ 103 ∷ 104 ∷ 105 ∷ 106 ∷ 107 ∷ 108 ∷ 109 ∷ 110 ∷ 111 ∷ 112 ∷ 113
          ∷ 114 ∷ 115 ∷ 116 ∷ 117 ∷ 118 ∷ 119 ∷ 120 ∷ []))
      (with_referrer {A = ℕ} (some 120) (λ _. writable) documented_withdraw)
withdraw-Describes_example =
    withdraw-Describes crate 101 102 103 104 105 106 107 108 109 110 111 112 113 114 115 116 117 118
      119 120 (some 120) 122 (ground arith)

swap_base_in-Describes_example :
    Describes crate
      (swap_base_in crate 101 102 103 104 105 106 107 108 109 110 111 112 113 114 115 116 117 118
        119)
      101
      (AmmInstruction.swap_base_in (record { amount_in = 118; minimum_amount_out = 119 }))
      (crate.spl_token_id ∷ 102 ∷ 103 ∷ 104 ∷ 105 ∷ 106 ∷ 107 ∷ 108 ∷ 109 ∷ 110 ∷ 111 ∷ 112 ∷ 113
        ∷ 114 ∷ 115 ∷ 116 ∷ 117 ∷ [])
      documented_swap
swap_base_in-Describes_example =
    swap_base_in-Describes crate 101 102 103 104 105 106 107 108 109 110 111 112 113 114 115 116 117
      118 119 (ground arith) (ground arith)

swap_base_out-Describes_example :
    Describes crate
      (swap_base_out crate 101 102 103 104 105 106 107 108 109 110 111 112 113 114 115 116 117 118
        119)
      101
      (AmmInstruction.swap_base_out (record { max_amount_in = 118; amount_out = 119 }))
      (crate.spl_token_id ∷ 102 ∷ 103 ∷ 104 ∷ 105 ∷ 106 ∷ 107 ∷ 108 ∷ 109 ∷ 110 ∷ 111 ∷ 112 ∷ 113
        ∷ 114 ∷ 115 ∷ 116 ∷ 117 ∷ [])
      documented_swap
swap_base_out-Describes_example =
    swap_base_out-Describes crate 101 102 103 104 105 106 107 108 109 110 111 112 113 114 115 116
      117 118 119 (ground arith) (ground arith)
