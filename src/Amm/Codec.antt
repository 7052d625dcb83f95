-- ===== src/Amm/Codec.antt =====
-- `AmmInstruction::unpack` and `AmmInstruction::pack` of
-- programs/pump-raydium/src/amm_instruction.rs. Bytes are numbers below 256.
use pumpfun_solana_smart_con.Base.{ℕ, List, [], ◌∷◌, ◌++◌, ◌==◌, if◌then◌else◌}
use pumpfun_solana_smart_con.Rust.{Result, ok, err}
use pumpfun_solana_smart_con.Amm.{
  AmmInstruction, initialize2, deposit, withdraw, swap_base_in, swap_base_out, ProgramError,
  invalid_instruction_data,
}
use pumpfun_solana_smart_con.Amm.Bytes.{◌>>=◌, to_le_bytes, unpack_u8, unpack_u64}

-- The arms of the match in `unpack`, each on the bytes after the tag.
unfoldable pub unpack_initialize2 : List ℕ → Result ProgramError AmmInstruction
unpack_initialize2 rest = do
  (nonce, rest1) ← unpack_u8 rest
  (open_time, rest2) ← unpack_u64 rest1
  (init_pc_amount, rest3) ← unpack_u64 rest2
  (init_coin_amount, _) ← unpack_u64 rest3
  ok (
      initialize2 (record {
        nonce = nonce;
        open_time = open_time;
        init_pc_amount = init_pc_amount;
        init_coin_amount = init_coin_amount;
      }))

unfoldable pub unpack_deposit : List ℕ → Result ProgramError AmmInstruction
unpack_deposit rest = do
  (max_coin_amount, rest1) ← unpack_u64 rest
  (max_pc_amount, rest2) ← unpack_u64 rest1
  (base_side, _) ← unpack_u64 rest2
  ok (
      deposit (record {
        max_coin_amount = max_coin_amount;
        max_pc_amount = max_pc_amount;
        base_side = base_side;
      }))

unfoldable pub unpack_withdraw : List ℕ → Result ProgramError AmmInstruction
unpack_withdraw rest = do (amount, _) ← unpack_u64 rest; ok (withdraw (record { amount = amount }))

unfoldable pub unpack_swap_base_in : List ℕ → Result ProgramError AmmInstruction
unpack_swap_base_in rest = do
  (amount_in, rest1) ← unpack_u64 rest
  (minimum_amount_out, _) ← unpack_u64 rest1
  ok (swap_base_in (record { amount_in = amount_in; minimum_amount_out = minimum_amount_out }))

unfoldable pub unpack_swap_base_out : List ℕ → Result ProgramError AmmInstruction
unpack_swap_base_out rest = do
  (max_amount_in, rest1) ← unpack_u64 rest
  (amount_out, _) ← unpack_u64 rest1
  ok (swap_base_out (record { max_amount_in = max_amount_in; amount_out = amount_out }))

unfoldable pub unpack : List ℕ → Result ProgramError AmmInstruction
unpack [] = err invalid_instruction_data
unpack (tag ∷ rest) =
    if tag == 1
    then unpack_initialize2 rest
    else if tag == 3
    then unpack_deposit rest
    else if tag == 4
    then unpack_withdraw rest
    else if tag == 9
    then unpack_swap_base_in rest
    else if tag == 11
    then unpack_swap_base_out rest
    else err invalid_instruction_data

-- What `pack` puts into the buffer; its `Ok` is added by `pack`.
unfoldable pub pack_bytes : AmmInstruction → List ℕ
pack_bytes (initialize2 i) =
    1
    ∷ i.nonce
    ∷ (to_le_bytes i.open_time ++ (to_le_bytes i.init_pc_amount ++ to_le_bytes i.init_coin_amount))
pack_bytes (deposit d) =
    3 ∷ (to_le_bytes d.max_coin_amount ++ (to_le_bytes d.max_pc_amount ++ to_le_bytes d.base_side))
pack_bytes (withdraw w) = 4 ∷ to_le_bytes w.amount
pack_bytes (swap_base_in s) = 9 ∷ (to_le_bytes s.amount_in ++ to_le_bytes s.minimum_amount_out)
pack_bytes (swap_base_out s) = 11 ∷ (to_le_bytes s.max_amount_in ++ to_le_bytes s.amount_out)
pack_bytes _ = []

unfoldable pub pack : AmmInstruction → Result ProgramError (List ℕ)
pack i = ok (pack_bytes i)
