-- ===== src/Tests/Packing.antt =====
-- The packing of programs/pump-raydium/src/amm_instruction.rs at concrete bytes.
use pumpfun_solana_smart_con.Base.{ℕ, ◌≡◌, refl, List, [], ◌∷◌, ◌++◌, arith}
use pumpfun_solana_smart_con.Rust.{ok}
use pumpfun_solana_smart_con.Amm.{AmmInstruction, swap_base_in}
use pumpfun_solana_smart_con.Amm.Bytes.{le_bytes, from_le_bytes, unpack_bytes, unpack_u64}
use pumpfun_solana_smart_con.Amm.Codec.{unpack, pack_bytes, unpack_swap_base_in}
use pumpfun_solana_smart_con.Amm.RoundTrip.{IsPackable, unpack-pack, pack-unpack}
use pumpfun_solana_smart_con.Amm.Accepts.{accepts, is_ok, is_ok-unpack}

abbrev exchange : AmmInstruction
exchange = swap_base_in (record { amount_in = 258; minimum_amount_out = 7 })

abbrev bytes : List ℕ
bytes = 9 ∷ 2 ∷ 1 ∷ 0 ∷ 0 ∷ 0 ∷ 0 ∷ 0 ∷ 0 ∷ 7 ∷ 0 ∷ 0 ∷ 0 ∷ 0 ∷ 0 ∷ 0 ∷ 0 ∷ []

bytes_of_exchange : pack_bytes exchange ≡ bytes
unfolding pack_bytes le_bytes
bytes_of_exchange = refl

exchange_read : unpack bytes ≡ ok exchange
unfolding unpack unpack_swap_base_in unpack_u64 unpack_bytes from_le_bytes
exchange_read = refl

unpack-pack_example : unpack (pack_bytes exchange ++ (1 ∷ [])) ≡ ok exchange
unpack-pack_example = unpack-pack exchange (1 ∷ []) (ground arith)

pack-unpack_example :
    IsPackable exchange × ((rest : List ℕ) × (pack_bytes exchange ++ rest ≡ bytes))
pack-unpack_example = pack-unpack bytes (ground arith) exchange_read

is_ok-unpack_example : is_ok (unpack bytes) ≡ accepts bytes
is_ok-unpack_example = is_ok-unpack bytes
