-- ===== src/Constants.antt =====
-- The constants of programs/pump-raydium/src/constants.rs that are no floating-point numbers.
use pumpfun_solana_smart_con.Base.{ℕ}
use Prim.Native.String.{String}

abbrev pub config_seed : String
config_seed = "config"

abbrev pub global_seed : String
global_seed = "global"

abbrev pub bonding_curve_seed : String
bonding_curve_seed = "bonding_curve"

abbrev pub metadata_seed : String
metadata_seed = "metadata"

abbrev pub initial_virtual_token_reserves : ℕ
initial_virtual_token_reserves = 1_073_000_191_000_000

abbrev pub initial_virtual_sol_reserves : ℕ
initial_virtual_sol_reserves = 30_000_000_000

abbrev pub initial_real_token_reserves : ℕ
initial_real_token_reserves = 793_100_000_000_000
