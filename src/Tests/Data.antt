-- ===== src/Tests/Data.antt =====
-- The accounts and numbers of the examples.
use pumpfun_solana_smart_con.Base.{◌+◌, false, true, none, some, [], ◌∷◌, ◌==◌, if◌then◌else◌}
use pumpfun_solana_smart_con.Curve.{BondingCurve}
use pumpfun_solana_smart_con.Config.{Config, range, enum}
use pumpfun_solana_smart_con.Svm.{World, launch, update}
use pumpfun_solana_smart_con.Instructions.Configure.{Configure}
use pumpfun_solana_smart_con.Instructions.Configure.Effect.{serialized}
use pumpfun_solana_smart_con.Tests.Machine.{machine, resize}
use pumpfun_solana_smart_con.Tests.Codec.{encode}
use pumpfun_solana_smart_con.Instructions.Create.{CreateBondingCurve}
use pumpfun_solana_smart_con.Instructions.Create.Launch.{launch_event, opened_curve}
use pumpfun_solana_smart_con.Instructions.Swap.{Swap}
use pumpfun_solana_smart_con.Instructions.Migrate.{Migrate}

-- The keys: 10 a wallet, 11 the vault, 12 the configuration, 13 a mint, 1026 its
-- bonding curve, 20 the team's.
abbrev pub admin : Configure
admin = record {
  payer = 10;
  config = 12;
  global_vault = 11;
  global_wsol_account = 23_063;
  native_mint = 31;
  system_program = 32;
  token_program = 33;
  associated_token_program = 34;
}

abbrev pub creation : CreateBondingCurve
creation = record {
  global_config = 12;
  global_vault = 11;
  creator = 10;
  token = 13;
  bonding_curve = 1026;
  token_metadata_account = 2_000_013;
  global_token_account = 23_027;
  system_program = 32;
  rent = 35;
  token_program = 33;
  associated_token_program = 34;
  mpl_token_metadata_program = 36;
  team_wallet = 20;
}

abbrev pub trade : Swap
trade = record {
  global_config = 12;
  team_wallet = 20;
  bonding_curve = 1026;
  global_vault = 11;
  token_mint = 13;
  global_ata = 23_027;
  user_ata = 21_027;
  user = 10;
  system_program = 32;
  token_program = 33;
  associated_token_program = 34;
}

abbrev pub migration : Migrate
migration = record {
  team_wallet = 20;
  global_config = 12;
  bonding_curve = 1026;
  global_vault = 11;
  amm_program = 38;
  token_program = 33;
  associated_token_program = 34;
  system_program = 32;
  sysvar_rent = 39;
  amm = 3_000_019;
  amm_authority = 1_000_013;
  amm_open_orders = 3_000_026;
  lp_mint = 3_000_023;
  coin_mint = 13;
  pc_mint = 44;
  coin_vault = 3_000_026;
  pc_vault = 3_000_024;
  target_orders = 3_000_022;
  amm_config = 1_000_023;
  market_program = 49;
  market = 50;
  fee_destination = 51;
  payer = 10;
  global_token_account = 23_027;
  global_wsol_account = 23_089;
  global_lp_account = 6_023_047;
}

abbrev pub settings : Config
settings = record {
  authority = 10;
  migration_authority = 10;
  team_wallet = 20;
  migration_wallet = 21;
  init_bonding_curve = 0;
  platform_buy_fee = 0;
  platform_sell_fee = 0;
  platform_migration_fee = 0;
  curve_limit = 85_000_000_000;
  lamport_amount_config = range (some 1_000) none;
  token_supply_config = range (some 1) (some 2_000_000_000);
  token_decimals_config = enum (6 ∷ 9 ∷ []);
  initial_virtual_token_reserves_config = 1_073_000_000_000_000;
  initial_virtual_sol_reserves_config = 30_000_000_000;
  initial_real_token_reserves_config = 793_100_000_000_000;
  initial_raydium_token_reserves = 206_900_000_000_000;
  initial_raydium_sol_amount = 79_000_000_000;
  initialized = true;
}

abbrev pub zeros : BondingCurve
zeros = record {
  token_mint = 0;
  creator = 0;
  init_lamport = 0;
  token_total_supply = 0;
  virtual_sol_reserves = 0;
  virtual_token_reserves = 0;
  real_sol_reserves = 0;
  real_token_reserves = 0;
  is_completed = false;
}

abbrev pub start : World
start = record {
  lamports = λ k. if k == 10 then 100_000_000_000 else if k == 11 then 5_000_000_000 else 0;
  owner = λ _. 1;
  account_data = λ _. [];
  supply = λ _. 0;
  mint_authority = λ k. if k == 13 then some 11 else none;
  token_amount = λ _. 0;
  events = [];
}

-- The token of a billion units with six decimals.
abbrev pub launched : BondingCurve
launched = opened_curve creation settings 1_000_000_000_000_000 2_000

-- What a launch makes of a machine.
abbrev pub issued_from : World → World
issued_from w = record w {
  supply = update w.supply 13 (w.supply 13 + 1_000_000_000_000_000);
  token_amount = update (update w.token_amount 23_027 0) 23_027 1_000_000_000_000_000;
  mint_authority = update w.mint_authority 13 none;
  events = launch (launch_event creation settings 6 1_000_000_000_000_000 2_000) ∷ w.events;
}

abbrev pub issued : World
issued = issued_from start

-- The machine after the first configuration.
abbrev pub configured : World
configured = record start {
  lamports = update (update start.lamports 10 99_998_858_560) 12 1_141_440;
  owner = update start.owner 12 77;
  account_data =
      update (update start.account_data 12 (resize 36 [])) 12
        (serialized machine admin (encode settings));
}
