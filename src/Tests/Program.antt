-- ===== src/Tests/Program.antt =====
-- A history of the entry points of programs/pump-raydium/src/lib.rs.
use pumpfun_solana_smart_con.Base.{
  ◌+◌, ◌≤◌, ◌≡◌, ◌≢◌, refl, true, none, some, List, [], ◌∷◌, All, arith,
}
use pumpfun_solana_smart_con.Rust.{ok}
use pumpfun_solana_smart_con.Rust.Signed.{as_i64, as_u64, i64_sub, is_positive}
use pumpfun_solana_smart_con.Curve.{Pubkey}
use pumpfun_solana_smart_con.Config.{contains, validate, unsigned_ord}
use pumpfun_solana_smart_con.Svm.{World, swapped, update}
use pumpfun_solana_smart_con.Svm.Laws.{Sealed}
use pumpfun_solana_smart_con.Utils.{sol_transfer_from_user, sol_transfer_with_signer}
use pumpfun_solana_smart_con.Instructions.Configure
use pumpfun_solana_smart_con.Instructions.Configure.{
  check_authority, create_config, top_up, write_config, fund_vault,
}
use pumpfun_solana_smart_con.Instructions.Create
use pumpfun_solana_smart_con.Instructions.Create.{
  decimal_power, check_params, launch_curve, issue_token,
}
use pumpfun_solana_smart_con.Instructions.Swap
use pumpfun_solana_smart_con.Instructions.Swap.Drain.{swap_event}
use pumpfun_solana_smart_con.Accounts.{configure_accounts, create_accounts, swap_accounts}
use pumpfun_solana_smart_con.Program.{
  Chain, Request, configure, create_bonding_curve, swap, migrate, global_config, execute, Runs,
  done, executed, others,
}
use pumpfun_solana_smart_con.Program.Laws.{IsSigned}
use pumpfun_solana_smart_con.Program.Curves.{Opened}
use pumpfun_solana_smart_con.Program.Frozen.{curves_frozen, curves_Opened, migrate_never}
use pumpfun_solana_smart_con.Program.Vault.{swap_request_drains}
use pumpfun_solana_smart_con.Program.Swaps.{Swaps, swap_request_iff}
use pumpfun_solana_smart_con.Program.Supply.{Lawful, supply_capped}
use pumpfun_solana_smart_con.Program.Launches.{Launches, launch_request_iff}
use pumpfun_solana_smart_con.Program.Truth.{Truthful, log-Truthful}
use pumpfun_solana_smart_con.Program.Log.{Logged, listing, replay, replay-curves}
use pumpfun_solana_smart_con.Tests.Machine.{
  machine, move, machine-TransferLaws, machine-TokenLaws, machine-MintLaws, machine-EventLaws,
}
use pumpfun_solana_smart_con.Tests.Addresses.{book, loader, book-AddressLaws, loader-LoaderLaws}
use pumpfun_solana_smart_con.Tests.Data.{
  admin, migration, creation, trade, settings, start, configured, launched, issued_from,
}

-- A wallet and the key of a mint sign.
abbrev pub wallet : List Pubkey
wallet = 10 ∷ 13 ∷ []

pub wallet-IsSigned : IsSigned book wallet
unfolding contains
wallet-IsSigned k h = ground arith

-- The program before its first configuration, and after it.
abbrev pub empty : Chain
empty = record { world = start; curves = λ _. none }

abbrev pub blank : Chain
blank = record { world = configured; curves = λ _. none }

pub configure_run : execute book machine loader wallet (configure admin settings) empty ≡ ok blank
unfolding execute contains configure_accounts Configure.handler check_authority create_config top_up
    write_config fund_vault as_i64 as_u64 i64_sub is_positive sol_transfer_from_user
configure_run = refl

-- What the generated code makes of the machine before a launch.
abbrev prepared : World
prepared = record configured {
  supply = update configured.supply 13 0;
  mint_authority = update configured.mint_authority 13 (some 11);
}

abbrev created : Chain
created = record { world = issued_from prepared; curves = update blank.curves 1026 (some launched) }

abbrev launch_request : Request
launch_request = create_bonding_curve creation 6 1_000_000_000_000_000 2_000 "Coin" "CN" "uri"

launch_run : execute book machine loader wallet launch_request blank ≡ ok created
unfolding execute global_config contains create_accounts Create.handler decimal_power check_params
    launch_curve issue_token validate
launch_run = refl

-- Somebody's own tokens move before the swap.
abbrev between : World
between = record created.world { token_amount = λ _. 0 }

abbrev traded : Chain
traded = record {
  world = record between {
    lamports = move between.lamports 11 10 5_000_000_000;
    events = swapped (swap_event machine trade launched 9 0 0 5_000_000_000) ∷ created.world.events;
  };
  curves = update created.curves 1026 (some launched);
}

swap_run :
    execute book machine loader wallet (swap trade 9 0 0) (record created { world = between })
    ≡ ok traded
unfolding execute global_config contains swap_accounts Swap.handler Swap.swap
    sol_transfer_with_signer
swap_run = refl

trading : Runs book machine loader created traded
trading = others between tt (executed wallet (swap trade 9 0 0) swap_run done)

history : Runs book machine loader blank traded
history = executed wallet launch_request launch_run trading

curves_frozen_example : traded.curves 1026 ≡ some launched
curves_frozen_example = curves_frozen book machine loader 1026 launched trading refl

curves_Opened_example : Opened book machine 1026 launched
curves_Opened_example = curves_Opened book machine loader history (λ k. refl) 1026 launched refl

migrate_never_example : execute book machine loader wallet (migrate migration 0) traded ≢ ok traded
migrate_never_example =
    migrate_never book machine loader history (λ k. refl) wallet migration 0 traded

swap_request_drains_example :
    (traded.world.lamports 11 ≡ 0)
    × (traded.world.lamports 10 ≡ between.lamports 10 + between.lamports 11)
    × (traded.curves ≡ created.curves)
    × (traded.world.token_amount ≡ between.token_amount)
    × (traded.world.supply ≡ between.supply)
swap_request_drains_example =
    swap_request_drains book machine loader wallet trade 9 0 0 (record created { world = between })
      machine-TransferLaws book-AddressLaws wallet-IsSigned swap_run

trade_valid : swap_accounts book 77 wallet trade ≡ true
unfolding swap_accounts contains
trade_valid = refl

abbrev paid : World
paid = record between { lamports = move between.lamports 11 10 5_000_000_000 }

abbrev emptied : Chain
emptied = record {
  world = record paid {
    events = swapped (swap_event machine trade launched 3 1 8 5_000_000_000) ∷ paid.events;
  };
  curves = update created.curves 1026 (some launched);
}

small_trade :
    Swaps book machine loader wallet trade 3 1 8 (record created { world = between }) emptied
small_trade = record {
  valid = trade_valid;
  config = settings;
  loaded = refl;
  ours = refl;
  curve = launched;
  there = refl;
  positive = omega arith;
  after = paid;
  sent = refl;
  result = refl;
}

swap_request_iff_example :
    execute book machine loader wallet (swap trade 3 1 8) (record created { world = between })
    ≡ ok emptied
swap_request_iff_example =
    (swap_request_iff book machine loader wallet trade 3 1 8 (record created { world = between })
        emptied).1
      small_trade

-- The same history where the others burn tokens.
abbrev burnt : World
burnt = record created.world { supply = λ _. 0; token_amount = λ _. 0 }

burning : Sealed created.world burnt
burning k h = (h, ground arith)

lawful : Lawful book machine loader blank (record created { world = burnt })
lawful = executed wallet launch_request launch_run (others burnt burning done)

supply_capped_example : (burnt.mint_authority 13 ≡ none) × (burnt.supply 13 ≤ 1_000_000_000_000_000)
supply_capped_example =
    supply_capped book machine loader machine-TokenLaws machine-MintLaws loader-LoaderLaws lawful
      (λ k. refl) 1026 launched refl

logged : Logged book machine loader blank traded
logged =
    executed wallet launch_request launch_run
      (others between refl (executed wallet (swap trade 9 0 0) swap_run done))

replay-curves_example : replay traded.world.events 1026 ≡ some (listing launched)
replay-curves_example =
    replay-curves book machine loader machine-EventLaws loader-LoaderLaws logged refl (λ k. refl)
      1026

-- The same history where the others pay tokens to the vault.
abbrev gifted : World
gifted = record created.world {
  token_amount = update created.world.token_amount 23_027 1_000_000_000_000_007;
}

log-Truthful_example : All (Truthful traded.curves) traded.world.events
log-Truthful_example =
    log-Truthful book machine loader book-AddressLaws machine-EventLaws loader-LoaderLaws logged
      refl (λ k. refl)

launch_request_iff_example :
    Launches book machine loader wallet creation 6 1_000_000_000_000_000 2_000 "Coin" "CN" "uri"
      blank created
launch_request_iff_example =
    (launch_request_iff book machine loader wallet creation 6 1_000_000_000_000_000 2_000 "Coin"
        "CN" "uri" blank created).0
      launch_run
