-- ===== src/Tests/Governed.antt =====
-- The configuration in histories of the entry points of programs/pump-raydium/src/lib.rs where
-- its authority signs nothing.
use pumpfun_solana_smart_con.Base.{◌≡◌, refl, some, List, [], ◌∷◌}
use pumpfun_solana_smart_con.Rust.{ok}
use pumpfun_solana_smart_con.Curve.{Pubkey}
use pumpfun_solana_smart_con.Config.{contains, validate, unsigned_ord}
use pumpfun_solana_smart_con.Svm.{World, launch, update}
use pumpfun_solana_smart_con.Svm.Laws.{Owned}
use pumpfun_solana_smart_con.Instructions.Create
use pumpfun_solana_smart_con.Instructions.Create.{
  CreateBondingCurve, decimal_power, check_params, launch_curve, issue_token,
}
use pumpfun_solana_smart_con.Instructions.Create.Params.{Acceptable}
use pumpfun_solana_smart_con.Instructions.Create.Launch.{launch_event, opened_curve}
use pumpfun_solana_smart_con.Accounts.{create_accounts}
use pumpfun_solana_smart_con.Program.{
  Chain, Request, create_bonding_curve, global_config, execute, done, executed, others,
}
use pumpfun_solana_smart_con.Program.Governed.{Stored, Respectful, Unsigned, configuration_governed}
use pumpfun_solana_smart_con.Program.Settings.{configure_then_launch}
use pumpfun_solana_smart_con.Tests.Machine.{
  machine, machine-TransferLaws, machine-AccountLaws, machine-CodecLaws, machine-OwnerLaws,
}
use pumpfun_solana_smart_con.Tests.Addresses.{book, loader, loader-LoaderLaws}
use pumpfun_solana_smart_con.Tests.Data.{admin, creation, settings, configured, issued_from}
use pumpfun_solana_smart_con.Tests.Program.{wallet, empty, blank, configure_run}

abbrev stranger : List Pubkey
stranger = 14 ∷ 13 ∷ []

abbrev creation2 : CreateBondingCurve
creation2 = record creation { creator = 14 }

-- The stranger gets lamports from somebody.
abbrev paid : World
paid = record configured { lamports = update configured.lamports 14 9_000_000 }

paid-Owned : Owned 77 configured paid
paid-Owned k own = (own, refl)

abbrev prepared : World
prepared = record paid {
  supply = update paid.supply 13 0;
  mint_authority = update paid.mint_authority 13 (some 11);
}

abbrev created : Chain
created = record {
  world = record (issued_from prepared) {
    events = launch (launch_event creation2 settings 6 1_000_000_000_000_000 2_000) ∷ [];
  };
  curves =
      update blank.curves 1026 (some (opened_curve creation2 settings 1_000_000_000_000_000 2_000));
}

abbrev launch_request : Request
launch_request = create_bonding_curve creation2 6 1_000_000_000_000_000 2_000 "Coin" "CN" "uri"

launch_run :
    execute book machine loader stranger launch_request (record blank { world = paid }) ≡ ok created
unfolding execute global_config contains create_accounts Create.handler decimal_power check_params
    launch_curve issue_token validate
launch_run = refl

settings-Stored : Stored book machine settings configured
settings-Stored = record { owned = refl; head = refl; decoded = refl }

abbrev history : Respectful book machine loader blank created
history = others paid paid-Owned (executed stranger launch_request launch_run done)

history-Unsigned : Unsigned book machine loader 10 history
unfolding Unsigned contains
history-Unsigned = (refl, tt)

configuration_governed_example : Stored book machine settings created.world
configuration_governed_example =
    configuration_governed book machine loader machine-OwnerLaws loader-LoaderLaws settings history
      history-Unsigned settings-Stored

abbrev before_launch : Respectful book machine loader blank (record blank { world = paid })
before_launch = others paid paid-Owned done

before_launch-Unsigned : Unsigned book machine loader 10 before_launch
unfolding Unsigned
before_launch-Unsigned = tt

configure_then_launch_example :
    Acceptable settings 6 1_000_000_000_000_000 2_000
    × (created.curves 1026 ≡ some (opened_curve creation2 settings 1_000_000_000_000_000 2_000))
configure_then_launch_example =
    configure_then_launch book machine loader machine-TransferLaws machine-AccountLaws
      machine-OwnerLaws machine-CodecLaws loader-LoaderLaws wallet stranger admin settings creation2
      6 1_000_000_000_000_000 2_000 "Coin" "CN" "uri" empty blank (record blank { world = paid })
      created configure_run before_launch before_launch-Unsigned launch_run
