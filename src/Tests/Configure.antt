-- ===== src/Tests/Configure.antt =====
-- Runs of `Configure::handler`, of programs/pump-raydium/src/instructions/admin/configure.rs.
use pumpfun_solana_smart_con.Base.{
  ◌+◌, ◌-◌, inl, inr, length, ◌≡◌, refl, [], ◌∷◌, drop, take, arith,
}
use pumpfun_solana_smart_con.Rust.{ok, err}
use pumpfun_solana_smart_con.Rust.Signed.{as_i64, as_u64, i64_sub, is_positive}
use pumpfun_solana_smart_con.Errors.{panic}
use pumpfun_solana_smart_con.Config.{Config, enum}
use pumpfun_solana_smart_con.Svm.{World, update}
use pumpfun_solana_smart_con.Utils.{sol_transfer_from_user}
use pumpfun_solana_smart_con.Instructions.Configure.{
  check_authority, create_config, top_up, write_config, fund_vault, handler,
}
use pumpfun_solana_smart_con.Instructions.Configure.Steps.{Authorised, written}
use pumpfun_solana_smart_con.Instructions.Configure.Effect.{serialized}
use pumpfun_solana_smart_con.Instructions.Configure.Outcome.{
  configure_authorised, configure_stores, configure_handover,
}
use pumpfun_solana_smart_con.Instructions.Configure.Rent.{configure_grow_panics, configure_first}
use pumpfun_solana_smart_con.Instructions.Configure.Again.{Reconfigures, configure_again_iff}
use pumpfun_solana_smart_con.Tests.Codec.{encode, decode}
use pumpfun_solana_smart_con.Tests.Machine.{
  machine, move, resize, machine-TransferLaws, machine-AccountLaws, machine-CodecLaws,
}
use pumpfun_solana_smart_con.Tests.Data.{admin, settings, start, configured}

-- The first configuration, by anybody.
first_run : handler machine admin settings 255 start ≡ ok (tt, configured)
unfolding handler check_authority create_config top_up write_config fund_vault as_i64 as_u64 i64_sub
    is_positive sol_transfer_from_user
first_run = refl

-- A change by the authority.
abbrev changed : Config
changed = record settings { curve_limit = 5 }

abbrev reconfigured : World
reconfigured = record configured {
  account_data = update configured.account_data 12 (serialized machine admin (encode changed));
}

second_run : handler machine admin changed 255 configured ≡ ok (tt, reconfigured)
unfolding handler check_authority create_config top_up write_config fund_vault as_i64 as_u64 i64_sub
    is_positive sol_transfer_from_user
second_run = refl

configure_authorised_example : Authorised machine admin configured
configure_authorised_example =
    configure_authorised machine admin changed 255 configured refl second_run

configure_stores_example :
    (configured.owner 12 ≡ 77)
    × (take 8 (configured.account_data 12) ≡ machine.discriminator)
    × (decode (drop 8 (configured.account_data 12)) ≡ ok settings)
configure_stores_example =
    configure_stores machine admin machine-TransferLaws machine-AccountLaws machine-CodecLaws
      settings 255 start first_run

-- One more option for the decimals, and an account that is rich enough for it.
abbrev grown : Config
grown = record settings { token_decimals_config = enum (6 ∷ 8 ∷ 9 ∷ []) }

abbrev rich : World
rich = record configured { lamports = λ _. 5_000_000 }

rich_Authorised : Authorised machine admin rich
rich_Authorised = record {
  discriminated = refl;
  stored = settings;
  decoded = refl;
  authority = refl;
}

configure_grow_panics_example : handler machine admin grown 255 rich ≡ err panic
configure_grow_panics_example =
    configure_grow_panics machine admin grown 255 (encode grown) rich refl rich_Authorised refl
      (ground arith) (ground arith) (ground arith)

-- The same where the account has no lamports to spare: it is paid for, resized and written.
abbrev resized : World
resized = record configured {
  lamports =
      move configured.lamports 10 12
        (machine.minimum_balance (8 + length (encode grown)) - 1_141_440);
  account_data =
      update configured.account_data 12
        (resize (8 + length (encode grown)) (configured.account_data 12));
}

abbrev regrown : World
regrown = written machine admin resized (serialized machine admin (encode grown))

configured_Authorised : Authorised machine admin configured
configured_Authorised = record {
  discriminated = refl;
  stored = settings;
  decoded = refl;
  authority = refl;
}

grown-Reconfigures :
    Reconfigures machine admin (serialized machine admin (encode grown)) configured regrown
grown-Reconfigures = record {
  authorised = configured_Authorised;
  rented = resized;
  topped = inr (ground arith, (record configured { lamports = resized.lamports }, refl, refl));
  fits = ground arith;
  funded = inl (ground arith, refl);
}

configure_again_iff_example : handler machine admin grown 255 configured ≡ ok (tt, regrown)
configure_again_iff_example =
    (configure_again_iff machine admin grown 255 (encode grown) configured regrown refl refl
        (ground arith) (ground arith)).1
      grown-Reconfigures

-- What the first run's account creation leaves.
abbrev opened : World
opened = record start {
  lamports = update (update start.lamports 10 99_998_858_560) 12 1_141_440;
  owner = update start.owner 12 77;
  account_data = update start.account_data 12 (resize 36 []);
}

configure_first_example : handler machine admin settings 255 start ≡ ok (tt, configured)
configure_first_example =
    configure_first machine admin machine-AccountLaws settings 255 (encode settings) start opened
      (ground arith) refl refl (ground arith) (ground arith)

configure_handover_example : 10 ≡ settings.authority
configure_handover_example =
    configure_handover machine machine-TransferLaws machine-AccountLaws machine-CodecLaws admin
      admin settings changed 255 start refl first_run second_run
