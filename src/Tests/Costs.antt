-- ===== src/Tests/Costs.antt =====
-- A first configuration of programs/pump-raydium/src/lib.rs that also opens the wrapped SOL account.
use pumpfun_solana_smart_con.Base.{
  ◌-◌, ◌≤◌, ◌≡◌, ◌≢◌, refl, none, [], leb, ◌==◌, if◌then◌else◌, arith,
}
use pumpfun_solana_smart_con.Rust.{Result, ok, err}
use pumpfun_solana_smart_con.Rust.Signed.{as_i64, as_u64, i64_sub, is_positive}
use pumpfun_solana_smart_con.Errors.{Fault, foreign}
use pumpfun_solana_smart_con.Config.{contains, unsigned_ord}
use pumpfun_solana_smart_con.Svm.{World, update}
use pumpfun_solana_smart_con.Utils.{sol_transfer_from_user}
use pumpfun_solana_smart_con.Instructions.Configure
use pumpfun_solana_smart_con.Instructions.Configure.{
  Configure, check_authority, create_config, top_up, write_config, fund_vault,
}
use pumpfun_solana_smart_con.Instructions.Configure.Effect.{serialized}
use pumpfun_solana_smart_con.Accounts.{configure_accounts}
use pumpfun_solana_smart_con.Program.{Chain, Loader, configure, execute}
use pumpfun_solana_smart_con.Program.Laws.{WsolLaws}
use pumpfun_solana_smart_con.Program.Costs.{Costs, configure_request-Costs}
use pumpfun_solana_smart_con.Tests.Codec.{encode}
use pumpfun_solana_smart_con.Tests.Machine.{
  machine, move, resize, machine-TransferLaws, machine-AccountLaws,
}
use pumpfun_solana_smart_con.Tests.Addresses.{book, loader, book-AddressLaws}
use pumpfun_solana_smart_con.Tests.Data.{admin, settings, start}
use pumpfun_solana_smart_con.Tests.Program.{wallet, wallet-IsSigned}

-- The account is opened for its rent, unless the token program owns it.
abbrev open_wsol : Configure → World → Result Fault World
open_wsol self w =
    if w.owner self.global_wsol_account == 33
    then ok w
    else if leb 2_039_280 (w.lamports self.payer)
    then ok (record w {
      lamports = move w.lamports self.payer self.global_wsol_account 2_039_280;
      owner = update w.owner self.global_wsol_account 33;
      account_data = update w.account_data self.global_wsol_account (resize 165 []);
      token_amount = update w.token_amount self.global_wsol_account 0;
    })
    else err (foreign 1)

abbrev opening : Loader
opening = record loader { init_wsol = open_wsol }

opening-WsolLaws : WsolLaws opening
opening-WsolLaws = record {
  paid = λ self w e apart. (ground arith, ground arith);
  others = λ self k w e apart. (ground arith, ground arith, ground arith, λ other. ground arith);
  frame = λ self w e. ground arith;
}

-- A vault without lamports.
abbrev poor : Chain
poor = record { world = record start { lamports = update start.lamports 11 0 }; curves = λ k. none }

abbrev with_wsol : World
with_wsol = record poor.world {
  lamports = move poor.world.lamports 10 23_063 2_039_280;
  owner = update poor.world.owner 23_063 33;
  account_data = update poor.world.account_data 23_063 (resize 165 []);
  token_amount = update poor.world.token_amount 23_063 0;
}

abbrev paid_config : World
paid_config = record with_wsol {
  lamports = update (update with_wsol.lamports 10 (with_wsol.lamports 10 - 1_141_440)) 12 1_141_440;
  owner = update with_wsol.owner 12 77;
  account_data =
      update (update with_wsol.account_data 12 (resize 36 [])) 12
        (serialized machine admin (encode settings));
}

abbrev settled : Chain
settled = record {
  world = record paid_config { lamports = move paid_config.lamports 10 11 1_000_000 };
  curves = poor.curves;
}

configure_run : execute book machine opening wallet (configure admin settings) poor ≡ ok settled
unfolding execute contains configure_accounts Configure.handler check_authority create_config top_up
    write_config fund_vault as_i64 as_u64 i64_sub is_positive sol_transfer_from_user
configure_run = refl

configure_request-Costs_example :
    Costs admin poor.world settled.world
    × (1_141_440 ≤ settled.world.lamports 12)
    × (settled.world.lamports 11 ≢ 0)
    × (settled.curves ≡ poor.curves)
configure_request-Costs_example =
    configure_request-Costs book machine opening machine-TransferLaws machine-AccountLaws
      book-AddressLaws opening-WsolLaws wallet admin settings (encode settings) poor settled
      wallet-IsSigned refl (ground arith) (ground arith) configure_run
