-- ===== src/Tests/Instructions.antt =====
-- Runs of the swap, create and migrate instructions of programs/pump-raydium/src/instructions, and
-- of the checks of programs/pump-raydium/src/state/config.rs.
use pumpfun_solana_smart_con.Base.{ℕ, ◌+◌, ◌≤◌, ◌≡◌, ◌↔◌, refl, some, none, [], ◌∷◌}
use pumpfun_solana_smart_con.Rust.{ok, err}
use pumpfun_solana_smart_con.Errors.{panic}
use pumpfun_solana_smart_con.Config.{AmountConfig, range, enum, contains, validate, unsigned_ord}
use pumpfun_solana_smart_con.Config.Validate.{Admits, validate-Admits}
use pumpfun_solana_smart_con.Svm.{World, swapped}
use pumpfun_solana_smart_con.Utils.{sol_transfer_with_signer}
use pumpfun_solana_smart_con.Instructions.Create
use pumpfun_solana_smart_con.Instructions.Create.{
  decimal_power, check_params, launch_curve, issue_token,
}
use pumpfun_solana_smart_con.Instructions.Create.Params.{Acceptable, check_params_iff}
use pumpfun_solana_smart_con.Instructions.Create.Launch.{opened_curve, create_launches}
use pumpfun_solana_smart_con.Instructions.Swap
use pumpfun_solana_smart_con.Instructions.Swap.Drain.{swap_event}
use pumpfun_solana_smart_con.Tests.Machine.{machine, move, machine-TokenLaws}
use pumpfun_solana_smart_con.Tests.Data.{creation, trade, settings, zeros, start, launched, issued}

launch_run :
    Create.handler machine creation settings zeros 6 1_000_000_000_000_000 2_000 "Coin" "CN" "uri"
      255 start
    ≡ ok (launched, issued)
unfolding Create.handler decimal_power check_params launch_curve issue_token validate contains
launch_run = refl

create_launches_example :
    Acceptable settings 6 1_000_000_000_000_000 2_000
    × (launched ≡ opened_curve creation settings 1_000_000_000_000_000 2_000)
    × (issued.supply 13 ≡ start.supply 13 + 1_000_000_000_000_000)
    × (issued.token_amount 23_027 ≡ 1_000_000_000_000_000)
    × (issued.mint_authority 13 ≡ none)
create_launches_example =
    create_launches machine creation settings zeros 6 1_000_000_000_000_000 2_000 "Coin" "CN" "uri"
      255 start launch_run machine-TokenLaws

check_params_iff_example :
    ((check_params settings 6 1_000_000 500 start ≡ ok (tt, start))
      ↔ Acceptable settings 6 1_000_000 500)
    × ((check_params settings 6 1_000_000 500 start ≡ err panic) ↔ (20 ≤ 6))
check_params_iff_example = check_params_iff settings 6 1_000_000 500 start

-- One token unit in the direction of a sale, with a minimum of zero, empties the vault.
abbrev sold_out : World
sold_out = record start {
  lamports = move start.lamports 11 10 5_000_000_000;
  events = swapped (swap_event machine trade launched 1 1 0 5_000_000_000) ∷ [];
}

swap_run :
    Swap.handler machine trade launched 1 1 0 255 start ≡ ok ((5_000_000_000, launched), sold_out)
unfolding Swap.handler Swap.swap sol_transfer_with_signer
swap_run = refl

abbrev paid : World
paid = record start { lamports = move start.lamports 11 10 5_000_000_000 }

abbrev options : AmountConfig ℕ
options = enum (6 ∷ 9 ∷ [])

validate-Admits_example : (validate options 9 ≡ ok tt) ↔ Admits options 9
validate-Admits_example = validate-Admits options 9

abbrev bounds : AmountConfig ℕ
bounds = range (some 5) (some 7)
