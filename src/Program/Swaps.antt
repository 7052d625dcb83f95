-- ===== src/Program/Swaps.antt =====
-- When the entry point `swap` of programs/pump-raydium/src/lib.rs goes through.
use pumpfun_solana_smart_con.Base.{
  ℕ, ◌<◌, ◌≡◌, ◌↔◌, ◌==◌, ◌∷◌, inl, inr, true, some, List, [], arith, Bool-cases,
}
use pumpfun_solana_smart_con.Rust.{ok}
use pumpfun_solana_smart_con.Constants.{global_seed}
use pumpfun_solana_smart_con.Curve.{Pubkey, BondingCurve}
use pumpfun_solana_smart_con.Config.{Config}
use pumpfun_solana_smart_con.Svm.{World, Runtime, transfer, swapped, update}
use pumpfun_solana_smart_con.Instructions.Swap.{Swap}
use pumpfun_solana_smart_con.Instructions.Swap
use pumpfun_solana_smart_con.Instructions.Swap.Drain.{swap_event, swap_sent, swap_transfers}
use pumpfun_solana_smart_con.Accounts.{Addresses, word, bump, swap_accounts}
use pumpfun_solana_smart_con.Program.{Chain, Loader, swap, global_config, execute}
use pumpfun_solana_smart_con.Program.Entry.{chain_eq, swap_inv}

module _ (ad : Addresses) (rt : Runtime) (loader : Loader) (signers : List Pubkey) (self : Swap)
    (amount direction minimum : ℕ) (c e : Chain) where
  abbrev vault_bump : ℕ
  vault_bump = bump ad rt.crate_id (word global_seed ∷ [])

  abbrev held : ℕ
  held = c.world.lamports self.global_vault

  -- All that a swap depends on, and what it leads to.
  pub record Swaps : Type 0 where
    pub valid : swap_accounts ad rt.crate_id signers self ≡ true
    pub config : Config
    pub loaded : loader.load_config self.global_config c.world ≡ ok config
    pub ours : config.team_wallet ≡ self.team_wallet
    pub curve : BondingCurve
    pub there : c.curves self.bonding_curve ≡ some curve
    pub positive : 0 < amount
    pub after : World
    pub sent :
        rt.invoke
          (some (global_seed, vault_bump))
          (transfer self.global_vault self.user held)
          c.world
        ≡ ok after
    pub result : e ≡ record {
      world = record after {
        events = swapped (swap_event rt self curve amount direction minimum held) ∷ after.events;
      };
      curves = update c.curves self.bonding_curve (some curve);
    }

  swap_positive :
      (b : BondingCurve) (w : World) {r : (ℕ × BondingCurve) × World}
      → Swap.handler rt self b amount direction minimum vault_bump w ≡ ok r
      → 0 < amount
  unfolding Swap.handler Swap.swap
  swap_positive b w ran = elim (Bool-cases (amount == 0)) [
    | inl none_asked ↦ absurd (ground arith)
    | inr some_asked ↦ ground arith
  ]

  swap_needs : execute ad rt loader signers (swap self amount direction minimum) c ≡ ok e → Swaps
  swap_needs went =
      let l = swap_inv ad rt loader signers self amount direction minimum c e went in
      let (u, sent, _, _, after) =
        swap_sent rt self l.curve amount direction minimum vault_bump c.world l.ran in
      record {
        valid = l.valid;
        config = l.config;
        loaded = l.loaded;
        ours = l.ours;
        curve = l.curve;
        there = l.there;
        positive = swap_positive l.curve c.world l.ran;
        after = u;
        sent = sent;
        result = chain_eq e _ _ after l.curves;
      }

  swap_goes : Swaps → execute ad rt loader signers (swap self amount direction minimum) c ≡ ok e
  unfolding execute global_config
  swap_goes s =
      let ran =
        swap_transfers rt self s.curve amount direction minimum vault_bump c.world s.after s.sent in
      ground (arith, s.valid, s.loaded, s.ours, s.there, s.positive, s.result, ran)

  -- A swap request goes through exactly when its accounts are valid, the configuration is readable
  -- and names the given team wallet, the bonding curve account is there, the amount is positive,
  -- and the system program makes the transfer of all that the vault holds to the user; no payment,
  -- no token and no authority is needed. Then the machine is as the transfer leaves it with the
  -- swap event added, and the curves are written back as they were.
  pub swap_request_iff :
      (execute ad rt loader signers (swap self amount direction minimum) c ≡ ok e) ↔ Swaps
  swap_request_iff = (swap_needs, swap_goes)
