-- ===== src/Instructions/Swap/Drain.antt =====
-- What the swap instruction of programs/pump-raydium/src/instructions/curve/swap.rs does.
use pumpfun_solana_smart_con.Base.{
  ℕ, ◌+◌, ◌≡◌, ◌≢◌, inl, inr, ap, ◌∙◌, some, arith, ◌==◌, if◌then◌else◌, ◌∷◌,
}
use pumpfun_solana_smart_con.Rust.{ok, err, Result-cases}
use pumpfun_solana_smart_con.Errors.{contract, invalid_amount}
use pumpfun_solana_smart_con.Constants.{global_seed}
use pumpfun_solana_smart_con.Curve.{BondingCurve}
use pumpfun_solana_smart_con.Svm.{World, Runtime, transfer, swapped, SwapEvent}
use pumpfun_solana_smart_con.Svm.Laws.{TransferLaws}
use pumpfun_solana_smart_con.Utils.{sol_transfer_with_signer}
use pumpfun_solana_smart_con.Instructions.Swap.{Swap, swap, handler}

module _ (rt : Runtime) (self : Swap) (c : BondingCurve) where
  -- The event that a swap emits.
  abbrev pub swap_event : (amount direction minimum amount_out : ℕ) → SwapEvent
  swap_event amount direction minimum amount_out = record {
    user = self.user;
    mint = self.token_mint;
    bonding_curve = self.bonding_curve;
    amount_in = amount;
    direction = direction;
    minimum_receive_amount = minimum;
    amount_out = amount_out;
    virtual_sol_reserves = c.virtual_sol_reserves;
    virtual_token_reserves = c.virtual_token_reserves;
  }

  -- A swap of a positive amount is one transfer of everything that the vault holds, whatever the
  -- amount, the direction and the minimum are: if the system program makes it, the swap succeeds,
  -- with what the vault held for its result, the account unchanged and an event. A swap of 0 is
  -- refused with InvalidAmount.
  pub swap_transfers :
      (amount direction minimum bump : ℕ) (w v : World)
      → rt.invoke
          (some (global_seed, bump))
          (transfer self.global_vault self.user (w.lamports self.global_vault))
          w
        ≡ ok v
      → handler rt self c amount direction minimum bump w ≡ (
          if amount == 0
          then err (contract invalid_amount)
          else ok (
            (w.lamports self.global_vault, c),
            record v {
              events =
                  swapped (swap_event amount direction minimum (w.lamports self.global_vault))
                  ∷ v.events;
            },
          ))
  unfolding handler swap sol_transfer_with_signer
  swap_transfers amount direction minimum bump w v sent = ground arith

  -- A swap that went through made that transfer.
  pub swap_sent :
      (amount direction minimum bump : ℕ) (w : World) {out : ℕ} {d : BondingCurve} {v : World}
      → handler rt self c amount direction minimum bump w ≡ ok ((out, d), v)
      → (u : World) × (rt.invoke
            (some (global_seed, bump))
            (transfer self.global_vault self.user (w.lamports self.global_vault))
            w
          ≡ ok u)
        × (out ≡ w.lamports self.global_vault)
        × (d ≡ c)
        × (v ≡ record u {
          events =
              swapped (swap_event amount direction minimum (w.lamports self.global_vault))
              ∷ u.events;
        })
  unfolding handler swap sol_transfer_with_signer
  swap_sent amount direction minimum bump w e =
      elim (Result-cases (
        rt.invoke (some (global_seed, bump))
          (transfer self.global_vault self.user (w.lamports self.global_vault)) w)) [
            | inl (u, sent) ↦ (u, sent, ground arith, ground arith, ground arith)
            | inr (x, failed) ↦ absurd (ground arith)
          ]

  -- Where the system program keeps the laws of transfers and the user is not the vault: a
  -- successful swap, in either direction and for any minimum, pays the user every lamport of the
  -- vault: the vault holds none afterwards, the user what it held before more, and that is the
  -- result. It leaves the bonding curve, every token balance and every supply as they were.
  pub swap_drains :
      (laws : TransferLaws rt) (amount direction minimum bump : ℕ) (w : World) {out : ℕ}
      {d : BondingCurve} {v : World}
      → self.global_vault ≢ self.user
      → handler rt self c amount direction minimum bump w ≡ ok ((out, d), v)
      → (out ≡ w.lamports self.global_vault)
        × (v.lamports self.global_vault ≡ 0)
        × (v.lamports self.user ≡ w.lamports self.user + w.lamports self.global_vault)
        × (d ≡ c)
        × (v.token_amount ≡ w.token_amount)
        × (v.supply ≡ w.supply)
  swap_drains laws amount direction minimum bump w {out} {d} {v} apart e =
      let (u, sent, paid, same, after) = swap_sent amount direction minimum bump w e in
      let (taken, given) = laws.moves _ _ _ _ w sent apart in
      let kept = laws.frame _ _ _ _ w sent in
      let lamports : v.lamports ≡ u.lamports = ap (λ (x : World). x.lamports) after in
      (
        paid,
        rw lamports (omega arith),
        rw lamports given,
        same,
        ap (λ (x : World). x.token_amount) after ∙ ap (λ (x : World). x.token_amount) kept,
        ap (λ (x : World). x.supply) after ∙ ap (λ (x : World). x.supply) kept,
      )
