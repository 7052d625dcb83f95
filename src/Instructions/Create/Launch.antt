-- ===== src/Instructions/Create/Launch.antt =====
-- What a successful `create_bonding_curve` has done, in
-- programs/pump-raydium/src/instructions/curve/create_bonding_curve.rs.
use pumpfun_solana_smart_con.Base.{◌∷◌, ℕ, ◌+◌, ◌≡◌, inl, inr, ap, ◌∙◌, none, false, arith}
use pumpfun_solana_smart_con.Rust.{ok, Result-cases}
use pumpfun_solana_smart_con.Curve.{BondingCurve}
use pumpfun_solana_smart_con.Config.{Config}
use pumpfun_solana_smart_con.Svm.{
  World, LaunchEvent, launch, Runtime, ◌>>◌, step-eq-ok, step-then, step,
}
use pumpfun_solana_smart_con.Svm.Laws.{TokenLaws}
use pumpfun_solana_smart_con.Instructions.Create.{
  CreateBondingCurve, check_params, launch_curve, ata_call, mint_call, metadata_call, revoke_call,
  issue_token, handler,
}
use pumpfun_solana_smart_con.Instructions.Create.Params.{
  Acceptable, check_params_iff, check_params_keeps,
}
use Prim.Native.String.{String}

module _ (rt : Runtime) (laws : TokenLaws rt) (self : CreateBondingCurve) where
  -- The four calls mint the whole supply to the vault's account and then give the authority up.
  issue_token_effect :
      (n : ℕ) (name symbol uri : String) (bump : ℕ) (w : World) {r : Unit {0} × World}
      → issue_token rt self n name symbol uri bump w ≡ ok r
      → (r.1.supply self.token ≡ w.supply self.token + n)
        × (r.1.token_amount self.global_token_account ≡ n)
        × (r.1.mint_authority self.token ≡ none)
  unfolding issue_token
  issue_token_effect n name symbol uri bump w {r} e =
      let c2 = mint_call rt self n bump in
      let c3 = metadata_call rt self name symbol uri bump in
      let c4 = revoke_call rt self bump in
      let (w1, m1, k1) = step-then (ata_call rt self) (step c2 >> (step c3 >> step c4)) w e in
      let (w2, m2, k2) = step-then c2 (step c3 >> step c4) w1 k1 in
      let (w3, m3, k3) = step-then c3 (step c4) w2 k2 in
      let ata = self.global_token_account in
      let (empty, s1) = laws.ata_created _ _ _ _ _ w m1 in
      let (s2, t2) = laws.minted _ _ _ _ _ w1 m2 in
      let (s3, t3) = laws.described _ _ _ _ _ _ _ _ _ ata w2 m3 in
      let (revoked, s4, t4) = laws.authority_set _ _ _ _ ata w3 (step-eq-ok c4 w3 k3) in
      (omega arith, omega arith, revoked)

-- The account that a launch opens.
abbrev pub opened_curve : CreateBondingCurve → Config → ℕ → ℕ → BondingCurve
opened_curve self config token_supply reserve_lamport = record {
  token_mint = self.token;
  creator = self.creator;
  init_lamport = reserve_lamport;
  token_total_supply = token_supply;
  virtual_sol_reserves = config.initial_virtual_sol_reserves_config;
  virtual_token_reserves = config.initial_virtual_token_reserves_config;
  real_sol_reserves = 0;
  real_token_reserves = config.initial_real_token_reserves_config;
  is_completed = false;
}

-- The event that a launch emits.
abbrev pub launch_event :
    CreateBondingCurve → Config → (decimals token_supply reserve_lamport : ℕ) → LaunchEvent
launch_event self config decimals token_supply reserve_lamport = record {
  creator = self.creator;
  mint = self.token;
  bonding_curve = self.bonding_curve;
  metadata = self.token_metadata_account;
  decimals = decimals;
  token_supply = token_supply;
  reserve_lamport = reserve_lamport;
  reserve_token = config.initial_real_token_reserves_config;
}

module _ (rt : Runtime) (self : CreateBondingCurve) (config : Config) (blank : BondingCurve)
    (d n r : ℕ) (name symbol uri : String) (bump : ℕ) (w : World) {c : BondingCurve} {v : World}
    (e : handler rt self config blank d n r name symbol uri bump w ≡ ok (c, v)) where
  -- The handler's steps: the checks pass, the calls succeed, and then an event is emitted.
  pub launch_steps :
      Acceptable config d n r
      × (c ≡ opened_curve self config n r)
      × ((u : World) × (issue_token rt self n name symbol uri bump w ≡ ok (tt, u))
          × (v ≡ record u { events = launch (launch_event self config d n r) ∷ u.events }))
  unfolding handler launch_curve
  launch_steps = elim (Result-cases (check_params config d n r w)) [
    | inr (x, refused) ↦ absurd (ground arith)
    | inl ((_, w0), passed) ↦
        let same : w0 ≡ w = check_params_keeps config d n r w passed in
        let accepted = (check_params_iff config d n r w).0.0 (rw same at passed) in
        elim (Result-cases (issue_token rt self n name symbol uri bump w)) [
          | inr (x, failed) ↦ absurd (ground arith)
          | inl ((_, u), issued) ↦ (accepted, ground arith, (u, issued, ground arith))
        ]
  ]

  -- Where the token programs keep their laws: a successful `create_bonding_curve` had acceptable
  -- parameters. Every field of the new account is determined: no real lamports, the reserves of the
  -- configuration, the given supply and reserve, not completed. The supply of the mint has grown by
  -- the given supply, the vault's token account holds exactly that, and nobody can mint any more. The
  -- team gets no tokens, though the comment at the mint call says that they go to bonding curve and
  -- team.
  pub create_launches :
      TokenLaws rt
      → Acceptable config d n r
        × (c ≡ opened_curve self config n r)
        × (v.supply self.token ≡ w.supply self.token + n)
        × (v.token_amount self.global_token_account ≡ n)
        × (v.mint_authority self.token ≡ none)
  create_launches laws =
      let (accepted, fields, (u, issued, after)) = launch_steps in
      let (minted, held, revoked) =
        issue_token_effect rt laws self n name symbol uri bump w issued in
      (
        accepted,
        fields,
        ap (λ (x : World). x.supply self.token) after ∙ minted,
        ap (λ (x : World). x.token_amount self.global_token_account) after ∙ held,
        ap (λ (x : World). x.mint_authority self.token) after ∙ revoked,
      )
