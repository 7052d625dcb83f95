-- ===== src/Program/Supply.antt =====
-- The supplies of launched tokens along a history of the program of
-- programs/pump-raydium/src/lib.rs.
use pumpfun_solana_smart_con.Base.{◌≤◌, ◌≡◌, ap, none, some, arith}
use pumpfun_solana_smart_con.Curve.{Pubkey, BondingCurve}
use pumpfun_solana_smart_con.Svm.{World, Runtime}
use pumpfun_solana_smart_con.Svm.Laws.{TokenLaws, MintLaws, Sealed}
use pumpfun_solana_smart_con.Instructions.Create.Launch.{create_launches}
use pumpfun_solana_smart_con.Instructions.Seals.{swap_seals, create_seals, configure_seals}
use pumpfun_solana_smart_con.Accounts.{Addresses}
use pumpfun_solana_smart_con.Program.{Chain, Loader, History}
use pumpfun_solana_smart_con.Program.Laws.{LoaderLaws}
use pumpfun_solana_smart_con.Program.Invariant.{Curvewise, History-All}

-- A history in which the transactions of others keep the rules of the token program.
abbrev pub Lawful : Addresses → Runtime → Loader → Chain → Chain → Type 0
Lawful ad rt loader = History ad rt loader Sealed

-- The mint of the curve has no authority and no more supply than the curve says.
abbrev Capped : World → BondingCurve → Type 0
Capped w b = (w.mint_authority b.token_mint ≡ none) × (w.supply b.token_mint ≤ b.token_total_supply)

-- What is sealed stays capped.
Capped-Sealed : (v w : World) (b : BondingCurve) → Sealed v w → Capped v b → Capped w b
Capped-Sealed v w b seals (gone, small) =
    let (still, less) = seals b.token_mint gone in (still, omega arith)

module _ (ad : Addresses) (rt : Runtime) (loader : Loader) (tokens : TokenLaws rt)
    (mints : MintLaws rt) (loads : LoaderLaws rt loader) where
  Capped-Curvewise : Curvewise ad rt loader Sealed Capped
  Capped-Curvewise = record {
    wsol = λ self w v b e. Capped-Sealed w v b (loads.wsol_seals self w e);
    configures = λ self new_config bump w v b e.
        Capped-Sealed w v b (configure_seals rt mints self new_config bump w e);
    swaps = λ self a amount direction minimum bump w v out b e.
        Capped-Sealed w v b (swap_seals rt mints self a amount direction minimum bump w e);
    launches = λ signers self d n r name symbol uri c e l.
        let (_, fields, minted, _, revoked) =
          create_launches rt self l.config loader.zeroed d n r name symbol uri _ l.before l.ran
            tokens in
        let total = ap (λ (x : BondingCurve). x.token_total_supply) fields in
        let mint = ap (λ (x : BondingCurve). x.token_mint) fields in
        let new = loads.new_mint self d c.world l.prepared in
        (ground (arith, revoked, mint), ground (arith, minted, total, mint, new));
    beside = λ signers self d n r name symbol uri c e l b apart h.
        let seals =
          create_seals rt mints self l.config loader.zeroed d n r name symbol uri _ l.before
            l.ran in
        let (still, less) = loads.other_mints self d b.token_mint c.world l.prepared apart h.0 in
        Capped-Sealed l.before e.world b seals (still, omega (arith, h.1));
    allowed = Capped-Sealed;
  }

  -- Where the token programs and the generated code keep their laws: after any lawful history from
  -- a state without curves, the mint that a bonding curve names has no authority, so that nobody can
  -- mint, and its supply is at most the total supply that the curve records. Lawful means that
  -- others cannot change a mint without an authority but by burning.
  pub supply_capped :
      {c e : Chain}
      → Lawful ad rt loader c e
      → ((k : Pubkey) → c.curves k ≡ none)
      → (k : Pubkey) (b : BondingCurve) → e.curves k ≡ some b
      → (e.world.mint_authority b.token_mint ≡ none)
        × (e.world.supply b.token_mint ≤ b.token_total_supply)
  supply_capped = History-All ad rt loader Sealed Capped Capped-Curvewise
