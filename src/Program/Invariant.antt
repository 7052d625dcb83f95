-- ===== src/Program/Invariant.antt =====
-- Invariants of the histories of programs/pump-raydium/src/lib.rs.
use pumpfun_solana_smart_con.Base.{
  ℕ, ◌≡◌, ◌≢◌, inl, inr, ap, sym, ◌∙◌, Option, none, some, false, List, ◌==◌, arith, Bool-cases,
}
use pumpfun_solana_smart_con.Rust.{ok}
use pumpfun_solana_smart_con.Curve.{Pubkey, BondingCurve}
use pumpfun_solana_smart_con.Config.{Config}
use pumpfun_solana_smart_con.Svm.{World, Runtime, update}
use pumpfun_solana_smart_con.Instructions.Configure.{Configure}
use pumpfun_solana_smart_con.Instructions.Configure
use pumpfun_solana_smart_con.Instructions.Create.{CreateBondingCurve}
use pumpfun_solana_smart_con.Instructions.Swap.{Swap}
use pumpfun_solana_smart_con.Instructions.Swap
use pumpfun_solana_smart_con.Accounts.{Addresses, curve_address}
use pumpfun_solana_smart_con.Program.{
  Chain, Loader, Request, configure, create_bonding_curve, swap, migrate, execute, History, done,
  executed, others,
}
use pumpfun_solana_smart_con.Program.Curves.{
  AllOpened, Change-opens, create-at_mint, request_changes,
}
use pumpfun_solana_smart_con.Program.Entry.{
  Launched, create_inv, swap_inv, migrate_inv, configure_inv,
}
use Prim.Native.String.{String}

module _ (ad : Addresses) (rt : Runtime) (loader : Loader) where
  -- What every request and every allowed change keeps, a history keeps.
  pub along :
      (Allowed : World → World → Type 0) (I : Chain → Type 0)
      → ((signers : List Pubkey) (r : Request) (c e : Chain)
          → execute ad rt loader signers r c ≡ ok e
          → I c
          → I e)
      → ((c : Chain) (w : World) → Allowed c.world w → I c → I (record c { world = w }))
      → {c e : Chain} → History ad rt loader Allowed c e
      → I c
      → I e
  along Allowed I requests changes done h = h
  along Allowed I requests changes (executed signers r {c} {d} went rest) h =
      along Allowed I requests changes rest (requests signers r c d went h)
  along Allowed I requests changes (others w {c} allowed rest) h =
      along Allowed I requests changes rest (changes c w allowed h)

  -- Every curve of a state is in order.
  abbrev pub All : (World → BondingCurve → Type 0) → Chain → Type 0
  All P c = (k : Pubkey) (b : BondingCurve) → c.curves k ≡ some b → P c.world b

  -- A property of one curve and the machine that every handler keeps, and that a launch begins.
  pub record Curvewise (Allowed : World → World → Type 0) (P : World → BondingCurve → Type 0)
      : Type 0 where
    pub wsol :
        (self : Configure) (w v : World) (b : BondingCurve)
        → loader.init_wsol self w ≡ ok v
        → P w b
        → P v b
    pub configures :
        (self : Configure) (new_config : Config) (bump : ℕ) (w v : World) (b : BondingCurve)
        → Configure.handler rt self new_config bump w ≡ ok (tt, v)
        → P w b
        → P v b
    pub swaps :
        (self : Swap) (a : BondingCurve) (amount direction minimum bump : ℕ) (w v : World) (out : ℕ)
        (b : BondingCurve)
        → Swap.handler rt self a amount direction minimum bump w ≡ ok ((out, a), v)
        → P w b
        → P v b
    pub launches :
        (signers : List Pubkey) (self : CreateBondingCurve) (d n r : ℕ) (name symbol uri : String)
        (c e : Chain) (l : Launched ad rt loader signers self d n r name symbol uri c e)
        → P e.world l.curve
    pub beside :
        (signers : List Pubkey) (self : CreateBondingCurve) (d n r : ℕ) (name symbol uri : String)
        (c e : Chain) (l : Launched ad rt loader signers self d n r name symbol uri c e)
        (b : BondingCurve)
        → b.token_mint ≢ self.token
        → P c.world b
        → P e.world b
    pub allowed : (w v : World) (b : BondingCurve) → Allowed w v → P w b → P v b

  -- Writing a curve back leaves all of them.
  written_back :
      (f g : Pubkey → Option BondingCurve) (j k : Pubkey) (a b : BondingCurve)
      → f j ≡ some a
      → g ≡ update f j (some a)
      → g k ≡ some b
      → f k ≡ some b
  written_back f g j k a b there q h = ground arith

  other_place : {x y : Pubkey} → (x == y) ≡ false → x ≢ y
  other_place e = ground arith

  module _ (Allowed : World → World → Type 0) (P : World → BondingCurve → Type 0)
      (keeps : Curvewise Allowed P) where
    -- A launch: the curves stand at the addresses of their mints, so no other one has its mint.
    launch-All :
        (signers : List Pubkey) (self : CreateBondingCurve) (d n r : ℕ) (name symbol uri : String)
        (c e : Chain)
        → Launched ad rt loader signers self d n r name symbol uri c e
        → AllOpened ad rt c
        → All P c
        → All P e
    launch-All signers self d n r name symbol uri c e l opens all k b h =
        elim (Bool-cases (k == self.bonding_curve)) [
          | inl own ↦
              let same : b ≡ l.curve = ground (arith, l.curves) in
              rw same (keeps.launches signers self d n r name symbol uri c e l)
          | inr other ↦
              let before : c.curves k ≡ some b = ground (arith, l.curves) in
              let apart : b.token_mint ≢ self.token = λ same. other_place other (
                (opens k b before).at_mint
                ∙ ap (λ x. curve_address ad rt.crate_id x) same
                ∙ sym (create-at_mint ad rt signers self l.valid)) in
              keeps.beside signers self d n r name symbol uri c e l b apart (all k b before)
        ]

    request-All :
        (signers : List Pubkey) (r : Request) (c e : Chain)
        → execute ad rt loader signers r c ≡ ok e
        → AllOpened ad rt c
        → All P c
        → All P e
    request-All signers (configure self new_config) c e went opens all k b h =
        let f = configure_inv ad rt loader signers self new_config c e went in
        keeps.configures self new_config _ f.before e.world b f.ran (
          keeps.wsol self c.world f.before b f.prepared
            (all k b (ap (λ g. g k) (sym f.curves) ∙ h)))
    request-All signers (create_bonding_curve self d n r name symbol uri) c e went opens all k b h =
        let l = create_inv ad rt loader signers self d n r name symbol uri c e went in
        launch-All signers self d n r name symbol uri c e l opens all k b h
    request-All signers (swap self amount direction minimum) c e went opens all k b h =
        let s = swap_inv ad rt loader signers self amount direction minimum c e went in
        let before =
          written_back c.curves e.curves self.bonding_curve k s.curve b s.there s.curves h in
        keeps.swaps self s.curve amount direction minimum _ c.world e.world s.amount_out b s.ran
          (all k b before)
    request-All signers (migrate self nonce) c e went opens all k b h =
        let (a, there, same, curves) = migrate_inv ad rt loader signers self nonce c e went in
        rw same (all k b (written_back c.curves e.curves self.bonding_curve k a b there curves h))

    -- After a history from a state without curves, every curve has the property.
    pub History-All :
        {c e : Chain}
        → History ad rt loader Allowed c e
        → ((k : Pubkey) → c.curves k ≡ none)
        → All P e
    History-All history start =
        (along Allowed (λ c. AllOpened ad rt c × All P c)
          (λ signers r c e went h. (
            Change-opens ad rt (request_changes ad rt loader signers r c e went) h.0,
            request-All signers r c e went h.0 h.1,
          ))
          (λ c w ok_change h.
            (h.0, λ k b there. keeps.allowed c.world w b ok_change (h.1 k b there)))
          history
          (
            (λ k b there. absurd (ground (arith, start k))),
            (λ k b there. absurd (ground (arith, start k))),
          )).1
