-- ===== src/Instructions/Configure/Outcome.antt =====
-- What `Configure::handler` of programs/pump-raydium/src/instructions/admin/configure.rs does: who
-- may configure, what is stored, and when it cannot be done.
use pumpfun_solana_smart_con.Base.{
  ℕ, ◌≡◌, inl, inr, sym, ap, ◌∙◌, List, ◌++◌, length, drop, take, take-append, arith, drop-append,
}
use mathlib.Core.List.{append_assoc}
use pumpfun_solana_smart_con.Rust.{ok}
use pumpfun_solana_smart_con.Config.{Config}
use pumpfun_solana_smart_con.Svm.{World, Runtime}
use pumpfun_solana_smart_con.Svm.Laws.{TransferLaws, AccountLaws}
use pumpfun_solana_smart_con.Instructions.Configure.{Configure, handler}
use pumpfun_solana_smart_con.Instructions.Configure.Steps.{
  written, Authorised, fund_vault_inv, top_up_owner,
}
use pumpfun_solana_smart_con.Instructions.Configure.Effect.{
  serialized, finish_inv, Admitted, configure_steps,
}

-- The derived codec reads back what it wrote, whatever follows in the account, and a discriminator
-- has eight bytes.
pub record CodecLaws (rt : Runtime) : Type 0 where
  pub decodes :
      (c : Config) (bytes rest : List ℕ)
      → rt.try_to_vec c ≡ ok bytes
      → rt.deserialize (bytes ++ rest) ≡ ok c
  pub eight : length rt.discriminator ≡ 8

module _ (rt : Runtime) (self : Configure) where
  -- Once the configuration account belongs to the program, a successful `configure` was made by
  -- the authority that the stored configuration names.
  pub configure_authorised :
      (new_config : Config) (bump : ℕ) (w : World) {r : Unit {0} × World}
      → w.owner self.config ≡ rt.crate_id
      → handler rt self new_config bump w ≡ ok r
      → Authorised rt self w
  configure_authorised new_config bump w ours e =
      let (bytes, v, _, admitted, _) = configure_steps rt self new_config bump w e in
      elim admitted [ inl (_, authorised, _) ↦ authorised | inr (other, _) ↦ absurd (other ours) ]

  -- Reading back what has been written over old data.
  read_back :
      CodecLaws rt
      → (c : Config) (bytes old : List ℕ) → rt.try_to_vec c ≡ ok bytes
      → rt.deserialize (drop 8 ((rt.discriminator ++ bytes) ++ old)) ≡ ok c
  read_back codec c bytes old encoded =
      let split : (rt.discriminator ++ bytes) ++ old ≡ rt.discriminator ++ (bytes ++ old) =
        append_assoc rt.discriminator bytes old in
      let rest : drop 8 (rt.discriminator ++ (bytes ++ old)) ≡ bytes ++ old =
        rw (sym codec.eight) (drop-append rt.discriminator (bytes ++ old)) in
      ap (λ xs. rt.deserialize (drop 8 xs)) split
      ∙ ap (λ xs. rt.deserialize xs) rest
      ∙ codec.decodes c bytes old encoded

  -- The discriminator comes first.
  read_head :
      CodecLaws rt
      → (bytes old : List ℕ) → take 8 ((rt.discriminator ++ bytes) ++ old) ≡ rt.discriminator
  read_head codec bytes old =
      let split : (rt.discriminator ++ bytes) ++ old ≡ rt.discriminator ++ (bytes ++ old) =
        append_assoc rt.discriminator bytes old in
      let head : take 8 (rt.discriminator ++ (bytes ++ old)) ≡ rt.discriminator =
        rw (sym codec.eight) (take-append rt.discriminator (bytes ++ old)) in
      ap (λ xs. take 8 xs) split ∙ head

  -- The written data is at its place.
  written_data :
      (u : World) (bytes : List ℕ)
      → (written rt self u bytes).account_data self.config
        ≡ bytes ++ drop (length bytes) (u.account_data self.config)
  written_data u bytes = ground arith

  -- What the configuration account is after its admission.
  Admitted-owner :
      AccountLaws rt
      → (cost len bump : ℕ) (w v : World) → Admitted rt self cost len bump w v
      → v.owner self.config ≡ rt.crate_id
  Admitted-owner accounts cost len bump w v admitted = elim admitted [
    | inl (ours, _, same) ↦ ap (λ (x : World). x.owner self.config) same ∙ ours
    | inr (_, created) ↦ (accounts.created _ _ _ _ _ _ w created).0
  ]

  -- Where the called programs and the derived codec keep their laws: after a successful `configure`
  -- the configuration account belongs to the program and begins with the discriminator, and reading
  -- what follows, as the other instructions do, gives the new configuration.
  pub configure_stores :
      TransferLaws rt
      → AccountLaws rt
      → (codec : CodecLaws rt) (new_config : Config) (bump : ℕ) (w : World) {r : Unit {0} × World}
      → handler rt self new_config bump w ≡ ok r
      → (r.1.owner self.config ≡ rt.crate_id)
        × (take 8 (r.1.account_data self.config) ≡ rt.discriminator)
        × (rt.deserialize (drop 8 (r.1.account_data self.config)) ≡ ok new_config)
  configure_stores moves accounts codec new_config bump w {r} e =
      let (bytes, v, encoded, admitted, finished) = configure_steps rt self new_config bump w e in
      let all = serialized rt self bytes in
      let cost = rt.minimum_balance (length all) in
      let (u, topped, fits, funded) = finish_inv rt self cost all v finished in
      let after = fund_vault_inv rt self (written rt self u all) moves funded in
      let owned = Admitted-owner accounts cost (length all) bump w v admitted in
      let same = top_up_owner rt self v cost (length all) moves accounts topped in
      let rest = drop (length all) (u.account_data self.config) in
      (
        ap (λ (x : World). x.owner self.config) after ∙ ap (λ f. f self.config) same ∙ owned,
        ap (λ (x : World). take 8 (x.account_data self.config)) after
            ∙ ap (λ xs. take 8 xs) (written_data u all)
            ∙ read_head codec bytes rest,
        ap (λ (x : World). rt.deserialize (drop 8 (x.account_data self.config))) after
            ∙ ap (λ xs. rt.deserialize (drop 8 xs)) (written_data u all)
            ∙ read_back codec new_config bytes rest encoded,
      )

-- Where the called programs and the derived codec keep their laws: of two `configure` that succeed
-- one after the other on the same account, the second was paid by the authority that the first one
-- has stored.
pub configure_handover :
    (rt : Runtime)
    → TransferLaws rt
    → AccountLaws rt
    → CodecLaws rt
    → (self next : Configure) (first second : Config) (bump : ℕ) (w : World)
      {r s : Unit {0} × World}
    → next.config ≡ self.config
    → handler rt self first bump w ≡ ok r
    → handler rt next second bump r.1 ≡ ok s
    → next.payer ≡ first.authority
configure_handover rt moves accounts codec self next first second bump w {r} account e f =
    let (owned, _, stored) = configure_stores rt self moves accounts codec first bump w e in
    let a = configure_authorised rt next second bump r.1 (rw account owned) f in
    let decoded : rt.deserialize (drop 8 (r.1.account_data next.config)) ≡ ok first =
      rw account stored in
    ground (arith, a.decoded, a.authority, decoded)
