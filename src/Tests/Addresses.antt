-- ===== src/Tests/Addresses.antt =====
-- Addresses and generated code for the examples.
use pumpfun_solana_smart_con.Base.{
  ℕ, ◌+◌, ◌*◌, ◌≡◌, refl, Bool, true, false, some, not, ◌&&◌, List, [], ◌∷◌, take, drop, ltb, ◌==◌,
  if◌then◌else◌, arith,
}
use pumpfun_solana_smart_con.Rust.{ok, err}
use pumpfun_solana_smart_con.Errors.{foreign}
use pumpfun_solana_smart_con.Curve.{Pubkey}
use pumpfun_solana_smart_con.Svm.{update}
use pumpfun_solana_smart_con.Instructions.Configure.{same_bytes}
use pumpfun_solana_smart_con.Accounts.{Seed, word, key, Addresses}
use pumpfun_solana_smart_con.Program.{Loader}
use pumpfun_solana_smart_con.Program.Laws.{AddressLaws, LoaderLaws}
use pumpfun_solana_smart_con.Tests.Machine.{machine}
use pumpfun_solana_smart_con.Tests.Data.{zeros}
use Prim.Native.Nat.{Ordering}
use Prim.Native.String.{String, compare, len}

abbrev is_word : String → String → Bool
is_word s t = elim (compare s t) [ Ordering.lt ↦ false | Ordering.eq ↦ true | Ordering.gt ↦ false ]

abbrev find : Pubkey → List Seed → Pubkey × ℕ
find program (word s ∷ []) =
    (if is_word s "config" then 12 else if is_word s "global" then 11 else 1_000_000 + len s, 255)
find program (word s ∷ key m ∷ []) = (1000 + 2 * m, 255)
find program (key a ∷ key b ∷ key m ∷ []) = (1001 + 2 * (1000 * a + m), 255)
find program (word s ∷ key a ∷ key m ∷ []) = (2_000_000 + m, 255)
find program (key a ∷ key b ∷ word s ∷ []) = (3_000_000 + len s, 255)
find program _ = (999_999, 255)

abbrev pub book : Addresses
book = record {
  find_program_address = find;
  on_curve = λ k. ltb k 1000 && not (k == 11) && not (k == 12);
  system_program_id = 32;
  token_id = 33;
  associated_token_id = 34;
  metadata_id = 36;
  rent_id = 35;
  native_mint_id = 31;
}

abbrev pub loader : Loader
loader = record {
  load_config = λ k w.
      if w.owner k == 77 && same_bytes (take 8 (w.account_data k)) machine.discriminator
      then machine.deserialize (drop 8 (w.account_data k))
      else err (foreign 3007);
  init_wsol = λ self w. ok w;
  init_launch = λ self d w. ok (record w {
    supply = update w.supply self.token 0;
    mint_authority = update w.mint_authority self.token (some self.global_vault);
  });
  zeroed = zeros;
  not_initialized = foreign 3012;
  in_use = foreign 0;
  rejected = foreign 2006;
}

off_curve :
    (program : Pubkey) (seeds : List Seed)
    → book.on_curve (book.find_program_address program seeds).0 ≡ false
off_curve program [] = refl
off_curve program (word s ∷ []) = ground arith
off_curve program (key a ∷ []) = ground arith
off_curve program (word s ∷ word t ∷ _) = ground arith
off_curve program (word s ∷ key a ∷ []) = ground arith
off_curve program (word s ∷ key a ∷ word t ∷ _) = ground arith
off_curve program (word s ∷ key a ∷ key m ∷ []) = ground arith
off_curve program (word s ∷ key a ∷ key m ∷ x ∷ _) = ground arith
off_curve program (key a ∷ word s ∷ _) = ground arith
off_curve program (key a ∷ key b ∷ []) = ground arith
off_curve program (key a ∷ key b ∷ word s ∷ []) = ground arith
off_curve program (key a ∷ key b ∷ word s ∷ x ∷ _) = ground arith
off_curve program (key a ∷ key b ∷ key m ∷ []) = ground arith
off_curve program (key a ∷ key b ∷ key m ∷ x ∷ _) = ground arith

pub book-AddressLaws : AddressLaws book 77
book-AddressLaws = record {
  curve_injective = λ m n e. omega arith;
  config_vault = ground arith;
  ata_config = λ a m. omega arith;
  ata_vault = λ a m. omega arith;
  off_curve = off_curve;
}

pub loader-LoaderLaws : LoaderLaws machine loader
loader-LoaderLaws = record {
  loads = λ k w c owned head stored.
      let same : same_bytes (take 8 (w.account_data k)) machine.discriminator ≡ true =
        rw head refl in
      ground (arith, same, stored);
  new_mint = λ self d w e. ground arith;
  other_mints = λ self d k w e apart gone. (ground arith, ground arith);
  wsol_seals = λ self w e k h. (ground arith, ground arith);
  launch_holds = λ self d w e k. ground arith;
  wsol_holds = λ self w e k. ground arith;
  launch_owned = λ self d w e k own. (ground arith, ground arith);
  wsol_owned = λ self w e k own. (ground arith, ground arith);
  launch_events = λ self d w e. ground arith;
  wsol_events = λ self w e. ground arith;
}
