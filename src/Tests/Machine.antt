-- ===== src/Tests/Machine.antt =====
-- A small runtime for the examples.
use pumpfun_solana_smart_con.Base.{
  Bool, false, Option, none, some, ◌==◌, ℕ, zero, suc, ◌+◌, ◌-◌, ◌*◌, ◌≡◌, refl, List, [], ◌∷◌,
  length, leb, if◌then◌else◌, arith,
}
use pumpfun_solana_smart_con.Rust.{Result, ok, err}
use pumpfun_solana_smart_con.Errors.{Fault, foreign}
use pumpfun_solana_smart_con.Curve.{Pubkey}
use pumpfun_solana_smart_con.Svm.{
  World, Runtime, Call, update, transfer, create_account, create_ata, mint_to, create_metadata,
  set_mint_authority, token_transfer,
}
use pumpfun_solana_smart_con.Svm.Laws.{
  TransferLaws, TokenLaws, AccountLaws, MintLaws, EventLaws, HoldLaws, Sealed, Holds, OwnerLaws,
  Owned, takes_tokens,
}
use pumpfun_solana_smart_con.Instructions.Configure.Outcome.{CodecLaws}
use pumpfun_solana_smart_con.Tests.Codec.{encode, decode, decode-encode}

abbrev pub resize : ℕ → List ℕ → List ℕ
resize zero xs = []
resize (suc n) [] = 0 ∷ resize n []
resize (suc n) (x ∷ xs) = x ∷ resize n xs

length-resize : (n : ℕ) (xs : List ℕ) → length (resize n xs) ≡ n
length-resize zero xs = refl
length-resize (suc n) [] = ground (arith, length-resize n [])
length-resize (suc n) (x ∷ xs) = ground (arith, length-resize n xs)

-- Moving an amount between two entries.
abbrev pub move : (Pubkey → ℕ) → (from to : Pubkey) → ℕ → Pubkey → ℕ
move f from to n = let taken = update f from (f from - n) in update taken to (taken to + n)

-- Whether a key is the authority of a mint.
abbrev is_authority : Option Pubkey → Pubkey → Bool
is_authority none k = false
is_authority (some j) k = j == k

abbrev call : Call → World → Result Fault World
call (transfer from to n) w =
    if leb n (w.lamports from)
    then ok (record w { lamports = move w.lamports from to n })
    else err (foreign 1)
call (create_account from to cost space program) w =
    let created = record w {
      lamports = update (update w.lamports from (w.lamports from - cost)) to cost;
      owner = update w.owner to program;
      account_data = update w.account_data to (resize space []);
    } in
    if w.owner to == 77
    then err (foreign 0)
    else if w.lamports to == 0
    then (if leb cost (w.lamports from) then ok created else err (foreign 1))
    else err (foreign 0)
call (create_ata payer ata authority mint) w =
    if w.token_amount ata == 0
    then ok (record w { token_amount = update w.token_amount ata 0 })
    else err (foreign 0)
call (mint_to mint to authority n) w =
    let minted = record w {
      supply = update w.supply mint (w.supply mint + n);
      token_amount = update w.token_amount to (w.token_amount to + n);
    } in
    if is_authority (w.mint_authority mint) authority then ok minted else err (foreign 4)
call (create_metadata _ _ _ _ _ _ _ _) w = ok w
call (set_mint_authority mint current new) w =
    if is_authority (w.mint_authority mint) current
    then ok (record w { mint_authority = update w.mint_authority mint new })
    else err (foreign 4)
call (token_transfer from to authority n) w =
    if leb n (w.token_amount from)
    then ok (record w { token_amount = move w.token_amount from to n })
    else err (foreign 2)

abbrev pub machine : Runtime
machine = record {
  invoke = λ s c. call c;
  realloc = λ k len w.
      ok (record w { account_data = update w.account_data k (resize len (w.account_data k)) });
  minimum_balance = λ len. (128 + len) * 6960;
  crate_id = 77;
  discriminator = 155 ∷ 12 ∷ 170 ∷ 224 ∷ 30 ∷ 250 ∷ 204 ∷ 130 ∷ [];
  try_to_vec = λ c. ok (encode c);
  deserialize = decode;
}

pub machine-TransferLaws : TransferLaws machine
machine-TransferLaws = record {
  moves = λ s from to n w e apart. (ground arith, ground arith);
  others = λ s from to n k w e a b. ground arith;
  frame = λ s from to n w e. ground arith;
}

pub machine-TokenLaws : TokenLaws machine
machine-TokenLaws = record {
  ata_created = λ s payer ata authority mint w e. (ground arith, ground arith);
  minted = λ s mint to authority n w e. (ground arith, ground arith);
  described = λ s a b c d f g h i k w e. (ground arith, ground arith);
  authority_set = λ s mint current new k w e. (ground arith, ground arith, ground arith);
}

pub machine-AccountLaws : AccountLaws machine
machine-AccountLaws = record {
  created = λ s from to cost space program w e.
      (ground arith, ground (arith, length-resize space []), ground arith);
  resized = λ k len w e.
      (ground (arith, length-resize len (w.account_data k)), ground arith, ground arith);
  created_pays = λ s from to cost space program w e apart. (ground arith, ground arith);
  created_others = λ s from to cost space program k w e apart.
      (ground arith, ground arith, λ other. ground arith);
  created_frame = λ s from to cost space program w e. ground arith;
  resized_others = λ k len j w e apart. ground arith;
  resized_frame = λ k len w e. ground arith;
}

pub machine-CodecLaws : CodecLaws machine
machine-CodecLaws = record {
  decodes = λ c bytes rest e.
      let same : bytes ≡ encode c = ground arith in rw same (decode-encode c rest);
  eight = refl;
}

call_seals : (c : Call) (w : World) {v : World} → call c w ≡ ok v → Sealed w v
call_seals (transfer from to n) w e k h = (ground arith, ground arith)
call_seals (create_account from to cost space program) w e k h = (ground arith, ground arith)
call_seals (create_ata payer ata authority mint) w e k h = (ground arith, ground arith)
call_seals (mint_to mint to authority n) w e k h = (ground arith, ground arith)
call_seals (create_metadata _ _ _ _ _ _ _ _) w e k h = (ground arith, ground arith)
call_seals (set_mint_authority mint current new) w e k h = (ground arith, ground arith)
call_seals (token_transfer from to authority n) w e k h = (ground arith, ground arith)

pub machine-MintLaws : MintLaws machine
machine-MintLaws = record {
  invoked = λ s c w e. call_seals c w e;
  resized = λ k len w e j h. (ground arith, ground arith);
}

call_quiet : (c : Call) (w : World) {v : World} → call c w ≡ ok v → v.events ≡ w.events
call_quiet (transfer from to n) w e = ground arith
call_quiet (create_account from to cost space program) w e = ground arith
call_quiet (create_ata payer ata authority mint) w e = ground arith
call_quiet (mint_to mint to authority n) w e = ground arith
call_quiet (create_metadata _ _ _ _ _ _ _ _) w e = ground arith
call_quiet (set_mint_authority mint current new) w e = ground arith
call_quiet (token_transfer from to authority n) w e = ground arith

pub machine-EventLaws : EventLaws machine
machine-EventLaws = record {
  invoked = λ s c w e. call_quiet c w e;
  resized = λ k len w e. ground arith;
}

call-Holds :
    (c : Call) (w : World) {v : World} → call c w ≡ ok v → takes_tokens c ≡ false → Holds w v
call-Holds (transfer from to n) w e quiet k = ground arith
call-Holds (create_account from to cost space program) w e quiet k = ground arith
call-Holds (create_ata payer ata authority mint) w e quiet k = ground arith
call-Holds (mint_to mint to authority n) w e quiet k = ground arith
call-Holds (create_metadata _ _ _ _ _ _ _ _) w e quiet k = ground arith
call-Holds (set_mint_authority mint current new) w e quiet k = ground arith
call-Holds (token_transfer from to authority n) w e quiet k = absurd (ground arith)

pub machine-HoldLaws : HoldLaws machine
machine-HoldLaws = record {
  invoked = λ s c w e. call-Holds c w e;
  resized = λ k len w e j. ground arith;
}

call-Owned : (c : Call) (w : World) {v : World} → call c w ≡ ok v → Owned 77 w v
call-Owned (transfer from to n) w e k own = (ground arith, ground arith)
call-Owned (create_account from to cost space program) w e k own = (ground arith, ground arith)
call-Owned (create_ata payer ata authority mint) w e k own = (ground arith, ground arith)
call-Owned (mint_to mint to authority n) w e k own = (ground arith, ground arith)
call-Owned (create_metadata _ _ _ _ _ _ _ _) w e k own = (ground arith, ground arith)
call-Owned (set_mint_authority mint current new) w e k own = (ground arith, ground arith)
call-Owned (token_transfer from to authority n) w e k own = (ground arith, ground arith)

pub machine-OwnerLaws : OwnerLaws machine
machine-OwnerLaws = record { invoked = λ s c w e. call-Owned c w e }
