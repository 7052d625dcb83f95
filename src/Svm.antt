-- ===== src/Svm.antt =====
-- The machine that the instructions of programs/pump-raydium/src/instructions run on: the accounts
-- as far as the code or its properties look at them, the calls of other programs, and the events
-- of programs/pump-raydium/src/events.rs. What the called programs and the crates do is a
-- parameter, the record Runtime.
pub mod Laws
use pumpfun_solana_smart_con.Base.{
  ◌≡◌, refl, ◌∙◌, arith, ℕ, Bool, true, false, Option, List, ◌∷◌, ◌==◌, if◌then◌else◌,
}
use pumpfun_solana_smart_con.Rust.{Result, ok, err}
use pumpfun_solana_smart_con.Errors.{ContractError, Fault, contract}
use pumpfun_solana_smart_con.Curve.{Pubkey}
use pumpfun_solana_smart_con.Config.{Config}
use Prim.Native.String.{String}

pub record LaunchEvent : Type 0 where
  pub creator : Pubkey
  pub mint : Pubkey
  pub bonding_curve : Pubkey
  pub metadata : Pubkey
  pub decimals : ℕ
  pub token_supply : ℕ
  pub reserve_lamport : ℕ
  pub reserve_token : ℕ

pub record SwapEvent : Type 0 where
  pub user : Pubkey
  pub mint : Pubkey
  pub bonding_curve : Pubkey
  pub amount_in : ℕ
  pub direction : ℕ
  pub minimum_receive_amount : ℕ
  pub amount_out : ℕ
  pub virtual_sol_reserves : ℕ
  pub virtual_token_reserves : ℕ

pub record CompleteEvent : Type 0 where
  pub user : Pubkey
  pub mint : Pubkey
  pub bonding_curve : Pubkey

pub record MigrateEvent : Type 0 where
  pub token : Pubkey
  pub bonding_curve : Pubkey
  pub token_in : ℕ
  pub sol_in : ℕ
  pub lp_mint : Pubkey

pub data Event : Type 0 where
  launch : LaunchEvent → Event
  swapped : SwapEvent → Event
  complete : CompleteEvent → Event
  migrated : MigrateEvent → Event

-- The accounts by key: lamports, owner and data of each; of mints the supply and the authority, of
-- token accounts the amount; and the events so far, the last one first.
pub record World : Type 0 where
  pub lamports : Pubkey → ℕ
  pub owner : Pubkey → Pubkey
  pub account_data : Pubkey → List ℕ
  pub supply : Pubkey → ℕ
  pub mint_authority : Pubkey → Option Pubkey
  pub token_amount : Pubkey → ℕ
  pub events : List Event

abbrev pub update {ℓ} : {A : Type ℓ} → (Pubkey → A) → Pubkey → A → Pubkey → A
update f k v j = if j == k then v else f j

-- The calls that the code makes.
pub data Call : Type 0 where
  transfer : (from to : Pubkey) (amount : ℕ) → Call
  create_account : (from to : Pubkey) (cost space : ℕ) (owner : Pubkey) → Call
  create_ata : (payer associated_token authority mint : Pubkey) → Call
  mint_to : (mint to authority : Pubkey) (amount : ℕ) → Call
  create_metadata :
      (metadata mint mint_authority payer update_authority : Pubkey) (name symbol uri : String)
      → Call
  set_mint_authority : (mint current : Pubkey) (new : Option Pubkey) → Call
  token_transfer : (from to authority : Pubkey) (amount : ℕ) → Call

-- The seeds that a call is signed with, beside the signers of the transaction: a word and a bump.
abbrev pub Seeds : Type 0
Seeds = Option (String × ℕ)

-- The called programs, the crates and the generated code. `crate_id` is what `declare_id!` makes;
-- `try_to_vec`, `deserialize` and `discriminator` are derived for `Config`.
pub record Runtime : Type 0 where
  pub invoke : Seeds → Call → World → Result Fault World
  pub realloc : Pubkey → ℕ → World → Result Fault World
  pub minimum_balance : ℕ → ℕ
  pub crate_id : Pubkey
  pub discriminator : List ℕ
  pub try_to_vec : Config → Result Fault (List ℕ)
  pub deserialize : List ℕ → Result Fault Config

-- A handler: the transaction is undone by the machine when it fails, so no state comes with a
-- fault.
abbrev pub Run : Type 0 → Type 0
Run A = World → Result Fault (A × World)

infixl 5 ◌>>=◌ ◌>>◌
abbrev pub ◌>>=◌ : {A B : Type 0} → Run A → (A → Run B) → Run B
◌>>=◌ m f w = elim (m w) [ ok (a, w') ↦ f a w' | err e ↦ err e ]

abbrev pub ◌>>◌ : {A B : Type 0} → Run A → Run B → Run B
m >> k = m >>= λ _. k

abbrev pub pure : {A : Type 0} → A → Run A
pure a w = ok (a, w)

abbrev pub gets : {A : Type 0} → (World → A) → Run A
gets f w = ok (f w, w)

abbrev pub lift : {A : Type 0} → Result Fault A → Run A
lift (ok a) w = ok (a, w)
lift (err e) w = err e

-- A result of the program's own functions, as `?` converts it.
abbrev pub check : {A : Type 0} → Result ContractError A → Run A
check (ok a) w = ok (a, w)
check (err e) w = err (contract e)

abbrev pub fail : {A : Type 0} → Fault → Run A
fail e w = err e

-- `require!(cond, error)`
abbrev pub require : Bool → ContractError → Run (Unit {0})
require true e w = ok (tt, w)
require false e w = err (contract e)

-- A step that answers with the new machine alone.
abbrev pub step : (World → Result Fault World) → Run (Unit {0})
step f w = elim (f w) [ ok w' ↦ ok (tt, w') | err e ↦ err e ]

abbrev pub emit : Event → Run (Unit {0})
emit e w = ok (tt, record w { events = e ∷ w.events })

-- What a successful chain has done, step by step.
pub >>=-eq-ok :
    {A B : Type 0} (m : Run A) (f : A → Run B) (w : World) {r : B × World}
    → (m >>= f) w ≡ ok r
    → (a : A) × (v : World) × (m w ≡ ok (a, v)) × (f a v ≡ ok r)
>>=-eq-ok {A} {B} m f w {r} e = inspect (m w) refl e
  where
    inspect :
        (x : Result Fault (A × World))
        → m w ≡ x
        → elim x [ ok (a, w') ↦ f a w' | err e ↦ err e ] ≡ ok r
        → (a : A) × (v : World) × (m w ≡ ok (a, v)) × (f a v ≡ ok r)
    inspect (ok (a, v)) q h = (a, v, q, h)
    inspect (err e) q h = cc

pub step-eq-ok :
    (f : World → Result Fault World) (w : World) {r : Unit {0} × World}
    → step f w ≡ ok r
    → f w ≡ ok r.1
step-eq-ok f w {r} e = inspect (f w) refl e
  where
    inspect :
        (x : Result Fault World)
        → f w ≡ x
        → elim x as (λ _. Result Fault (Unit {0} × World)) [ ok w' ↦ ok (tt, w') | err e ↦ err e ]
          ≡ ok r
        → f w ≡ ok r.1
    inspect (ok v) q h = q ∙ ground arith
    inspect (err e) q h = cc

-- Two calls in a row.
pub step-then :
    {B : Type 0} (f : World → Result Fault World) (k : Run B) (w : World) {r : B × World}
    → (step f >> k) w ≡ ok r
    → (v : World) × (f w ≡ ok v) × (k v ≡ ok r)
step-then f k w e =
    let (_, v, m, rest) = >>=-eq-ok (step f) (λ _. k) w e in (v, step-eq-ok f w m, rest)
