-- ===== src/Amm/Bytes.antt =====
-- `to_le_bytes` and `from_le_bytes` of Rust's unsigned integers, at every width, and the readers
-- `unpack_u8` and `unpack_u64` of programs/pump-raydium/src/amm_instruction.rs.
use pumpfun_solana_smart_con.Base.{
  ℕ, zero, suc, ◌+◌, ◌*◌, ◌/◌, ◌%◌, ◌^◌, ◌≤◌, ◌<◌, ◌≡◌, refl, sym, inl, inr, List, [], ◌∷◌, ◌++◌,
  length, take, drop, All, leb, ◌==◌, if◌then◌else◌, arith, length-append, take-append, drop-append,
  length-take, take-append-drop, All-take, All-drop, Bool-cases, leb→le,
}
use pumpfun_solana_smart_con.Rust.{IsU8, Result, ok, err}
use pumpfun_solana_smart_con.Amm.{ProgramError, invalid_instruction_data}
use native.Mathlib.Nat.{pow-suc}

-- The `n` bytes of a number, the lowest first.
unfoldable pub le_bytes : ℕ → ℕ → List ℕ
le_bytes zero x = []
le_bytes (suc n) x = (x % 256) ∷ le_bytes n (x / 256)

abbrev pub to_le_bytes : ℕ → List ℕ
to_le_bytes = le_bytes 8

unfoldable pub from_le_bytes : List ℕ → ℕ
from_le_bytes [] = 0
from_le_bytes (b ∷ bs) = b + 256 * from_le_bytes bs

-- `slice.try_into().ok().map(from_le_bytes).ok_or(InvalidInstructionData)`, for an array of `n`.
abbrev array_value : ℕ → List ℕ → Result ProgramError ℕ
array_value n slice =
    if length slice == n then ok (from_le_bytes slice) else err invalid_instruction_data

infixl 5 ◌>>=◌
-- `?` on a `Result` of this file.
abbrev pub ◌>>=◌ {ℓ κ} :
    {A : Type ℓ} {B : Type κ}
    → Result ProgramError A
    → (A → Result ProgramError B)
    → Result ProgramError B
ok a >>= f = f a
err e >>= f = err e

pub >>=-eq-ok {ℓ κ} :
    {A : Type ℓ} {B : Type κ} (m : Result ProgramError A) (f : A → Result ProgramError B) {b : B}
    → (m >>= f) ≡ ok b
    → (a : A) × (m ≡ ok a) × (f a ≡ ok b)
>>=-eq-ok (ok a) f e = (a, refl, e)
>>=-eq-ok (err x) f e = cc

-- What the two readers share: they differ in the width alone.
unfoldable pub unpack_bytes : ℕ → List ℕ → Result ProgramError (ℕ × List ℕ)
unpack_bytes n input =
    let value = array_value n (take n input) >>= (λ amount. ok (amount, drop n input)) in
    if leb n (length input) then value else err invalid_instruction_data

unfoldable pub unpack_u8 : List ℕ → Result ProgramError (ℕ × List ℕ)
unpack_u8 input = unpack_bytes 1 input

unfoldable pub unpack_u64 : List ℕ → Result ProgramError (ℕ × List ℕ)
unpack_u64 input = unpack_bytes 8 input

pub length-le_bytes : (n x : ℕ) → length (le_bytes n x) ≡ n
unfolding le_bytes
length-le_bytes zero x = refl
length-le_bytes (suc n) x = omega (arith, length-le_bytes n (x / 256))

pub le_bytes-IsU8 : (n x : ℕ) → All IsU8 (le_bytes n x)
unfolding le_bytes
le_bytes-IsU8 zero x = tt
le_bytes-IsU8 (suc n) x = (omega arith, le_bytes-IsU8 n (x / 256))

pub from_le_bytes-le_bytes : (n x : ℕ) → x < 256 ^ n → from_le_bytes (le_bytes n x) ≡ x
unfolding le_bytes from_le_bytes
from_le_bytes-le_bytes zero x h = omega arith
from_le_bytes-le_bytes (suc n) x h =
    let small : x / 256 < 256 ^ n = omega (arith, pow-suc 256 n) in
    omega (arith, from_le_bytes-le_bytes n (x / 256) small)

pub le_bytes-from_le_bytes :
    (bs : List ℕ) → All IsU8 bs → le_bytes (length bs) (from_le_bytes bs) ≡ bs
unfolding le_bytes from_le_bytes
le_bytes-from_le_bytes [] h = refl
le_bytes-from_le_bytes (b ∷ bs) (hb, hs) =
    let low : (b + 256 * from_le_bytes bs) % 256 ≡ b = omega arith in
    let high : (b + 256 * from_le_bytes bs) / 256 ≡ from_le_bytes bs = omega arith in
    rw (low, high, le_bytes-from_le_bytes bs hs)

pub from_le_bytes-lt : (bs : List ℕ) → All IsU8 bs → from_le_bytes bs < 256 ^ length bs
unfolding from_le_bytes
from_le_bytes-lt [] h = omega arith
from_le_bytes-lt (b ∷ bs) (hb, hs) = omega (arith, pow-suc 256 (length bs), from_le_bytes-lt bs hs)

unpack_bytes-append :
    (bs rest : List ℕ) → unpack_bytes (length bs) (bs ++ rest) ≡ ok (from_le_bytes bs, rest)
unfolding unpack_bytes
unpack_bytes-append bs rest =
    ground (arith, take-append bs rest, drop-append bs rest, length-append bs rest)

-- A reader takes back the bytes that were written, and leaves what follows them.
pub unpack_bytes-le_bytes :
    (n x : ℕ) (rest : List ℕ) → x < 256 ^ n → unpack_bytes n (le_bytes n x ++ rest) ≡ ok (x, rest)
unpack_bytes-le_bytes n x rest h = ground (
  arith,
  unpack_bytes-append (le_bytes n x) rest,
  length-le_bytes n x,
  from_le_bytes-le_bytes n x h,
)

-- A reader answers when there are bytes enough, and else is refused.
pub unpack_bytes_short :
    (n : ℕ) (input : List ℕ)
    → length input < n
    → unpack_bytes n input ≡ err invalid_instruction_data
unfolding unpack_bytes
unpack_bytes_short n input h = ground arith

pub unpack_bytes_long :
    (n : ℕ) (input : List ℕ)
    → n ≤ length input
    → unpack_bytes n input ≡ ok (from_le_bytes (take n input), drop n input)
unfolding unpack_bytes
unpack_bytes_long n input h = ground (arith, length-take n input h)

-- A reader that answers has read the bytes of its value from the front of the input.
pub unpack_bytes_inv :
    (n : ℕ) (input : List ℕ) {v : ℕ} {rest : List ℕ}
    → All IsU8 input
    → unpack_bytes n input ≡ ok (v, rest)
    → (input ≡ le_bytes n v ++ rest) × (v < 256 ^ n) × All IsU8 rest
unpack_bytes_inv n input {v} {rest} h e = elim (Bool-cases (leb n (length input))) [
  | inr short ↦ cc (unpack_bytes_short n input (ground arith), e)
  | inl enough ↦
      let fits : n ≤ length input = leb→le n (length input) enough in
      let front = take n input in
      let whole : length front ≡ n = length-take n input fits in
      let is_front : All IsU8 front = All-take IsU8 n input h in
      let read = unpack_bytes_long n input fits in
      let value : v ≡ from_le_bytes front = ground (arith, read) in
      let left : rest ≡ drop n input = ground (arith, read) in
      let bytes : le_bytes n v ≡ front =
        rw (value) (rw whole at (le_bytes-from_le_bytes front is_front)) in
      (
        rw (bytes, left) (sym (take-append-drop n input)),
        rw value (rw whole at (from_le_bytes-lt front is_front)),
        rw left (All-drop IsU8 n input h),
      )
]
