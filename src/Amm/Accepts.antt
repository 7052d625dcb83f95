-- ===== src/Amm/Accepts.antt =====
-- Which inputs `unpack` accepts and which instructions `pack` writes, in
-- programs/pump-raydium/src/amm_instruction.rs.
use pumpfun_solana_smart_con.Base.{
  ℕ, ◌+◌, ◌≤◌, ◌≡◌, ◌↔◌, refl, inl, inr, ◌∙◌, Bool-cases, leb→le, take, Bool, true, false, ◌&&◌,
  ◌||◌, List, [], ◌∷◌, ◌++◌, All, length, drop, leb, ◌==◌, arith, length-append, All-append,
  length-drop,
}
use pumpfun_solana_smart_con.Rust.{IsU8, Result, ok, err}
use pumpfun_solana_smart_con.Amm.{
  AmmInstruction, initialize2, deposit, withdraw, swap_base_in, swap_base_out, ProgramError,
  invalid_instruction_data,
}
use pumpfun_solana_smart_con.Amm.Bytes.{
  ◌>>=◌, from_le_bytes, to_le_bytes, length-le_bytes, le_bytes-IsU8, unpack_u8, unpack_u64,
  unpack_bytes, unpack_bytes_short, unpack_bytes_long,
}
use pumpfun_solana_smart_con.Amm.Codec.{
  unpack_initialize2, unpack_deposit, unpack_withdraw, unpack_swap_base_in, unpack_swap_base_out,
  unpack, pack_bytes, pack,
}
use pumpfun_solana_smart_con.Amm.RoundTrip.{IsPackable}

abbrev pub is_ok {ℓ} : {A : Type ℓ} → Result ProgramError A → Bool
is_ok (ok _) = true
is_ok (err _) = false

-- Five tags are known, and each wants a number of bytes behind it.
abbrev pub accepts : List ℕ → Bool
accepts [] = false
accepts (tag ∷ rest) =
    (tag == 1 && leb 25 (length rest))
    || (tag == 3 && leb 24 (length rest))
    || (tag == 4 && leb 8 (length rest))
    || (tag == 9 && leb 16 (length rest))
    || (tag == 11 && leb 16 (length rest))

-- A chain that begins by reading `n` bytes goes through if they are there and its rest does.
is_ok-then {ℓ} :
    {A : Type ℓ} (n : ℕ) (input : List ℕ) (f : ℕ × List ℕ → Result ProgramError A)
    → is_ok (unpack_bytes n input >>= f)
      ≡ (leb n (length input) && is_ok (f (from_le_bytes (take n input), drop n input)))
is_ok-then n input f = elim (Bool-cases (leb n (length input))) [
  | inl enough ↦ rw (enough, unpack_bytes_long n input (leb→le _ _ enough))
  | inr few ↦ rw (few, unpack_bytes_short n input (ground arith))
]

-- Reading on after `n` bytes.
leb-drop :
    (n m : ℕ) (input : List ℕ)
    → (leb n (length input) && leb m (length (drop n input))) ≡ leb (n + m) (length input)
leb-drop n m input = ground (arith, length-drop n input)

module _ (input : List ℕ) where
  is_ok-unpack_withdraw : is_ok (unpack_withdraw input) ≡ leb 8 (length input)
  unfolding unpack_withdraw unpack_u64
  is_ok-unpack_withdraw = is_ok-then 8 input _ ∙ ground arith

  is_ok-unpack_swap_base_in : is_ok (unpack_swap_base_in input) ≡ leb 16 (length input)
  unfolding unpack_swap_base_in unpack_u64
  is_ok-unpack_swap_base_in =
      is_ok-then 8 input _ ∙ rw is_ok-then (ground (arith, leb-drop 8 8 input))

  is_ok-unpack_swap_base_out : is_ok (unpack_swap_base_out input) ≡ leb 16 (length input)
  unfolding unpack_swap_base_out unpack_u64
  is_ok-unpack_swap_base_out =
      is_ok-then 8 input _ ∙ rw is_ok-then (ground (arith, leb-drop 8 8 input))

  is_ok-unpack_deposit : is_ok (unpack_deposit input) ≡ leb 24 (length input)
  unfolding unpack_deposit unpack_u64
  is_ok-unpack_deposit =
      is_ok-then 8 input _
      ∙ rw is_ok-then (
          rw is_ok-then
            (ground (arith, leb-drop 8 8 input, leb-drop 8 8 (drop 8 input), leb-drop 8 16 input)))

  is_ok-unpack_initialize2 : is_ok (unpack_initialize2 input) ≡ leb 25 (length input)
  unfolding unpack_initialize2 unpack_u64 unpack_u8
  is_ok-unpack_initialize2 =
      is_ok-then 1 input _
      ∙ rw is_ok-then (
          rw is_ok-then (
            rw is_ok-then (
              ground (
                arith,
                leb-drop 8 8 (drop 8 (drop 1 input)),
                leb-drop 8 16 (drop 1 input),
                leb-drop 1 24 input,
              ))))

-- `unpack` accepts an input exactly when its first byte is one of the five tags 1, 3, 4, 9 and 11
-- and as many bytes follow as the fields of that instruction take; else it answers
-- InvalidInstructionData.
pub is_ok-unpack : (input : List ℕ) → is_ok (unpack input) ≡ accepts input
unfolding unpack
is_ok-unpack [] = refl
is_ok-unpack (tag ∷ rest) = ground (
  arith,
  is_ok-unpack_initialize2 rest,
  is_ok-unpack_deposit rest,
  is_ok-unpack_withdraw rest,
  is_ok-unpack_swap_base_in rest,
  is_ok-unpack_swap_base_out rest,
)

word-IsU8 : (x : ℕ) → All IsU8 (to_le_bytes x)
word-IsU8 x = le_bytes-IsU8 8 x

words-IsU8 : (x : ℕ) (bs : List ℕ) → All IsU8 bs → All IsU8 (to_le_bytes x ++ bs)
words-IsU8 x bs h = All-append IsU8 (to_le_bytes x) bs (word-IsU8 x) h

length-word : (x : ℕ) → length (to_le_bytes x) ≡ 8
length-word x = length-le_bytes 8 x

length-words : (x : ℕ) (bs : List ℕ) → length (to_le_bytes x ++ bs) ≡ 8 + length bs
length-words x bs = omega (arith, length-append (to_le_bytes x) bs, length-word x)

-- What `pack` writes for an instruction with a wire format and fields in range is a string of
-- bytes, of at least 9 and at most 26.
pack_bytes-IsU8 :
    (i : AmmInstruction)
    → IsPackable i
    → All IsU8 (pack_bytes i) × (9 ≤ length (pack_bytes i)) × (length (pack_bytes i) ≤ 26)
unfolding pack_bytes
pack_bytes-IsU8 (initialize2 i) (h, _, _, _) =
    let bytes =
      words-IsU8 i.open_time _ (words-IsU8 i.init_pc_amount _ (word-IsU8 i.init_coin_amount)) in
    (
      (omega arith, (h, bytes)),
      omega (arith, length-words, length-word),
      omega (arith, length-words, length-word),
    )
pack_bytes-IsU8 (deposit d) h =
    let bytes =
      words-IsU8 d.max_coin_amount _ (words-IsU8 d.max_pc_amount _ (word-IsU8 d.base_side)) in
    (
      (omega arith, bytes),
      omega (arith, length-words, length-word),
      omega (arith, length-words, length-word),
    )
pack_bytes-IsU8 (withdraw w) h =
    ((omega arith, word-IsU8 w.amount), omega (arith, length-word), omega (arith, length-word))
pack_bytes-IsU8 (swap_base_in s) h = (
  (omega arith, words-IsU8 s.amount_in _ (word-IsU8 s.minimum_amount_out)),
  omega (arith, length-words, length-word),
  omega (arith, length-words, length-word),
)
pack_bytes-IsU8 (swap_base_out s) h = (
  (omega arith, words-IsU8 s.max_amount_in _ (word-IsU8 s.amount_out)),
  omega (arith, length-words, length-word),
  omega (arith, length-words, length-word),
)
pack_bytes-IsU8 _ h = absurd h

abbrev pub has_format : AmmInstruction → Bool
has_format (initialize2 _) = true
has_format (deposit _) = true
has_format (withdraw _) = true
has_format (swap_base_in _) = true
has_format (swap_base_out _) = true
has_format _ = false

-- `pack` never fails: it answers Ok with an empty buffer for the eight instructions without a wire
-- format, and only for these, and `unpack` refuses the empty buffer.
pack_silent :
    (i : AmmInstruction)
    → ((pack i ≡ ok []) ↔ (has_format i ≡ false))
      × (is_ok (pack i) ≡ true)
      × (unpack [] ≡ err invalid_instruction_data)
unfolding pack pack_bytes unpack
pack_silent (initialize2 i) = ground arith
pack_silent (deposit d) = ground arith
pack_silent _ = ground arith
