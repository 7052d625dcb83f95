-- ===== src/Amm/RoundTrip.antt =====
-- `pack` and `unpack` of programs/pump-raydium/src/amm_instruction.rs one after the other.
use pumpfun_solana_smart_con.Base.{
  ℕ, ◌%◌, ◌≡◌, ◌⊎◌, inl, inr, subst, List, [], ◌∷◌, ◌++◌, All, arith,
}
use pumpfun_solana_smart_con.Rust.{IsU8, IsU64, Result, ok}
use pumpfun_solana_smart_con.Amm.{
  AmmInstruction, initialize2, deposit, withdraw, swap_base_in, swap_base_out, ProgramError,
}
use pumpfun_solana_smart_con.Amm.Bytes.{
  ◌>>=◌, >>=-eq-ok, le_bytes, from_le_bytes, to_le_bytes, unpack_u8, unpack_u64, unpack_bytes,
  unpack_bytes-le_bytes, unpack_bytes_inv, unpack_bytes_long,
}
use pumpfun_solana_smart_con.Amm.Codec.{
  unpack_initialize2, unpack_deposit, unpack_withdraw, unpack_swap_base_in, unpack_swap_base_out,
  unpack, pack_bytes,
}
use mathlib.Core.List.{append_assoc}

-- The instructions that have a wire format, with fields in the range of their types.
abbrev pub IsPackable : AmmInstruction → Type 0
IsPackable (initialize2 i) =
    IsU8 i.nonce × IsU64 i.open_time × IsU64 i.init_pc_amount × IsU64 i.init_coin_amount
IsPackable (deposit d) = IsU64 d.max_coin_amount × IsU64 d.max_pc_amount × IsU64 d.base_side
IsPackable (withdraw w) = IsU64 w.amount
IsPackable (swap_base_in s) = IsU64 s.amount_in × IsU64 s.minimum_amount_out
IsPackable (swap_base_out s) = IsU64 s.max_amount_in × IsU64 s.amount_out
IsPackable _ = ⊥

read_u64 : (x : ℕ) (rest : List ℕ) → IsU64 x → unpack_u64 (to_le_bytes x ++ rest) ≡ ok (x, rest)
unfolding unpack_u64
read_u64 x rest h = unpack_bytes-le_bytes 8 x rest (omega arith)

read_u8 : (x : ℕ) (rest : List ℕ) → IsU8 x → unpack_u8 (x ∷ rest) ≡ ok (x, rest)
unfolding unpack_u8 from_le_bytes
read_u8 x rest h = ground (arith, unpack_bytes_long 1 (x ∷ rest))

-- What `pack` wrote for an instruction that has a wire format, with fields in range, `unpack`
-- reads back, whatever bytes follow.
pub unpack-pack :
    (i : AmmInstruction) (rest : List ℕ) → IsPackable i → unpack (pack_bytes i ++ rest) ≡ ok i
unfolding unpack pack_bytes unpack_initialize2 unpack_deposit unpack_withdraw unpack_swap_base_in
    unpack_swap_base_out
unpack-pack (initialize2 i) rest (h, h1, h2, h3) =
    simp (append_assoc, read_u8, read_u64, h, h1, h2, h3)
unpack-pack (deposit d) rest (h1, h2, h3) = simp (append_assoc, read_u64, h1, h2, h3)
unpack-pack (withdraw w) rest h = simp (read_u64, h)
unpack-pack (swap_base_in s) rest (h, k) = simp (append_assoc, read_u64, h, k)
unpack-pack (swap_base_out s) rest (h, k) = simp (append_assoc, read_u64, h, k)
unpack-pack _ rest h = absurd h

-- A successful chain that begins by reading a value splits the input there.
then-IsU64 :
    (input : List ℕ) (f : ℕ × List ℕ → Result ProgramError AmmInstruction) {i : AmmInstruction}
    → All IsU8 input
    → (unpack_u64 input >>= f) ≡ ok i
    → (v : ℕ) × (r : List ℕ) × (input ≡ to_le_bytes v ++ r)
      × IsU64 v
      × All IsU8 r
      × (f (v, r) ≡ ok i)
unfolding unpack_u64
then-IsU64 input f h e =
    let (p, read, next) = >>=-eq-ok (unpack_bytes 8 input) f e in
    let (front, small, bytes) = unpack_bytes_inv 8 input h read in
    (p.0, p.1, front, omega arith, bytes, next)

then-IsU8 :
    (input : List ℕ) (f : ℕ × List ℕ → Result ProgramError AmmInstruction) {i : AmmInstruction}
    → All IsU8 input
    → (unpack_u8 input >>= f) ≡ ok i
    → (v : ℕ) × (r : List ℕ) × (input ≡ v ∷ r) × IsU8 v × All IsU8 r × (f (v, r) ≡ ok i)
unfolding unpack_u8 le_bytes
then-IsU8 input f h e =
    let (p, read, next) = >>=-eq-ok (unpack_bytes 1 input) f e in
    let (front, small, bytes) = unpack_bytes_inv 1 input h read in
    let byte : p.0 % 256 ≡ p.0 = omega arith in
    (p.0, p.1, rw byte at front, omega arith, bytes, next)

-- `i` packs to the front of the bytes `input`.
abbrev Reads : List ℕ → AmmInstruction → Type 0
Reads input i = IsPackable i × ((rest : List ℕ) × (pack_bytes i ++ rest ≡ input))

ok_injective :
    {i j : AmmInstruction} → ◌≡◌ {A = Result ProgramError AmmInstruction} (ok i) (ok j) → i ≡ j
ok_injective e = cc

module _ (rest : List ℕ) {i : AmmInstruction} (h : All IsU8 rest) where
  unpack_deposit-Reads : unpack_deposit rest ≡ ok i → Reads (3 ∷ rest) i
  unfolding unpack_deposit pack_bytes
  unpack_deposit-Reads e =
      let (x, r1, b1, s1, h1, e1) = then-IsU64 rest _ h e in
      let (y, r2, b2, s2, h2, e2) = then-IsU64 r1 _ h1 e1 in
      let (z, r3, b3, s3, h3, e3) = then-IsU64 r2 _ h2 e2 in
      subst (Reads (3 ∷ rest)) (ok_injective e3)
        ((s1, s2, s3), (r3, simp append_assoc (cc (b1, b2, b3))))

  unpack_withdraw-Reads : unpack_withdraw rest ≡ ok i → Reads (4 ∷ rest) i
  unfolding unpack_withdraw pack_bytes
  unpack_withdraw-Reads e =
      let (x, r1, b1, s1, h1, e1) = then-IsU64 rest _ h e in
      subst (Reads (4 ∷ rest)) (ok_injective e1) (s1, (r1, cc b1))

  unpack_swap_base_in-Reads : unpack_swap_base_in rest ≡ ok i → Reads (9 ∷ rest) i
  unfolding unpack_swap_base_in pack_bytes
  unpack_swap_base_in-Reads e =
      let (x, r1, b1, s1, h1, e1) = then-IsU64 rest _ h e in
      let (y, r2, b2, s2, h2, e2) = then-IsU64 r1 _ h1 e1 in
      subst (Reads (9 ∷ rest)) (ok_injective e2) ((s1, s2), (r2, simp append_assoc (cc (b1, b2))))

  unpack_swap_base_out-Reads : unpack_swap_base_out rest ≡ ok i → Reads (11 ∷ rest) i
  unfolding unpack_swap_base_out pack_bytes
  unpack_swap_base_out-Reads e =
      let (x, r1, b1, s1, h1, e1) = then-IsU64 rest _ h e in
      let (y, r2, b2, s2, h2, e2) = then-IsU64 r1 _ h1 e1 in
      subst (Reads (11 ∷ rest)) (ok_injective e2) ((s1, s2), (r2, simp append_assoc (cc (b1, b2))))

  unpack_initialize2-Reads : unpack_initialize2 rest ≡ ok i → Reads (1 ∷ rest) i
  unfolding unpack_initialize2 pack_bytes
  unpack_initialize2-Reads e =
      let (n, r0, b0, s0, h0, e0) = then-IsU8 rest _ h e in
      let (x, r1, b1, s1, h1, e1) = then-IsU64 r0 _ h0 e0 in
      let (y, r2, b2, s2, h2, e2) = then-IsU64 r1 _ h1 e1 in
      let (z, r3, b3, s3, h3, e3) = then-IsU64 r2 _ h2 e2 in
      subst (Reads (1 ∷ rest)) (ok_injective e3)
        ((s0, s1, s2, s3), (r3, simp append_assoc (cc (b0, b1, b2, b3))))

unpack_arms :
    (tag : ℕ) (rest : List ℕ) {i : AmmInstruction}
    → unpack (tag ∷ rest) ≡ ok i
    → ((tag ≡ 1) × (unpack_initialize2 rest ≡ ok i))
      ⊎ ((tag ≡ 3) × (unpack_deposit rest ≡ ok i))
      ⊎ ((tag ≡ 4) × (unpack_withdraw rest ≡ ok i))
      ⊎ ((tag ≡ 9) × (unpack_swap_base_in rest ≡ ok i))
      ⊎ ((tag ≡ 11) × (unpack_swap_base_out rest ≡ ok i))
unfolding unpack
unpack_arms tag rest e = ground arith

-- The instruction that `unpack` reads from a byte string has a wire format and fields in range,
-- and packs to the front of that string: no two encodings are read as one instruction.
pub pack-unpack :
    (input : List ℕ) {i : AmmInstruction}
    → All IsU8 input
    → unpack input ≡ ok i
    → IsPackable i × ((rest : List ℕ) × (pack_bytes i ++ rest ≡ input))
pack-unpack [] h e = unfold unpack in cc
pack-unpack (tag ∷ rest) {i} (_, h) e = elim (unpack_arms tag rest e) [
  | inl (t, a) ↦ rw t (unpack_initialize2-Reads rest h a)
  | inr (inl (t, a)) ↦ rw t (unpack_deposit-Reads rest h a)
  | inr (inr (inl (t, a))) ↦ rw t (unpack_withdraw-Reads rest h a)
  | inr (inr (inr (inl (t, a)))) ↦ rw t (unpack_swap_base_in-Reads rest h a)
  | inr (inr (inr (inr (t, a)))) ↦ rw t (unpack_swap_base_out-Reads rest h a)
]
