-- ===== src/Rust/Float/Rounding.antt =====
-- How far a rounded quotient is off, and when it is exact.
use pumpfun_solana_smart_con.Base.{
  ℕ, zero, suc, ◌+◌, ◌*◌, ◌/◌, ◌%◌, ◌^◌, ◌≤◌, ◌<◌, ◌≡◌, ◌⊎◌, inl, inr, refl, true, false, ltb,
  arith, Bool-cases, if◌then◌else◌, sym,
}
use pumpfun_solana_smart_con.Rust.Float.{grain, grain_fuel, rounds_up, round_by, rounded}
use native.Mathlib.Nat.{div-add-mod, mod-lt, mul-div_cancel, mul-mod_left, one-le-pow, pow-suc}

-- The grain of a quotient: it makes the quotient in fewer than 2 ^ 53 steps, and half of it would
-- not, unless it is the first one.
pub record Grains (n d g h : ℕ) : Type 0 where
  pub fine : n < d * h * 2 ^ 53
  pub coarse : (h ≡ g) ⊎ (d * h * 2 ^ 52 ≤ n)

wider : (fuel n e : ℕ) → n < e * 2 ^ 53 * 2 ^ suc fuel → n < 2 * e * 2 ^ 53 * 2 ^ fuel
wider fuel n e h =
    let more : 2 ^ suc fuel ≡ 2 ^ fuel * 2 = pow-suc 2 fuel in
    let known = rw more at h in grind arith

half_grain : (n d g h : ℕ) → h ≡ 2 * g → d * g * 2 ^ 53 ≤ n → d * h * 2 ^ 52 ≤ n
half_grain n d g h first large = rw first (omega arith)

-- Enough fuel finds it.
pub grain-Grains :
    (fuel n d g : ℕ) → n < d * g * 2 ^ 53 * 2 ^ fuel → Grains n d g (grain fuel n d g)
unfolding grain
grain-Grains zero n d g enough = record { fine = omega arith; coarse = inl refl }
grain-Grains (suc fuel) n d g enough = elim (Bool-cases (ltb n (d * g * 2 ^ 53))) [
  | inl small ↦ rw small (record { fine = ground arith; coarse = inl refl })
  | inr large ↦
      let rest = grain-Grains fuel n d (2 * g) (
        let double : d * (2 * g) ≡ 2 * (d * g) = omega arith in
        rw double (wider fuel n (d * g) enough)) in
      rw large (record {
        fine = rest.fine;
        coarse = inr (elim rest.coarse [
          | inl first ↦ half_grain n d g _ first (ground arith)
          | inr half ↦ half
        ]);
      })
]

-- A quotient to the nearest, over plain numbers: off by at most a 2 ^ 53rd part.
nearest :
    (q r e n s : ℕ)
    → q * e + r ≡ n
    → r < e
    → e * 2 ^ 52 ≤ n
    → ((s ≡ q) × (2 * r ≤ e)) ⊎ ((s ≡ q + 1) × (e ≤ 2 * r))
    → (2 ^ 53 * (s * e) ≤ 2 ^ 53 * n + n) × (2 ^ 53 * n ≤ 2 ^ 53 * (s * e) + n)
nearest q r e n s split small grains (inl (down, close)) =
    let same : s * e ≡ q * e = rw down refl in (omega arith, omega arith)
nearest q r e n s split small grains (inr (up, close)) =
    let same : s * e ≡ q * e + e = rw up (grind arith) in (omega arith, omega arith)

-- What a result of rounding says of its quotient, from 2 ^ 52 on.
pub record Near (n d x : ℕ) : Type 0 where
  pub above : 2 ^ 53 * (x * d) ≤ 2 ^ 53 * n + n
  pub below : 2 ^ 53 * n ≤ 2 ^ 53 * (x * d) + n

chosen :
    (q r e : ℕ)
    → (((if rounds_up q r e then q + 1 else q) ≡ q) × (2 * r ≤ e))
      ⊎ (((if rounds_up q r e then q + 1 else q) ≡ q + 1) × (e ≤ 2 * r))
chosen q r e = elim (Bool-cases (rounds_up q r e)) [
  | inl up ↦ inr (rw up refl, ground arith)
  | inr down ↦ inl (rw down refl, ground arith)
]

coarse_enough : (n d h : ℕ) → d * 2 ^ 52 ≤ n → (h ≡ 1) ⊎ (d * h * 2 ^ 52 ≤ n) → d * h * 2 ^ 52 ≤ n
coarse_enough n d h normal (inl first) = rw first (omega arith)
coarse_enough n d h normal (inr half) = half

round_by-Near : (n d h : ℕ) → d * 2 ^ 52 ≤ n → Grains n d 1 h → Near n d (round_by n d h)
round_by-Near n d h normal g =
    let e = d * h in
    let pos : 0 < e = omega (arith, g.fine) in
    let q = n / e in
    let r = n % e in
    let coarse : e * 2 ^ 52 ≤ n = coarse_enough n d h normal g.coarse in
    let s : ℕ = if rounds_up q r e then q + 1 else q in
    let (above, below) =
      nearest q r e n s (omega (arith, div-add-mod n e)) (mod-lt n pos) coarse (chosen q r e) in
    let same : s * h * d ≡ s * e = grind arith in
    record { above = rw same above; below = rw same below }

-- Rounding is off by at most a 2 ^ 53rd part, where the quotient is normal.
pub rounded-Near :
    (n d : ℕ) → d * 2 ^ 52 ≤ n → n < d * 2 ^ 53 * 2 ^ grain_fuel → Near n d (rounded n d)
unfolding rounded
rounded-Near n d normal finite =
    round_by-Near n d (grain grain_fuel n d 1) normal
      (grain-Grains grain_fuel n d 1 (let one : d * 1 ≡ d = omega arith in rw one finite))

few_grains : (v g : ℕ) → v < 2 ^ 53 → 0 < g → v * g < 1 * g * 2 ^ 53
few_grains v g few pos = grind arith

factor_pos : (c h : ℕ) → 0 < c * h → 0 < h
factor_pos c zero pos = absurd (omega arith)
factor_pos c (suc h) pos = omega arith

-- The grain of a multiple of a power of two divides that power, as long as the factor has at most
-- 53 digits.
grain_divides :
    (fuel j v k g : ℕ)
    → v < 2 ^ 53
    → 0 < g
    → k ≡ 2 ^ j * g
    → (c : ℕ) × (k ≡ c * grain fuel (v * k) 1 g)
unfolding grain
grain_divides zero j v k g few pos e = (2 ^ j, e)
grain_divides (suc fuel) zero v k g few pos e =
    let small : ltb (v * k) (1 * g * 2 ^ 53) ≡ true =
      let same : k ≡ g = omega (arith, e) in rw same (ground (arith, few_grains v g few pos)) in
    rw small (1, omega (arith, e))
grain_divides (suc fuel) (suc j) v k g few pos e =
    elim (Bool-cases (ltb (v * k) (1 * g * 2 ^ 53))) [
      | inl small ↦ rw small (2 ^ suc j, e)
      | inr large ↦ rw large (
          grain_divides fuel j v k (2 * g) few (omega arith)
            (let more = pow-suc 2 j in let known = rw more at e in grind arith))
    ]

round_by-exact : (c v k h : ℕ) → 0 < k → k ≡ c * h → round_by (v * k) 1 h ≡ v * k
round_by-exact c v k h pos e =
    let some_grain : 0 < h = factor_pos c h (rw (sym e) pos) in
    let one : 1 * h ≡ h = omega arith in
    let whole : v * k ≡ v * c * h = rw e (grind arith) in
    let q : v * k / h ≡ v * c = rw whole (mul-div_cancel (v * c) some_grain) in
    let r : v * k % h ≡ 0 = rw whole (mul-mod_left (v * c) h) in
    let down : rounds_up (v * c) 0 h ≡ false = ground arith in rw (one, q, r) (rw down (sym whole))

-- Rounding leaves a multiple of a power of two alone, if the factor has at most 53 digits.
pub rounded-exact : (j v k : ℕ) → v < 2 ^ 53 → k ≡ 2 ^ j → rounded (v * k) 1 ≡ v * k
unfolding rounded
rounded-exact j v k few e =
    let (c, same) = grain_divides grain_fuel j v k 1 few (omega arith) (omega arith) in
    round_by-exact c v k (grain grain_fuel (v * k) 1 1)
      (omega (arith, one-le-pow j 2 (omega arith))) same
