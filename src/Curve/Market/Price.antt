-- ===== src/Curve/Market/Price.antt =====
-- The prices of programs/pump-raydium/src/state/bondingcurve.rs as least and greatest numbers.
use pumpfun_solana_smart_con.Base.{
  ℕ, ◌+◌, ◌-◌, ◌*◌, ◌/◌, ◌≤◌, ◌<◌, ◌≡◌, inl, inr, arith, ltb, Bool-cases,
}
use pumpfun_solana_smart_con.Curve.{BondingCurve}
use pumpfun_solana_smart_con.Curve.Quote.Price.{buy_price, sell_price, share-le, sold_share}
use pumpfun_solana_smart_con.Curve.Quote.Product.{div_bracket}
use pumpfun_solana_smart_con.Curve.Update.{total_raise}
use pumpfun_solana_smart_con.Curve.Update.Buy.{final_price}
use pumpfun_solana_smart_con.Curve.Market.{view, IsLeast, IsGreatest, Covers}
use native.Mathlib.Nat.{le-div_iff_mul-le, div-le_of_le-mul}

-- A product that grows with its first factor.
mul_mono : {x y : ℕ} (d : ℕ) → x ≤ y → x * d ≤ y * d
mul_mono d p = grind arith

pub IsLeast-unique : {P : ℕ → Type 0} {m n : ℕ} → IsLeast P m → IsLeast P n → m ≡ n
IsLeast-unique {m = m} {n = n} a b =
    let x = a.below n b.holds in let y = b.below m a.holds in omega arith

pub IsGreatest-unique : {P : ℕ → Type 0} {m n : ℕ} → IsGreatest P m → IsGreatest P n → m ≡ n
IsGreatest-unique {m = m} {n = n} a b =
    let x = a.above n b.holds in let y = b.above m a.holds in omega arith

-- More tokens left cover as well.
pub Covers-mono :
    (c : BondingCurve) (a : ℕ) {x y : ℕ} → x ≤ y → Covers (view c) a x → Covers (view c) a y
Covers-mono c a {x} {y} h k =
    let more : (1000 * x + 1) * (c.virtual_sol_reserves + a)
        ≤ (1000 * y + 1) * (c.virtual_sol_reserves + a) =
      mul_mono (c.virtual_sol_reserves + a) (omega arith) in
    omega arith

-- A quotient `q` with `1000 x` between it and the next thousand decides what covers.
IsLeast-cover :
    (n d q x : ℕ)
    → q * d ≤ n
    → n < q * d + d
    → q ≤ 1000 * x
    → 1000 * x < q + 1000
    → IsLeast (λ y. n < (1000 * y + 1) * d) x
IsLeast-cover n d q x lo hi l h = record {
  holds = let m : (q + 1) * d ≤ (1000 * x + 1) * d = mul_mono d (omega arith) in omega arith;
  below = λ y covers. elim (Bool-cases (ltb y x)) [
    | inl less ↦
        let m : (1000 * y + 1) * d ≤ q * d = mul_mono d (ground arith) in absurd (omega arith)
    | inr not_less ↦ ground arith
  ];
}

-- The tokens left by the quoted price are the least that cover.
pub buy_price-IsLeast :
    (c : BondingCurve) (a : ℕ)
    → 0 < a
    → IsLeast (Covers (view c) a) (c.virtual_token_reserves - buy_price c a)
buy_price-IsLeast c a pos =
    let s = c.virtual_sol_reserves in
    let t = c.virtual_token_reserves in
    let (lo, hi) = div_bracket (s * (1000 * t)) (s + a) (omega arith) in
    let share : s * (1000 * t) / (s + a) ≤ 1000 * t = share-le s (1000 * t) a in
    IsLeast-cover (1000 * (s * t)) (s + a) (s * (1000 * t) / (s + a)) (t - buy_price c a)
      (omega arith) (omega arith) (omega arith) (omega arith)

pub sell_price-IsGreatest :
    (c : BondingCurve) (n : ℕ)
    → 0 < n
    → IsGreatest
        (λ x.
          x * (c.virtual_token_reserves + n) ≤ c.virtual_sol_reserves * c.virtual_token_reserves)
        (c.virtual_sol_reserves - sell_price c n)
sell_price-IsGreatest c n pos =
    let s = c.virtual_sol_reserves in
    let t = c.virtual_token_reserves in
    let share = sold_share s t n in
    let left : s - sell_price c n ≡ s * t / (t + n) = omega arith in
    rw left (record {
      holds = (le-div_iff_mul-le (omega arith)).0 (omega arith);
      above = λ x h. (le-div_iff_mul-le (omega arith)).1 h;
    })

-- Of a share `R L / V` that stays behind, what is taken is the share of the rest, rounded up.
rest_share :
    (R L V rest : ℕ) → 0 < V → L + rest ≡ V → IsLeast (λ x. R * rest ≤ x * V) (R - R * L / V)
rest_share R L V rest pos split =
    let (lo, hi) = div_bracket (R * L) V pos in
    let whole : R * V ≡ R * L + R * rest = grind arith in
    let share : R * L / V ≤ R = div-le_of_le-mul V (grind arith) in
    let parts : (R - R * L / V) * V + R * L / V * V ≡ R * V = grind arith in
    record {
      holds = omega arith;
      below = λ x h. elim (Bool-cases (ltb x (R - R * L / V))) [
        | inl less ↦
            let m : (x + (R * L / V + 1)) * V ≤ R * V = mul_mono V (ground arith) in
            absurd (grind arith)
        | inr not_less ↦ ground arith
      ];
    }

-- The last tokens cost their share of the total raise, rounded up.
pub final_price-IsLeast :
    (c : BondingCurve)
    → 0 < c.real_token_reserves
    → c.real_token_reserves ≤ c.virtual_token_reserves
    → IsLeast
        (λ x. total_raise * c.real_token_reserves ≤ x * c.virtual_token_reserves)
        (final_price c)
final_price-IsLeast c pos held =
    let left = c.virtual_token_reserves - c.real_token_reserves in
    let all : left + c.real_token_reserves ≡ c.virtual_token_reserves = omega arith in
    rw all
      (rest_share total_raise left c.virtual_token_reserves c.real_token_reserves (omega arith) all)
