-- ===== src/Gateway/Cost/Rounding.antt =====
-- Costs are rounded to the nearest unit, as long as the product stays within 64 bits.
use aiyolo.Base.{ℕ, zero, suc, ◌+◌, ◌-◌, ◌*◌, ◌/◌, ◌≤◌, ◌<◌, ◌≡◌, arith, if◌then◌else◌}
use aiyolo.Base.Int.{
  pos, ◌+ℤ◌, ◌-ℤ◌, ◌*ℤ◌, ◌≤ℤ◌, ◌<ℤ◌, quot, wrap64, IsInt64, wrap64_of_IsInt64, ltb_ℤ, pos_plus,
  pos_times, difference-IsInt64, quot_negative,
}
use aiyolo.Gateway.Cost.{cost_for_tokens, remaining_budget}

-- A price and a number of tokens whose product, with the half unit added, fits 64 bits.
abbrev pub Fits : ℕ → ℕ → Type 0
Fits price tokens = price * tokens + 500000 < 9223372036854775808

cost_of_Fits :
    (p t : ℕ) → Fits p t → cost_for_tokens (pos p) (pos t) ≡ pos ((p * t + 500000) / 1000000)
unfolding cost_for_tokens quot
cost_of_Fits zero t h = ground arith
cost_of_Fits (suc p) zero h = ground arith
cost_of_Fits (suc p) (suc t) h =
    rw
      (
        pos_times (suc p) (suc t),
        wrap64_of_IsInt64 (pos (suc p * suc t)) (omega arith),
        pos_plus (suc p * suc t) 500000,
        wrap64_of_IsInt64 (pos (suc p * suc t + 500000)) (omega arith),
      )
      (ground arith)

overflow_negative :
    (n : ℕ)
    → 9223372036854775808 ≤ n + 500000
    → n + 500000 < 18446744073709551616
    → wrap64 (wrap64 (pos n) +ℤ pos 500000) <ℤ pos 0
unfolding wrap64 ◌+ℤ◌
overflow_negative n lo hi = ground arith

-- Within 64 bits a cost is the price times the tokens, in millionths, rounded to the nearest unit and
-- halves up; without a price or without tokens it is 0.
pub cost_nearest :
    (p t : ℕ)
    → Fits p t
    → (c : ℕ) × (cost_for_tokens (pos p) (pos t) ≡ pos c)
      × (c * 1000000 ≤ p * t + 500000)
      × (p * t + 500000 < (c + 1) * 1000000)
cost_nearest p t h = ((p * t + 500000) / 1000000, cost_of_Fits p t h, omega arith, omega arith)

-- More tokens do not cost less, within 64 bits.
pub cost_mono :
    (p t t' : ℕ)
    → Fits p t'
    → t ≤ t'
    → cost_for_tokens (pos p) (pos t) ≤ℤ cost_for_tokens (pos p) (pos t')
cost_mono p t t' h le =
    let less : p * t ≤ p * t' = grind arith in
    rw (cost_of_Fits p t (omega (arith, less)), cost_of_Fits p t' h) (omega (arith, less))

-- A product that, rounded, is at least 2 ^ 63 and below 2 ^ 64 makes the cost of a priced request zero or
-- negative.
pub cost_overflow :
    (p t : ℕ)
    → 0 < p
    → 0 < t
    → 9223372036854775808 ≤ p * t + 500000
    → p * t + 500000 < 18446744073709551616
    → cost_for_tokens (pos p) (pos t) ≤ℤ pos 0
unfolding cost_for_tokens
cost_overflow p t hp ht lo hi =
    let bad : wrap64 (wrap64 (pos p *ℤ pos t) +ℤ pos 500000) <ℤ pos 0 =
      rw (pos_times p t) (overflow_negative (p * t) lo hi) in
    ground (arith, quot_negative _ 1000000 bad)

subtract :
    (a b : ℕ) → (if ltb_ℤ (pos a -ℤ pos b) (pos 0) then pos 0 else pos a -ℤ pos b) ≡ pos (a - b)
unfolding ◌-ℤ◌
subtract a b = ground arith

-- What is left of a budget is the budget less the whole cents spent, and 0 once it is used up.
pub remaining_budget_lem :
    (limit cost : ℕ)
    → IsInt64 (pos limit)
    → IsInt64 (pos cost)
    → remaining_budget (pos limit) (pos cost) ≡ pos (limit - cost / 1000000)
unfolding remaining_budget quot
remaining_budget_lem limit cost h c =
    rw
      (wrap64_of_IsInt64 (pos limit -ℤ pos (cost / 1000000))
        (difference-IsInt64 limit (cost / 1000000) h (omega arith)))
      (ground (arith, subtract limit (cost / 1000000)))
