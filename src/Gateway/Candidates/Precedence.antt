-- ===== src/Gateway/Candidates/Precedence.antt =====
-- internal/gateway/handlers.go `sortCandidates`: which of two candidates may stand before the other, by the
-- keys that are compared and not by the function that compares them.
use aiyolo.Base.{
  ℕ, ◌≡◌, ◌≢◌, ◌<◌, ◌⊎◌, inl, inr, refl, String, true, false, not, ◌&&◌, ◌==◌, is_empty, List, [],
  ◌∷◌, All, Bool-cases, arith, eq_iff,
}
use aiyolo.Base.Int.{ℤ, ◌≤ℤ◌, ◌<ℤ◌}
use aiyolo.Dict.{Dict, lookup, string_key}
use aiyolo.Sort.Laws.{IsSorted}
use aiyolo.Text.{str_lt}
use aiyolo.Text.Order.{str_lt_connex}
use aiyolo.Gateway.Candidates.{
  RouteCandidate, total_price, rank, tie_less, compare_candidate_sort, candidate_less, or_else,
  differs,
}

-- A smaller number comes first, and on equal ones the rest decides.
abbrev pub ByNumber : ℕ → ℕ → Type 0 → Type 0
ByNumber a b rest = (a < b) ⊎ ((a ≡ b) × rest)

abbrev pub ByInteger : ℤ → ℤ → Type 0 → Type 0
ByInteger a b rest = (a <ℤ b) ⊎ ((a ≤ℤ b) × (b ≤ℤ a) × rest)

-- The last keys: the place of the model in the request, the priority, the greater weight, and the texts of
-- the provider and of the public name.
abbrev pub MayTie : RouteCandidate → RouteCandidate → Type 0
MayTie l r = ByNumber l.model_index r.model_index (
    ByInteger l.route.priority r.route.priority (
      ByInteger r.route.weight l.route.weight (
        (str_lt l.provider.id r.provider.id ≡ true)
        ⊎ ((l.provider.id ≡ r.provider.id)
            × (str_lt r.route.public_name l.route.public_name ≡ false)))))

-- The key that the preferences sort by, if any.
pub record MaySort (sort : String) (l r : RouteCandidate) : Type 0 where
  pub price : sort ≡ "price" → ByInteger (total_price l) (total_price r) (MayTie l r)
  pub priority :
      (sort ≡ "priority") ⊎ (sort ≡ "latency")
      → ByInteger l.route.priority r.route.priority (MayTie l r)
  pub throughput : sort ≡ "throughput" → ByInteger r.route.weight l.route.weight (MayTie l r)
  pub otherwise :
      sort ≢ "price" → sort ≢ "priority" → sort ≢ "latency" → sort ≢ "throughput" → MayTie l r

-- One candidate may stand before another: first by the rank of its provider in the order that the
-- preferences give.
abbrev pub MayPrecede : Dict String ℕ → String → RouteCandidate → RouteCandidate → Type 0
MayPrecede order sort l r = ByNumber (rank order l) (rank order r) (MaySort sort l r)

tie-MayTie : (l r : RouteCandidate) → tie_less r l ≡ false → MayTie l r
unfolding tie_less
tie-MayTie l r h =
    ground (arith, h, eq_iff r.provider.id l.provider.id, str_lt_connex l.provider.id r.provider.id)

rank_empty : (order : Dict String ℕ) (c : RouteCandidate) → is_empty order ≡ true → rank order c ≡ 0
unfolding rank lookup
rank_empty [] c h = refl
rank_empty (e ∷ order) c h = cc h

-- What `compareCandidateSort` says on each of its keys.
module _ (l r : RouteCandidate) where
  abbrev NotLess : String → Type 0
  NotLess sort = or_else (compare_candidate_sort r l sort) (tie_less r l) ≡ false

  price-MaySort : NotLess "price" → ByInteger (total_price l) (total_price r) (MayTie l r)
  unfolding compare_candidate_sort
  price-MaySort h = elim (Bool-cases (differs (total_price r) (total_price l))) [
    | inl apart ↦ inl (ground (arith, rw apart at h, apart))
    | inr same ↦ inr (ground (arith, same), ground (arith, same), tie-MayTie l r (rw same at h))
  ]

  priority-MaySort :
      (sort : String)
      → (sort ≡ "priority") ⊎ (sort ≡ "latency")
      → NotLess sort
      → ByInteger l.route.priority r.route.priority (MayTie l r)
  unfolding compare_candidate_sort
  priority-MaySort sort e h =
      let named : NotLess "priority" = elim e [ inl p ↦ rw p at h | inr p ↦ rw p at h ] in
      elim (Bool-cases (differs r.route.priority l.route.priority)) [
        | inl apart ↦ inl (ground (arith, rw apart at named, apart))
        | inr same ↦
            inr (ground (arith, same), ground (arith, same), tie-MayTie l r (rw same at named))
      ]

  throughput-MaySort : NotLess "throughput" → ByInteger r.route.weight l.route.weight (MayTie l r)
  unfolding compare_candidate_sort
  throughput-MaySort h = elim (Bool-cases (differs l.route.weight r.route.weight)) [
    | inl apart ↦ inl (ground (arith, rw apart at h, apart))
    | inr same ↦ inr (ground (arith, same), ground (arith, same), tie-MayTie l r (rw same at h))
  ]

  sort-MaySort : (sort : String) → NotLess sort → MaySort sort l r
  unfolding compare_candidate_sort
  sort-MaySort sort h = record {
    price = λ e. price-MaySort (rw e at h);
    priority = λ e. priority-MaySort sort e h;
    throughput = λ e. throughput-MaySort (rw e at h);
    otherwise = λ a b c d. tie-MayTie l r (
        ground (
          arith,
          h,
          eq_iff sort "price",
          eq_iff sort "priority",
          eq_iff sort "latency",
          eq_iff sort "throughput",
        ));
  }

-- A candidate that the function does not put before another may stand behind it.
pub candidate-MayPrecede :
    (order : Dict String ℕ) (sort : String) (l r : RouteCandidate)
    → candidate_less order sort r l ≡ false
    → MayPrecede order sort l r
unfolding candidate_less
candidate-MayPrecede order sort l r h =
    elim (Bool-cases (not (is_empty order) && not (rank order r == rank order l))) [
      | inl ranked ↦ inl (ground (arith, rw ranked at h, ranked))
      | inr level ↦ inr (
        ground (arith, level, rank_empty order l, rank_empty order r),
        sort-MaySort l r sort (rw level at h),
      )
    ]

-- Every candidate may stand before those behind it.
abbrev pub InOrder : Dict String ℕ → String → List RouteCandidate → Type 0
InOrder order sort [] = Unit
InOrder order sort (c ∷ cs) = All (MayPrecede order sort c) cs × InOrder order sort cs

behind-MayPrecede :
    (order : Dict String ℕ) (sort : String) (c : RouteCandidate) (cs : List RouteCandidate)
    → All (λ d. candidate_less order sort d c ≡ false) cs
    → All (MayPrecede order sort c) cs
behind-MayPrecede order sort c [] h = tt
behind-MayPrecede order sort c (d ∷ cs) h =
    (candidate-MayPrecede order sort c d h.0, behind-MayPrecede order sort c cs h.1)

pub sorted-InOrder :
    (order : Dict String ℕ) (sort : String) (cs : List RouteCandidate)
    → IsSorted (candidate_less order sort) cs
    → InOrder order sort cs
sorted-InOrder order sort [] h = tt
sorted-InOrder order sort (c ∷ cs) h =
    (behind-MayPrecede order sort c cs h.0, sorted-InOrder order sort cs h.1)
