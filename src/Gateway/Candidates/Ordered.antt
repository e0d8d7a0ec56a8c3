-- ===== src/Gateway/Candidates/Ordered.antt =====
-- The order of the candidates is a strict weak order, so the order in which they are tried is the
-- one that it prescribes.
use mathlib.Core.Path.{fun_ext}
use aiyolo.Base.{
  ℕ, ◌≡◌, String, Bool, true, false, not, ◌||◌, ◌===◌, eq_iff, ltb, is_empty, arith, if◌then◌else◌,
  subst, sym,
}
use aiyolo.Base.Int.{ltb_ℤ}
use aiyolo.Text.{str_lt}
use aiyolo.Text.Order.{str_lt_irrefl, str_lt_trans, str_lt_connex}
use aiyolo.Dict.{Dict}
use aiyolo.Sort.Laws.{IsStrictWeak}
use aiyolo.Sort.Orders.{
  lex, lex-IsStrictWeak, on-IsStrictWeak, flip-IsStrictWeak, ltb-IsStrictWeak, ltb_ℤ-IsStrictWeak,
  str_lt-IsStrictWeak, never-IsStrictWeak,
}
use aiyolo.Gateway.Candidates.{
  RouteCandidate, compare_candidate_sort, total_price, rank, tie_less, candidate_less,
}

abbrev Less : Type 0
Less = RouteCandidate → RouteCandidate → Bool

abbrev by_index : Less
by_index l r = ltb l.model_index r.model_index

abbrev by_priority : Less
by_priority l r = ltb_ℤ l.route.priority r.route.priority

abbrev by_weight : Less
by_weight l r = ltb_ℤ r.route.weight l.route.weight

abbrev by_provider : Less
by_provider l r = str_lt l.provider.id r.provider.id

abbrev by_name : Less
by_name l r = str_lt l.route.public_name r.route.public_name

abbrev by_price : Less
by_price l r = ltb_ℤ (total_price l) (total_price r)

-- The last tests as one order after another.
abbrev tie_order : Less
tie_order = lex by_index (lex by_priority (lex by_weight (lex by_provider by_name)))

str_lt_test :
    (s t : String) (rest : Bool)
    → (if not (s === t) then str_lt s t else rest)
      ≡ (if str_lt s t then true else if str_lt t s then false else rest)
str_lt_test s t rest =
    ground (arith, eq_iff s t, str_lt_irrefl s, str_lt_connex s t, str_lt_trans s t s)

tie_less-eq : (l r : RouteCandidate) → tie_less l r ≡ tie_order l r
unfolding tie_less
tie_less-eq l r = rw str_lt_test (ground arith)

abbrev undecided : Less
undecided l r = false

abbrev by_rank : Dict String ℕ → Less
by_rank order l r = ltb (rank order l) (rank order r)

abbrev rank_choice : Bool → Dict String ℕ → Less
rank_choice true order = undecided
rank_choice false order = by_rank order

abbrev sort_choice : Bool → Bool → Bool → Less
sort_choice true b c = by_price
sort_choice false true c = by_priority
sort_choice false false true = by_weight
sort_choice false false false = undecided

abbrev sort_order : String → Less
sort_order sort =
    sort_choice (sort === "price") (sort === "priority" || sort === "latency")
      (sort === "throughput")

-- The order of the candidates: by the place of the provider in the list of the preferences, then by
-- the chosen criterion, then by the last tests.
abbrev pub candidate_order : Dict String ℕ → String → Less
candidate_order order sort =
    lex (rank_choice (is_empty order) order) (lex (sort_order sort) tie_order)

candidate_less-eq :
    (order : Dict String ℕ) (sort : String) (l r : RouteCandidate)
    → candidate_less order sort l r ≡ candidate_order order sort l r
unfolding candidate_less compare_candidate_sort
candidate_less-eq order sort l r = rw tie_less-eq (ground arith)

tie_order-IsStrictWeak : IsStrictWeak tie_order
tie_order-IsStrictWeak = lex-IsStrictWeak by_index _ (on-IsStrictWeak _ ltb ltb-IsStrictWeak) (
    lex-IsStrictWeak by_priority _
      (on-IsStrictWeak (λ c. c.route.priority) ltb_ℤ ltb_ℤ-IsStrictWeak)
      (lex-IsStrictWeak by_weight _
        (flip-IsStrictWeak _ (on-IsStrictWeak (λ c. c.route.weight) ltb_ℤ ltb_ℤ-IsStrictWeak))
        (lex-IsStrictWeak by_provider by_name
          (on-IsStrictWeak (λ c. c.provider.id) str_lt str_lt-IsStrictWeak)
          (on-IsStrictWeak (λ c. c.route.public_name) str_lt str_lt-IsStrictWeak))))

rank_choice-IsStrictWeak : (b : Bool) (order : Dict String ℕ) → IsStrictWeak (rank_choice b order)
rank_choice-IsStrictWeak true order = never-IsStrictWeak
rank_choice-IsStrictWeak false order = on-IsStrictWeak (rank order) ltb ltb-IsStrictWeak

by_weight-IsStrictWeak : IsStrictWeak by_weight
by_weight-IsStrictWeak =
    flip-IsStrictWeak _ (on-IsStrictWeak (λ c. c.route.weight) ltb_ℤ ltb_ℤ-IsStrictWeak)

sort_choice-IsStrictWeak : (a b c : Bool) → IsStrictWeak (sort_choice a b c)
sort_choice-IsStrictWeak true b c = on-IsStrictWeak total_price ltb_ℤ ltb_ℤ-IsStrictWeak
sort_choice-IsStrictWeak false true c =
    on-IsStrictWeak (λ x. x.route.priority) ltb_ℤ ltb_ℤ-IsStrictWeak
sort_choice-IsStrictWeak false false true = by_weight-IsStrictWeak
sort_choice-IsStrictWeak false false false = never-IsStrictWeak

-- The comparison that the candidates are sorted by is a strict weak order, whatever the preferences.
pub candidate_less-IsStrictWeak :
    (order : Dict String ℕ) (sort : String) → IsStrictWeak (candidate_less order sort)
candidate_less-IsStrictWeak order sort =
    subst IsStrictWeak (sym (fun_ext (λ l. fun_ext (λ r. candidate_less-eq order sort l r)))) (
      lex-IsStrictWeak (rank_choice (is_empty order) order) (lex (sort_order sort) tie_order)
        (rank_choice-IsStrictWeak (is_empty order) order)
        (lex-IsStrictWeak (sort_order sort) tie_order
          (sort_choice-IsStrictWeak (sort === "price") (sort === "priority" || sort === "latency")
            (sort === "throughput"))
          tie_order-IsStrictWeak))
