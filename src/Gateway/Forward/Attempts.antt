-- ===== src/Gateway/Forward/Attempts.antt =====
-- The loop over the candidates: which response it ends with, and what it records.
use mathlib.Core.Path.{ap₂}
use mathlib.Core.List.{append_assoc}
use aiyolo.Base.{
  if_intro, sym, ◌∙◌, not, is_empty, ℕ, suc, ◌+◌, ◌≡◌, ◌⊎◌, refl, ap, String, Bool, true, false,
  ◌&&◌, List, [], ◌∷◌, ◌++◌, length, subst, Option, none, some, arith, inl, inr,
}
use aiyolo.Gateway.Candidates.{RouteCandidate}
use aiyolo.Gateway.Errors.{retryable_upstream_status, should_fallback_responses_to_chat}
use aiyolo.Gateway.Forward.{
  Response, ChatFallback, chat_failed, chat_answered, Exchange, no_client, not_rewritten, not_built,
  no_answer, answered, ResponseMode, direct, chat_fallback, Attempt, Progress, LoopEnd, left,
  invalid_json, build_upstream_failed, failed_attempt, last_attempt, give_up, Next, retry, stop,
  retry_or_break, judge, judge_fallback, try_candidate, begin_attempt, go_on, try_all, before_loop,
}

-- An attempt with a candidate, under a number.
pub record IsAttempt (index : ℕ) (c : RouteCandidate) (a : Attempt) : Type 0 where
  pub number : a.index ≡ index
  pub provider : a.provider ≡ c.provider.id
  pub model : a.model ≡ c.route.upstream_model

-- The attempts with some candidates: one with each, in their order, numbered from `n` without a gap.
abbrev pub Attempted : ℕ → List RouteCandidate → List Attempt → Type 0
Attempted n [] [] = Unit
Attempted n [] (a ∷ done) = ⊥
Attempted n (c ∷ cs) [] = ⊥
Attempted n (c ∷ cs) (a ∷ done) = IsAttempt n c a × Attempted (suc n) cs done

Attempted-snoc :
    (n : ℕ) (cs : List RouteCandidate) (done : List Attempt) (c : RouteCandidate) (a : Attempt)
    → Attempted n cs done
    → IsAttempt (n + length cs) c a
    → Attempted n (cs ++ c ∷ []) (done ++ a ∷ [])
Attempted-snoc n [] [] c a h e = (subst (λ k. IsAttempt k c a) (omega arith) e, tt)
Attempted-snoc n [] (b ∷ done) c a h e = absurd h
Attempted-snoc n (d ∷ cs) [] c a h e = absurd h
Attempted-snoc n (d ∷ cs) (b ∷ done) c a h e =
    (h.0, Attempted-snoc (suc n) cs done c a h.1 (subst (λ k. IsAttempt k c a) (omega arith) e))

-- The attempts are numbered from `n` without a gap.
abbrev pub Numbered : ℕ → List Attempt → Type 0
Numbered n [] = Unit
Numbered n (a ∷ rest) = (a.index ≡ n) × Numbered (suc n) rest

pub Attempted-Numbered :
    (n : ℕ) (cs : List RouteCandidate) (done : List Attempt) → Attempted n cs done → Numbered n done
Attempted-Numbered n [] [] h = tt
Attempted-Numbered n [] (a ∷ done) h = absurd h
Attempted-Numbered n (c ∷ cs) [] h = absurd h
Attempted-Numbered n (c ∷ cs) (a ∷ done) h = (h.0.number, Attempted-Numbered (suc n) cs done h.1)

-- A response that is not worth a retry; and what the loop leaves with, for which there may also be no
-- candidate left.
abbrev pub Definite : Option Response → Type 0
Definite none = ⊥
Definite (some response) = retryable_upstream_status response.status ≡ false

abbrev Answer : Option Response → Bool → Type 0
Answer o more = Definite o ⊎ (more ≡ false)

-- After an attempt: the candidates before it, and it, have been tried.
abbrev Ended : Bool → List RouteCandidate → Progress → Type 0
Ended more tried p = Answer p.response more × Attempted 1 tried p.attempts

abbrev After : Bool → List RouteCandidate → Next → Type 0
After more tried (retry p) = (more ≡ true) × Attempted 1 tried p.attempts
After more tried (stop (left p)) = Ended more tried p
After more tried (stop invalid_json) = Unit
After more tried (stop build_upstream_failed) = Unit

length-snoc :
    (cs : List RouteCandidate) (c : RouteCandidate) → length (cs ++ c ∷ []) ≡ suc (length cs)
length-snoc [] c = refl
length-snoc (d ∷ cs) c = ap suc (length-snoc cs c)

module _ (more : Bool) (before : List RouteCandidate) (c : RouteCandidate) where
  abbrev index : ℕ
  index = 1 + length before

  -- Recording an attempt with the next candidate.
  recorded :
      (a : Attempt) (p : Progress)
      → IsAttempt index c a
      → Attempted 1 before p.attempts
      → Attempted 1 (before ++ c ∷ []) (p.attempts ++ a ∷ [])
  recorded a p e h = Attempted-snoc 1 before p.attempts c a h e

  failed-IsAttempt :
      (status : ℕ) (failure_class : String)
      → IsAttempt index c (failed_attempt index c status failure_class)
  failed-IsAttempt status failure_class = record { number = refl; provider = refl; model = refl }

  last-IsAttempt : (status : ℕ) → IsAttempt index c (last_attempt index c status)
  last-IsAttempt status = record { number = refl; provider = refl; model = refl }

  give_up-After :
      (error failure_class : String) (p : Progress)
      → Attempted 1 before p.attempts
      → After more (before ++ c ∷ []) (retry_or_break more (give_up index c error failure_class p))
  give_up-After error failure_class p h =
      let kept =
        recorded (failed_attempt index c 0 failure_class) p (failed-IsAttempt 0 failure_class) h in
      if_intro (After more (before ++ c ∷ [])) more
        {x = retry (give_up index c error failure_class p)} (λ again. (again, kept))
        (λ final. (inr final, kept))

  judge-After :
      (response : Response) (mode : ResponseMode) (p : Progress)
      → Attempted 1 before p.attempts
      → After more (before ++ c ∷ []) (judge more index c response mode p)
  unfolding judge
  judge-After response mode p h =
      if_intro (After more (before ++ c ∷ [])) (retryable_upstream_status response.status && more)
        (λ again. (
          ground (arith, again),
          recorded (failed_attempt index c response.status _) p (failed-IsAttempt _ _) h,
        ))
        λ final. (
          ground (arith, final),
          recorded (last_attempt index c response.status) p (last-IsAttempt response.status) h,
        )

  judge_fallback-After :
      (fallback : ChatFallback) (p : Progress)
      → Attempted 1 before p.attempts
      → After more (before ++ c ∷ []) (judge_fallback more index c fallback p)
  unfolding judge_fallback
  judge_fallback-After (chat_failed error) p h = give_up-After error "responses_fallback_failed" p h
  judge_fallback-After (chat_answered response) p h = judge-After response chat_fallback p h

  try_candidate-After :
      (endpoint : String) (e : Exchange) (p : Progress)
      → Attempted 1 before p.attempts
      → After more (before ++ c ∷ []) (try_candidate endpoint more index c e p)
  unfolding try_candidate
  try_candidate-After endpoint (no_client error) p h = give_up-After error "network_error" p h
  try_candidate-After endpoint not_rewritten p h = tt
  try_candidate-After endpoint not_built p h = tt
  try_candidate-After endpoint (no_answer error) p h = give_up-After error "network_error" p h
  try_candidate-After endpoint (answered response fallback) p h =
      if_intro (After more (before ++ c ∷ []))
        (should_fallback_responses_to_chat endpoint response.status)
        (λ _. judge_fallback-After fallback p h) (λ _. judge-After response direct p h)

-- What the loop over some candidates leaves with.
abbrev pub Tried : List RouteCandidate → LoopEnd → Type 0
Tried all (left p) =
    (tried untried : List RouteCandidate) × (tried ++ untried ≡ all)
    × Attempted 1 tried p.attempts
    × (Definite p.response ⊎ (untried ≡ []))
Tried all invalid_json = Unit
Tried all build_upstream_failed = Unit

no_more : (cs : List RouteCandidate) → not (is_empty cs) ≡ false → cs ≡ []
no_more [] h = refl
no_more (c ∷ cs) h = cc h

ends :
    {P : Type 0} (b : Bool)
    → P ⊎ (b ≡ false)
    → (cs : List RouteCandidate) → b ≡ not (is_empty cs)
    → P ⊎ (cs ≡ [])
ends b (inl p) cs e = inl p
ends b (inr h) cs e = inr (no_more cs (sym e ∙ h))

module _ (endpoint : String) (exchange : ℕ → RouteCandidate → Exchange) where
  go_on-Tried :
      (before : List RouteCandidate) (c : RouteCandidate) (cs : List RouteCandidate) (next : Next)
      (rest : Progress → LoopEnd)
      → After (not (is_empty cs)) (before ++ c ∷ []) next
      → ((p : Progress)
          → Attempted 1 (before ++ c ∷ []) p.attempts
          → Tried (before ++ c ∷ cs) (rest p))
      → Tried (before ++ c ∷ cs) (go_on next rest)
  go_on-Tried before c cs (retry p) rest h k = k p h.1
  go_on-Tried before c cs (stop (left p)) rest h k =
      (before ++ c ∷ [], cs, append_assoc before (c ∷ []) cs, h.1, ends _ h.0 cs refl)
  go_on-Tried before c cs (stop invalid_json) rest h k = tt
  go_on-Tried before c cs (stop build_upstream_failed) rest h k = tt

  try_all-Tried :
      (before cs : List RouteCandidate) (p : Progress)
      → Attempted 1 before p.attempts
      → Tried (before ++ cs) (try_all endpoint exchange (1 + length before) cs p)
  unfolding try_all
  try_all-Tried before [] p h = (before, [], refl, h, inr refl)
  try_all-Tried before (c ∷ cs) p h =
      go_on-Tried before c cs _ _
        (try_candidate-After (not (is_empty cs)) before c endpoint (exchange (1 + length before) c)
          (begin_attempt c p) h)
        λ q k.
          subst (λ (t : List RouteCandidate × ℕ). Tried t.0 (try_all endpoint exchange t.1 cs q))
            {x = ((before ++ c ∷ []) ++ cs, 1 + length (before ++ c ∷ []))}
            (ap₂ (λ (l : List RouteCandidate) (n : ℕ). (l, n)) (append_assoc before (c ∷ []) cs)
              (omega (arith, length-snoc before c)))
            (try_all-Tried (before ++ c ∷ []) cs q k)

-- When the loop over the candidates is left for an answer, its attempts are one with each of the first
-- candidates, in their order and numbered from 1; and unless every candidate was tried, there is a
-- response, whose status is not one that is retried.
pub try_all-attempts :
    (endpoint : String) (exchange : ℕ → RouteCandidate → Exchange) (c : RouteCandidate)
    (cs : List RouteCandidate)
    → Tried (c ∷ cs) (try_all endpoint exchange 1 (c ∷ cs) (before_loop c))
try_all-attempts endpoint exchange c cs =
    try_all-Tried endpoint exchange [] (c ∷ cs) (before_loop c) tt
