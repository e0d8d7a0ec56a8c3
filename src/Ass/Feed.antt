-- ===== src/Ass/Feed.antt =====
-- internal/ass: the buffered channels of the subscribers of a job or of a shell session, and the
-- replay that is kept for the next one.
use aiyolo.Base.{
  ℕ, zero, suc, ◌-◌, ◌+◌, ◌≤◌, ◌<◌, ◌≡◌, refl, sym, ap, ◌∙◌, Bool, true, false, List, [], ◌∷◌, ◌++◌,
  Option, none, some, length, ltb, ◌==◌, if◌then◌else◌, ◌↔◌, if_intro, arith,
}
use aiyolo.Dict.{Key, Dict, lookup}

-- A Go string or slice of bytes that need not be UTF-8.
abbrev pub Bytes : Type 0
Bytes = List ℕ

pub nat_eq_iff : (a b : ℕ) → (a == b ≡ true) ↔ (a ≡ b)
nat_eq_iff a b = ground arith

instance abbrev pub number_key : Key ℕ
number_key = record { beq = ◌==◌; beq_iff = nat_eq_iff }

pub record Channel (E : Type 0) : Type 0 where
  -- What is sent and not yet received.
  pub waiting : List E
  pub closed : Bool

-- The 128 of `make(chan E, 128)`.
abbrev pub capacity : ℕ
capacity = 128

abbrev pub Subscribers : Type 0 → Type 0
Subscribers E = Dict ℕ (Channel E)

module _ {E : Type 0} where
  abbrev pub new_channel : Channel E
  new_channel = record { waiting = []; closed = false }

  -- `select { case subscriber <- event: default: }` on an open channel: a full one drops the event.
  unfoldable pub offer : E → Channel E → Channel E
  offer event c =
      if ltb (length c.waiting) capacity
      then record c { waiting = c.waiting ++ (event ∷ []) }
      else c

  -- The event is offered to every subscriber.
  unfoldable pub offer_all : E → Subscribers E → Subscribers E
  offer_all event [] = []
  offer_all event ((id, c) ∷ m) = (id, offer event c) ∷ offer_all event m

  -- The last event is offered to every subscriber, and its channel is closed.
  unfoldable pub close_all : E → Subscribers E → Subscribers E
  close_all event [] = []
  close_all event ((id, c) ∷ m) = (id, record (offer event c) { closed = true }) ∷ close_all event m

  abbrev pub offered : E → Option (Channel E) → Option (Channel E)
  offered event none = none
  offered event (some c) = some (offer event c)

  abbrev pub closed_with : E → Option (Channel E) → Option (Channel E)
  closed_with event none = none
  closed_with event (some c) = some (record (offer event c) { closed = true })

  pub lookup-offer_all :
      (event : E) (id : ℕ) (m : Subscribers E)
      → lookup id (offer_all event m) ≡ offered event (lookup id m)
  unfolding lookup offer_all
  lookup-offer_all event id [] = refl
  lookup-offer_all event id ((j, c) ∷ m) = ground (arith, lookup-offer_all event id m)

  pub lookup-close_all :
      (event : E) (id : ℕ) (m : Subscribers E)
      → lookup id (close_all event m) ≡ closed_with event (lookup id m)
  unfolding lookup close_all
  lookup-close_all event id [] = refl
  lookup-close_all event id ((j, c) ∷ m) = ground (arith, lookup-close_all event id m)

-- A channel with room takes the last event and is closed.
pub closed_held :
    {E : Type 0} (event : E) (waiting : List E) {o : Option (Channel E)}
    → o ≡ some (record { waiting = waiting; closed = false })
    → length waiting < capacity
    → closed_with event o ≡ some (record { waiting = waiting ++ (event ∷ []); closed = true })
unfolding offer
closed_held event waiting held room = rw held (ground (arith, room))

abbrev pub drop : ℕ → Bytes → Bytes
drop zero xs = xs
drop (suc n) [] = []
drop (suc n) (x ∷ xs) = drop n xs

-- The replay, which is cut to its last bytes where it has more than the limit.
unfoldable pub keep_last : ℕ → Bytes → Bytes
keep_last limit replay =
    if ltb limit (length replay) then drop (length replay - limit) replay else replay

pub length-append {ℓ} : {A : Type ℓ} (xs ys : List A) → length (xs ++ ys) ≡ length xs + length ys
length-append [] ys = omega arith
length-append (x ∷ xs) ys = omega (arith, length-append xs ys)

length-drop : (n : ℕ) (xs : Bytes) → length (drop n xs) ≡ length xs - n
length-drop zero xs = omega arith
length-drop (suc n) [] = omega arith
length-drop (suc n) (x ∷ xs) = omega (arith, length-drop n xs)

drop-append : (n : ℕ) (xs ys : Bytes) → n ≤ length xs → drop n (xs ++ ys) ≡ drop n xs ++ ys
drop-append zero xs ys h = refl
drop-append (suc n) [] ys h = absurd (omega arith)
drop-append (suc n) (x ∷ xs) ys h = drop-append n xs ys (omega arith)

drop_nil : (n : ℕ) → drop n [] ≡ []
drop_nil zero = refl
drop_nil (suc n) = refl

drop-drop : (m n : ℕ) (xs : Bytes) → drop m (drop n xs) ≡ drop (n + m) xs
drop-drop m zero xs = ap (λ k. drop k xs) {x = m} {y = 0 + m} (omega arith)
drop-drop m (suc n) [] = drop_nil m ∙ sym (drop_nil (suc n + m))
drop-drop m (suc n) (x ∷ xs) =
    drop-drop m n xs ∙ ap (λ k. drop k (x ∷ xs)) {x = suc (n + m)} {y = suc n + m} (omega arith)

pub keep_last-length : (limit : ℕ) (xs : Bytes) → length (keep_last limit xs) ≤ limit
unfolding keep_last
keep_last-length limit xs = ground (arith, length-drop (length xs - limit) xs)

pub keep_last-short : (limit : ℕ) (xs : Bytes) → length xs ≤ limit → keep_last limit xs ≡ xs
unfolding keep_last
keep_last-short limit xs h = ground arith

keep_last_lem : (limit : ℕ) (xs : Bytes) → keep_last limit xs ≡ drop (length xs - limit) xs
unfolding keep_last
keep_last_lem limit xs =
    if_intro (λ r. r ≡ drop (length xs - limit) xs) (ltb limit (length xs)) (λ h. refl)
      λ h. ap (λ n. drop n xs) {x = 0} (ground arith)

-- Bytes that are cut and then grown keep the same last bytes as those that are grown at once.
pub keep_last-append :
    (limit : ℕ) (xs ys : Bytes)
    → keep_last limit (keep_last limit xs ++ ys) ≡ keep_last limit (xs ++ ys)
keep_last-append limit xs ys =
    let cut = length xs - limit in
    ap (λ r. keep_last limit (r ++ ys)) (keep_last_lem limit xs)
    ∙ ap (keep_last limit) (sym (drop-append cut xs ys (omega arith)))
    ∙ keep_last_lem limit (drop cut (xs ++ ys))
    ∙ drop-drop (length (drop cut (xs ++ ys)) - limit) cut (xs ++ ys)
    ∙ ap (λ n. drop n (xs ++ ys)) (omega (arith, length-drop cut (xs ++ ys), length-append xs ys))
    ∙ sym (keep_last_lem limit (xs ++ ys))
