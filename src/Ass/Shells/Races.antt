-- ===== src/Ass/Shells/Races.antt =====
-- internal/ass/shell_sessions.go: a broadcast alone, and one that a close interrupts.
use aiyolo.Base.{
  ℕ, ◌≡◌, refl, ap, ◌∙◌, String, false, not, ◌&&◌, ◌===◌, List, [], ◌∷◌, ◌++◌, Option, none, some,
  is_empty, if_intro, arith,
}
use aiyolo.Dict.{lookup}
use aiyolo.Dict.Laws.{lookup-append}
use aiyolo.Text.{trim_space}
use aiyolo.Ass.Feed.{
  Bytes, Channel, Subscribers, number_key, nat_eq_iff, close_all, closed_with, lookup-close_all,
}
use aiyolo.Ass.Shells.{
  ShellSession, ShellSessionEvent, record_event, numbers, send_to, send_open, send_unless, send_all,
  broadcast, and_then, or_disconnected, mark_closed, closed_event,
}

-- The session goes on.
abbrev pub GoesOn : Option ShellSession → Type 0
GoesOn o = (session : ShellSession) × (o ≡ some session)

released-send_open :
    (event : ShellSessionEvent) (id : ℕ) (session : ShellSession)
    (o : Option (Channel ShellSessionEvent))
    → (send_open event id session o).released ≡ session.released
released-send_open event id session none = refl
released-send_open event id session (some c) = refl

send_all-GoesOn :
    (event : ShellSessionEvent) (ids : List ℕ) (session : ShellSession)
    → session.released ≡ []
    → GoesOn (send_all event ids session)
unfolding send_all send_to lookup
send_all-GoesOn event [] session h = (session, refl)
send_all-GoesOn event (id ∷ ids) session h =
    let found = lookup id session.subscribers in
    let sent = send_open event id session found in
    let (last, e) =
      send_all-GoesOn event ids sent (released-send_open event id session found ∙ h) in
    (
      last,
      ap (λ r. and_then (send_unless event id session (lookup id r)) (λ s. send_all event ids s)) h
          ∙ e,
    )

released-record_event :
    (event : ShellSessionEvent) (session : ShellSession)
    → (record_event event session).released ≡ session.released
unfolding record_event
released-record_event event session = ground arith

-- A broadcast that nothing interrupts panics in no session that has closed no channel.
pub broadcast-GoesOn :
    (event : ShellSessionEvent) (session : ShellSession)
    → session.released ≡ []
    → GoesOn (broadcast event session)
unfolding broadcast
broadcast-GoesOn event session h =
    if_intro GoesOn session.done (λ _. (session, refl))
      λ _.
        send_all-GoesOn event (numbers session.subscribers) (record_event event session)
          (released-record_event event session ∙ h)

found_first :
    (id : ℕ) (c : Channel ShellSessionEvent) (m : Subscribers ShellSessionEvent)
    → lookup id ((id, c) ∷ m) ≡ some c
unfolding lookup
found_first id c m = ground (arith, nat_eq_iff id id)

-- A send to the first of some channels that are all closed.
closed_first :
    (event last : ShellSessionEvent) (m rest : Subscribers ShellSessionEvent)
    (session : ShellSession)
    → is_empty m ≡ false
    → session.released ≡ close_all last m ++ rest
    → send_all event (numbers m) session ≡ none
unfolding send_all send_to numbers
closed_first event last [] rest session h r = cc h
closed_first event last ((id, c) ∷ m) rest session h r =
    let closed =
      lookup-append id _ (close_all last ((id, c) ∷ m)) rest
        (lookup-close_all last id ((id, c) ∷ m) ∙ ap (closed_with last) (found_first id c m)) in
    ap (λ o. and_then (send_unless event id session o) (λ s. send_all event (numbers m) s))
      (ap (lookup id) r ∙ closed)

interrupted :
    (event : ShellSessionEvent) (message : String) (session : ShellSession) (replay : Bytes)
    → session.done ≡ false
    → is_empty session.subscribers ≡ false
    → send_all event
        (numbers session.subscribers)
        (mark_closed message (record session { replay = replay }))
      ≡ none
unfolding mark_closed
interrupted event message session replay running clients =
    closed_first event (closed_event (or_disconnected (trim_space message))) session.subscribers
      session.released _ clients (rw running refl)

-- A broadcast that is interrupted by a close between its two parts, of a session that has a client,
-- sends to a closed channel, which panics.
pub broadcast_interrupted :
    (event : ShellSessionEvent) (message : String) (session : ShellSession)
    → session.done ≡ false
    → is_empty session.subscribers ≡ false
    → send_all event
        (numbers session.subscribers)
        (mark_closed message (record_event event session))
      ≡ none
unfolding record_event
broadcast_interrupted event message session running clients =
    if_intro
      (λ (s : ShellSession).
        send_all event (numbers session.subscribers) (mark_closed message s) ≡ none)
      (event.event_type === "output" && not (is_empty event.data_bytes))
      (λ _. interrupted event message session _ running clients)
      (λ _. interrupted event message session session.replay running clients)
