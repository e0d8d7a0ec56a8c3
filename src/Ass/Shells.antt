-- ===== src/Ass/Shells.antt =====
-- internal/ass/shell_sessions.go: the shell sessions of the server and the clients that share one.
-- A method that holds a mutex for a part of its work is a function for each part, and their composition.
pub mod Registry
pub mod Races
use aiyolo.Base.{
  ℕ, suc, ◌-◌, ◌%◌, String, Bool, true, false, not, ◌&&◌, ◌===◌, ◌==◌, List, [], ◌∷◌, ◌++◌, Option,
  none, some, is_empty, if◌then◌else◌,
}
use aiyolo.Base.Int.{ℤ, pos, negsuc, leb_ℤ}
use aiyolo.Dict.{lookup, insert, erase}
use aiyolo.Text.{trim_space, is_blank}
use aiyolo.Ass.Feed.{
  Bytes, Channel, Subscribers, number_key, new_channel, offer, close_all, keep_last,
}

abbrev pub shell_session_replay_limit : ℕ
shell_session_replay_limit = 524288

pub record ShellSessionEvent : Type 0 where
  pub event_type : String
  pub data_bytes : Bytes
  pub message : String

-- The fields of a session but for its terminal and its process; `released` has the channels that are
-- closed and that their readers hold still.
pub record ShellSession : Type 0 where
  pub id : String
  pub cwd : String
  pub replay : Bytes
  pub done : Bool
  pub closed_message : String
  pub subscribers : Subscribers ShellSessionEvent
  pub released : Subscribers ShellSessionEvent
  pub next_sub_id : ℕ

pub record ShellSessionInfo : Type 0 where
  pub id : String
  pub cwd : String
  pub active : Bool

-- `info`.
unfoldable pub session_info : ShellSession → ShellSessionInfo
session_info session = record { id = session.id; cwd = session.cwd; active = not session.done }

abbrev pub output_event : Bytes → ShellSessionEvent
output_event output = record { event_type = "output"; data_bytes = output; message = "" }

abbrev pub closed_event : String → ShellSessionEvent
closed_event message = record { event_type = "closed"; data_bytes = []; message = message }

-- The numbers of the subscribers: their channels are what `broadcast` copies under the mutex.
unfoldable pub numbers : Subscribers ShellSessionEvent → List ℕ
numbers [] = []
numbers ((id, c) ∷ m) = id ∷ numbers m

-- The part of `broadcast` under the mutex, on a session that is not done.
unfoldable pub record_event : ShellSessionEvent → ShellSession → ShellSession
record_event event session =
    if event.event_type === "output" && not (is_empty event.data_bytes)
    then record session {
      replay = keep_last shell_session_replay_limit (session.replay ++ event.data_bytes);
    }
    else session

abbrev send_open :
    ShellSessionEvent → ℕ → ShellSession → Option (Channel ShellSessionEvent) → ShellSession
send_open event id session none = session
send_open event id session (some c) = record session {
  subscribers = insert id (offer event c) session.subscribers;
}

-- `select { case subscriber <- event: default: }`, or nothing where it panics: the channel is closed.
-- A channel that has left `subscribers` otherwise has no reader.
abbrev send_unless :
    ShellSessionEvent → ℕ → ShellSession → Option (Channel ShellSessionEvent) → Option ShellSession
send_unless event id session none =
    some (send_open event id session (lookup id session.subscribers))
send_unless event id session (some c) = none

unfoldable pub send_to : ShellSessionEvent → ℕ → ShellSession → Option ShellSession
send_to event id session = send_unless event id session (lookup id session.released)

abbrev and_then : Option ShellSession → (ShellSession → Option ShellSession) → Option ShellSession
and_then none next = none
and_then (some session) next = next session

-- The loop of `broadcast`, over the channels that it has copied.
unfoldable pub send_all : ShellSessionEvent → List ℕ → ShellSession → Option ShellSession
send_all event [] session = some session
send_all event (id ∷ ids) session = and_then (send_to event id session) (λ s. send_all event ids s)

-- `broadcast`, where nothing comes between its two parts.
unfoldable pub broadcast : ShellSessionEvent → ShellSession → Option ShellSession
broadcast event session =
    if session.done
    then some session
    else send_all event (numbers session.subscribers) (record_event event session)

-- `subscribe`: the number of the subscription, the replay, whether the session is done, and why.
abbrev pub Subscription : Type 0
Subscription = ℕ × Bytes × Bool × String

unfoldable pub subscribe_session : ShellSession → Subscription × ShellSession
subscribe_session session =
    if session.done then ((0, session.replay, true, session.closed_message), session) else (
      (suc session.next_sub_id, session.replay, false, ""),
      record session {
        next_sub_id = suc session.next_sub_id;
        subscribers = insert (suc session.next_sub_id) new_channel session.subscribers;
      },
    )

-- `unsubscribe`.
unfoldable pub unsubscribe_session : ℕ → ShellSession → ShellSession
unsubscribe_session id session =
    if id == 0 then session else record session { subscribers = erase id session.subscribers }

abbrev or_disconnected : String → String
or_disconnected message = if message === "" then "Terminal disconnected" else message

-- `close` without its last lines, which take the session out of the registry.
unfoldable pub mark_closed : String → ShellSession → ShellSession
mark_closed message session =
    let closed_message = or_disconnected (trim_space message) in
    if session.done then session else record session {
      done = true;
      closed_message = closed_message;
      subscribers = [];
      released = close_all (closed_event closed_message) session.subscribers ++ session.released;
    }

-- `uint16`.
abbrev word16 : ℤ → ℕ
word16 (pos n) = n % 65536
word16 (negsuc n) = 65535 - n % 65536

abbrev size_or : ℕ → ℤ → ℕ
size_or usual n = word16 (if leb_ℤ n (pos 0) then pos usual else n)

-- The columns and the rows that `resize` sets, or nothing where the session is done.
unfoldable pub resize : ℤ → ℤ → ShellSession → Option (ℕ × ℕ)
resize cols rows session = if session.done then none else some (size_or 120 cols, size_or 32 rows)

-- The events that are relayed to a client of those that it receives.
unfoldable pub relayed : List ShellSessionEvent → List ShellSessionEvent
relayed [] = []
relayed (event ∷ events) =
    let rest = relayed events in if event.event_type === "closed" then event ∷ [] else event ∷ rest

-- `serveShellSessionSocket`: what it sends to a client that it subscribes, where `received` is what
-- then comes out of the channel until it is closed or the client leaves.
unfoldable pub serve_shell_session_socket :
    ShellSession → List ShellSessionEvent → List ShellSessionEvent
serve_shell_session_socket session received =
    let (id, replay, done, closed_message) = (subscribe_session session).0 in
    record { event_type = "ready"; data_bytes = []; message = "Terminal connected" }
      ∷ (if is_empty replay then [] else output_event replay ∷ [])
    ++ (if done then closed_event closed_message ∷ [] else relayed received)
