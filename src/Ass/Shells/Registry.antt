-- ===== src/Ass/Shells/Registry.antt =====
-- internal/ass/shell_sessions.go: the registry of the sessions, and the requests that open and read one.
pub mod Lost
use aiyolo.Base.{
  ℕ, String, Bool, true, false, not, ◌===◌, List, [], ◌∷◌, map, Option, none, some, if◌then◌else◌,
}
use aiyolo.Base.Int.{ℤ}
use aiyolo.Dict.{Dict, lookup, insert, erase, values, string_key}
use aiyolo.Text.{trim_space}
use aiyolo.Text.Join.{trim_prefix, has_suffix, trim_suffix}
use aiyolo.Ass.Ids.{normalize_shell_session_id}
use aiyolo.Ass.Shells.{
  ShellSessionEvent, ShellSession, ShellSessionInfo, session_info, mark_closed,
  serve_shell_session_socket,
}

abbrev pub ShellRegistry : Type 0
ShellRegistry = Dict String ShellSession

-- `existing != nil && !existing.isDone()`
abbrev pub unless_done : Option ShellSession → Option ShellSession
unless_done none = none
unless_done (some session) = if session.done then none else some session

abbrev pub active_session : String → ShellRegistry → Option ShellSession
active_session id registry = unless_done (lookup id registry)

-- The errors of building the command and of starting it on a terminal, where there are any.
pub record Launch : Type 0 where
  pub build_error : Option String
  pub start_error : Option String

-- The session and whether it is new, or an error.
pub data Opened : Type 0 where
  opened : ShellSession → Bool → Opened
  open_failed : String → Opened

abbrev pub new_session : String → String → ShellSession
new_session id cwd = record {
  id = id;
  cwd = cwd;
  replay = [];
  done = false;
  closed_message = "";
  subscribers = [];
  released = [];
  next_sub_id = 0;
}

-- The second critical section of `getOrCreate`: the session takes its place, unless another has.
abbrev claim : ShellSession → ShellRegistry → Option ShellSession → Opened × ShellRegistry
claim session registry (some existing) = (opened existing false, registry)
claim session registry none = (opened session true, insert session.id session registry)

unfoldable pub register_session : ShellSession → ShellRegistry → Opened × ShellRegistry
register_session session registry = claim session registry (active_session session.id registry)

start_terminal : String → String → ShellRegistry → Option String → Opened × ShellRegistry
start_terminal id cwd registry (some error) = (open_failed error, registry)
start_terminal id cwd registry none = register_session (new_session id cwd) registry

build_command : Launch → String → String → ShellRegistry → Option String → Opened × ShellRegistry
unfolding start_terminal
build_command launch id cwd registry (some error) = (open_failed error, registry)
build_command launch id cwd registry none = start_terminal id cwd registry launch.start_error

abbrev or_build :
    Launch → String → String → ShellRegistry → Option ShellSession → Opened × ShellRegistry
or_build launch id cwd registry (some existing) = (opened existing false, registry)
or_build launch id cwd registry none = build_command launch id cwd registry launch.build_error

-- `getOrCreate`, where no other request comes between its critical sections.
unfoldable pub get_or_create : Launch → String → String → ShellRegistry → Opened × ShellRegistry
unfolding build_command
get_or_create launch id cwd registry = or_build launch id cwd registry (active_session id registry)

-- The last critical section of `close`.
unfoldable pub forget : String → ShellRegistry → ShellRegistry
forget id registry = erase id registry

abbrev close_found : String → String → ShellRegistry → Option ShellSession → ShellRegistry
close_found message id registry none = registry
close_found message id registry (some session) =
    if session.done then registry else forget id (insert id (mark_closed message session) registry)

-- `close` of the session under an identifier, where nothing comes between its critical sections.
unfoldable pub close_session : String → String → ShellRegistry → ShellRegistry
close_session message id registry = close_found message id registry (lookup id registry)

pub record ShellSessionCreateRequest : Type 0 where
  pub id : String
  pub cwd : String
  pub cols : ℤ
  pub rows : ℤ

pub data Reply : Type 0 where
  refused : ℕ → String → String → Reply
  answered : ℕ → ShellSessionInfo → Reply
  listed : List ShellSessionInfo → Reply
  connected : List ShellSessionEvent → Reply

abbrev created_status : Bool → ℕ
created_status true = 201
created_status false = 200

abbrev open_reply : Opened → Reply
open_reply (opened session created) = answered (created_status created) (session_info session)
open_reply (open_failed message) = refused 500 "session_start_failed" message

module _ (root : String) (launch : String → Launch) where
  -- `handleCreateShellSession`: the request is missing where its body does not decode.
  unfoldable pub handle_create_shell_session :
      Option ShellSessionCreateRequest → ShellRegistry → Reply × ShellRegistry
  handle_create_shell_session none registry =
      (refused 400 "encoding_invalid" "shell session request is invalid", registry)
  handle_create_shell_session (some request) registry =
      let id = normalize_shell_session_id request.id in
      let cwd = trim_space request.cwd in
      let place = if cwd === "" then root else cwd in
      let result = get_or_create (launch place) id place registry in
      if id === ""
      then (refused 400 "session_invalid" "shell session id is required", registry)
      else (open_reply result.0, result.1)

  -- `handleShellSessionsCollection`.
  unfoldable pub handle_shell_sessions_collection :
      String → Option ShellSessionCreateRequest → ShellRegistry → Reply × ShellRegistry
  handle_shell_sessions_collection method request registry =
      if method === "GET"
      then (listed (map session_info (values registry)), registry)
      else if method === "POST"
      then handle_create_shell_session request registry
      else (refused 405 "method_not_allowed" "method not allowed", registry)

abbrev info_reply : Option ShellSession → Reply
info_reply none = refused 404 "session_not_found" "shell session was not found"
info_reply (some session) = answered 200 (session_info session)

abbrev socket_reply : List ShellSessionEvent → Option ShellSession → Reply
socket_reply received none = refused 404 "" "shell session was not found"
socket_reply received (some session) = connected (serve_shell_session_socket session received)

-- `handleShellSessionItem`, where `received` is what comes out of the channel of a socket.
unfoldable pub handle_shell_session_item :
    String → String → List ShellSessionEvent → ShellRegistry → Reply
handle_shell_session_item method path received registry =
    let remainder = trim_prefix path "/v1/shell/sessions/" in
    let id = normalize_shell_session_id remainder in
    let socket_id = normalize_shell_session_id (trim_suffix remainder "/ws") in
    if id === ""
    then refused 400 "session_invalid" "shell session id is required"
    else if has_suffix path "/ws"
    then socket_reply received (lookup socket_id registry)
    else if not (method === "GET")
    then refused 405 "method_not_allowed" "method not allowed"
    else info_reply (lookup id registry)
