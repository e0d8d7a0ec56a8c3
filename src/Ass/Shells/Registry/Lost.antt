-- ===== src/Ass/Shells/Registry/Lost.antt =====
-- internal/ass/shell_sessions.go: a session that is opened while one of its identifier is being closed.
use aiyolo.Base.{◌≡◌, refl, ap, ◌∙◌, String, true, false, none, some, arith, eq_iff}
use aiyolo.Dict.{lookup, insert, erase, string_key}
use aiyolo.Dict.Laws.{lookup-insert_self, lookup-erase}
use aiyolo.Ass.Shells.{ShellSession, mark_closed}
use aiyolo.Ass.Shells.Registry.{
  ShellRegistry, unless_done, active_session, opened, claim, register_session, forget,
}

-- The registry after the first part of a close of a session.
abbrev pub closing : String → ShellSession → ShellRegistry → ShellRegistry
closing message session registry = insert session.id (mark_closed message session) registry

closing-free :
    (message : String) (session : ShellSession) (registry : ShellRegistry)
    → active_session session.id (closing message session registry) ≡ none
unfolding mark_closed
closing-free message session registry =
    ap unless_done (lookup-insert_self session.id (mark_closed message session) registry)
    ∙ ground arith

-- Where a session is registered after the first part of a close of the one that has its identifier, it
-- is new and its client is told so; then the rest of the close takes it out of the registry, and no
-- session is found under the identifier while it runs.
pub closed_over :
    (message : String) (closed next : ShellSession) (registry : ShellRegistry)
    → next.id ≡ closed.id
    → next.done ≡ false
    → ((register_session next (closing message closed registry)).0 ≡ opened next true)
      × (active_session next.id (register_session next (closing message closed registry)).1
          ≡ some next)
      × (lookup next.id
            (forget closed.id (register_session next (closing message closed registry)).1)
          ≡ none)
unfolding register_session forget
closed_over message closed next registry same fresh =
    let before = closing message closed registry in
    let free : active_session next.id before ≡ none =
      (ap (λ id. active_session id before) same ∙ closing-free message closed registry) in
    let entered = ap (claim next before) free in
    let after = insert next.id next before in
    (
      ap (λ r. r.0) entered,
      ap (λ r. active_session next.id r.1) entered
          ∙ ap unless_done (lookup-insert_self next.id next before)
          ∙ rw fresh refl,
      ap (λ r. lookup next.id (erase closed.id r.1)) entered
          ∙ ground (arith, same, eq_iff closed.id next.id, lookup-erase closed.id next.id after),
    )
