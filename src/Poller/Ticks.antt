-- ===== src/Poller/Ticks.antt =====
-- bubbles.go: authedSessions, the one-time baseline of poll, check with its in-flight claims, and
-- effectiveNotifications; keepalive.go walks the sessions the same way.
use mediavida.Base.{
  ◌≡◌, refl, Bool, Text, Option, none, some, List, [], ◌∷◌, arith, if◌then◌else◌, text_key,
}
use mediavida.Base.Maps.{Map, lookup, insert}
use mediavida.Scraper.{Packages}
use mediavida.Scraper.Login.{BubblesResult, bubbles, session_expired, fetch_failed, no_bubbles}
use mediavida.Sessions.{Session, Server, Call, is_authenticated}
use mediavida.Auth.Handlers.{logout}
use mediavida.Auth.HandlerLaws.{lookup-logout}
use mediavida.Poller.{PollState}

-- The sessions that authedSessions lists; `none` is the panic at `s.Status` of a nil *Session.
unfoldable pub authed : Map Text (Option Session) → Option (List (Text × Session))
authed [] = some []
authed ((id, none) ∷ m) = none
authed ((id, some s) ∷ m) = elim (authed m) [
  | none ↦ none
  | some list ↦ some (if is_authenticated s.status then (id, s) ∷ list else list)
]

abbrev pub authed_sessions : Server → Option (List (Text × Session))
authed_sessions sv = authed sv.sessions

authed-nil : (id : Text) (m : Map Text (Option Session)) → lookup id m ≡ some none → authed m ≡ none
unfolding authed lookup
authed-nil id [] h = ground (arith, h)
authed-nil id ((a, none) ∷ m) h = refl
authed-nil id ((a, some s) ∷ m) h = ground (arith, h, authed-nil id m)

-- After a logout of any client, the walk of authedSessions over the sessions ends in the panic of a
-- nil pointer.
authed_sessions-logout :
    (std : Packages) (c : Call) (up : Bool) (id : Text) (sv : Server)
    → authed_sessions (logout std c up id sv) ≡ none
authed_sessions-logout std c up id sv =
    authed-nil id (logout std c up id sv).sessions (lookup-logout std c up id sv)

-- The baseline that poll takes of each session at its start, given what each fetch answers.
unfoldable pub baseline : (Text → BubblesResult) → List (Text × Session) → PollState → PollState
baseline fetch [] st = st
baseline fetch ((id, s) ∷ list) st = baseline fetch list (record st {
  prev =
      insert id
        (elim (fetch id) [
          | bubbles b ↦ b
          | session_expired ↦ no_bubbles
          | fetch_failed ↦ no_bubbles
        ])
        st.prev;
})
