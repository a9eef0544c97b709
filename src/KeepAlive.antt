-- ===== src/KeepAlive.antt =====
-- keepalive.go: refreshAll, and ForEach of session.go, which it walks the sessions with.
pub mod Laws
use mediavida.Base.{ℕ, Bool, Text, Option, none, some, List, [], ◌∷◌, if◌then◌else◌}
use mediavida.Base.Maps.{Map}
use mediavida.Store.{Db}
use mediavida.Scraper.{Cookie, ForumScraper, Packages}
use mediavida.Scraper.Cookies.{save_session}
use mediavida.Scraper.Login.{LoginPage, validate_session}
use mediavida.Scraper.Recovery.{ReloginNet, relogin}
use mediavida.Sessions.{Session, Server, is_authenticated}

-- What the requests for one session answer: the jar that the home page leaves behind, the page of
-- /login with the jar behind it, and a re-login; whether SQLite answers a save, and the time.
pub record Visit : Type 0 where
  pub home_jar : List Cookie
  pub page : Option LoginPage
  pub page_jar : List Cookie
  pub net : ReloginNet
  pub up : Bool
  pub now : ℕ

module _ (std : Packages) where
  -- The body of refreshAll behind its guard. What RefreshSession returns is only logged.
  unfoldable pub refresh : Visit → ForumScraper → Db → ForumScraper × Db
  refresh v s db =
      let s1 : ForumScraper = if s.logged_in then record s { jar = v.home_jar } else s in
      let s2 : ForumScraper = record s1 { jar = v.page_jar } in
      if validate_session v.page
      then save_session std v.up v.now s2 db
      else (let (o, s3, db3) = relogin std v.net s2 db in (s3, db3))

  -- The callback at one session.
  unfoldable pub refresh_session_of : Visit → Session → Db → Session × Db
  refresh_session_of v s db =
      let (f, db') = refresh v s.scraper db in
      if is_authenticated s.status then (record s { scraper = f }, db') else (s, db)

  -- ForEach with that callback, which changes the scrapers in place; `visit` holds the answers for
  -- each client. `none` is the panic at `s.Status` of a nil *Session.
  unfoldable pub refresh_each :
      (Text → Visit) → Map Text (Option Session) → Db → Option (Map Text (Option Session) × Db)
  refresh_each visit [] db = some ([], db)
  refresh_each visit ((id, none) ∷ m) db = none
  refresh_each visit ((id, some s) ∷ m) db =
      let (s', db1) = refresh_session_of (visit id) s db in
      elim (refresh_each visit m db1) [
        | none ↦ none
        | some (m', db2) ↦ some ((id, some s') ∷ m', db2)
      ]

  unfoldable pub refresh_all : (Text → Visit) → Server → Option Server
  refresh_all visit sv = elim (refresh_each visit sv.sessions sv.db) [
    | none ↦ none
    | some (m, db) ↦ some (record sv { sessions = m; db = db })
  ]
