-- ===== src/KeepAlive/Laws.antt =====
-- What refreshAll keeps, and when its walk ends in a panic.
use mediavida.Base.{ℕ, ◌≡◌, refl, Bool, false, Text, Option, none, some, [], ◌∷◌, arith, All, ◌≢◌}
use mediavida.Base.Keys.{text_key}
use mediavida.Base.Maps.{Map, lookup}
use mediavida.Store.{Db}
use mediavida.Scraper.{ForumScraper, Packages}
use mediavida.Scraper.Cookies.{save_session}
use mediavida.Scraper.Login.{GuardNet, LoginNet, login, login_posted, submit_guard, verified}
use mediavida.Scraper.Recovery.{ReloginNet, relogin}
use mediavida.Auth.Handlers.{logout}
use mediavida.Auth.HandlerLaws.{lookup-logout}
use mediavida.Sessions.{Session, Server, Call, is_authenticated}
use mediavida.KeepAlive.{Visit, refresh, refresh_session_of, refresh_each, refresh_all}

-- Whom a scraper logs in, and the client it works for.
abbrev pub account : ForumScraper → Text × Text × Text × Text
account s = (s.user, s.pass, s.totp_secret, s.client_id)

login-account : (net : LoginNet) (s : ForumScraper) → account (login net s).1 ≡ account s
unfolding login login_posted verified
login-account net s = ground arith

submit_guard-account :
    (net : GuardNet) (s : ForumScraper) → account (submit_guard net s).1 ≡ account s
unfolding submit_guard verified
submit_guard-account net s = ground arith

module _ (std : Packages) where
  save_session-account :
      (up : Bool) (now : ℕ) (s : ForumScraper) (db : Db)
      → account (save_session std up now s db).0 ≡ account s
  unfolding save_session
  save_session-account up now s db = ground arith

  relogin-account :
      (net : ReloginNet) (s : ForumScraper) (db : Db) → account (relogin std net s db).1 ≡ account s
  unfolding relogin login submit_guard login_posted verified save_session
  relogin-account net s db = ground arith

  refresh-account :
      (v : Visit) (s : ForumScraper) (db : Db) → account (refresh std v s db).0 ≡ account s
  unfolding refresh
  refresh-account v s db = ground (
    arith,
    save_session-account v.up v.now (record s { jar = v.page_jar }) db,
    relogin-account v.net (record s { jar = v.page_jar }) db,
  )

-- What a walk leaves of an entry: a session that is not authenticated as it was, and of the others
-- the status and the account.
abbrev pub Keeps : Option Session → Option Session → Type 0
Keeps none p = ⊥
Keeps (some s) none = ⊥
Keeps (some s) (some s') =
    (s'.status ≡ s.status)
    × (account s'.scraper ≡ account s.scraper)
    × (is_authenticated s.status ≡ false → s' ≡ s)

-- The same for each entry of the map, at its key.
abbrev pub Walked : Map Text (Option Session) → Map Text (Option Session) → Type 0
Walked [] [] = Unit
Walked [] (e ∷ m) = ⊥
Walked (e ∷ m) [] = ⊥
Walked ((id, p) ∷ m) ((id', p') ∷ m') = (id' ≡ id) × Keeps p p' × Walked m m'

module _ (std : Packages) (visit : Text → Visit) where
  refresh_session_of-Keeps :
      (v : Visit) (s : Session) (db : Db) → Keeps (some s) (some (refresh_session_of std v s db).0)
  unfolding refresh_session_of
  refresh_session_of-Keeps v s db =
      (ground arith, ground (arith, refresh-account std v s.scraper db), (λ h. ground (arith, h)))

  Ends : Map Text (Option Session) → Option (Map Text (Option Session) × Db) → Type 0
  Ends m none = ⊥
  Ends m (some (m', db)) = Walked m m'

  refresh_each-Ends :
      (m : Map Text (Option Session)) (db : Db)
      → All (λ e. e.1 ≢ none) m
      → Ends m (refresh_each std visit m db)
  unfolding refresh_each Ends
  refresh_each-Ends [] db a = tt
  refresh_each-Ends ((id, none) ∷ m) db (n, a) = elim (n refl) [ ]
  refresh_each-Ends ((id, some s) ∷ m) db (n, a) =
      after (refresh_each std visit m (refresh_session_of std (visit id) s db).1)
        (refresh_each-Ends m (refresh_session_of std (visit id) s db).1 a)
    where
      after :
          (r : Option (Map Text (Option Session) × Db))
          → Ends m r
          → Ends ((id, some s) ∷ m) (elim r [
            | none ↦ none
            | some (m', db2) ↦
                some ((id, some (refresh_session_of std (visit id) s db).0) ∷ m', db2)
          ])
      after none w = elim w [ ]
      after (some (m', db2)) w = (refl, refresh_session_of-Keeps (visit id) s db, w)

  -- When no session of the map is nil, a pass of the keep-alive comes to its end. It leaves the same
  -- clients in the same order, each session with its status, its account and its password, and does
  -- not touch those that are not authenticated.
  pub refresh_all-Walked :
      (sv : Server)
      → All (λ e. e.1 ≢ none) sv.sessions
      → (sv' : Server) × (refresh_all std visit sv ≡ some sv') × Walked sv.sessions sv'.sessions
  unfolding refresh_all Ends
  refresh_all-Walked sv a =
      whole (refresh_each std visit sv.sessions sv.db) (refresh_each-Ends sv.sessions sv.db a) refl
    where
      whole :
          (r : Option (Map Text (Option Session) × Db))
          → Ends sv.sessions r
          → refresh_each std visit sv.sessions sv.db ≡ r
          → (sv' : Server) × (refresh_all std visit sv ≡ some sv') × Walked sv.sessions sv'.sessions
      whole none w e = elim w [ ]
      whole (some (m, db)) w e = (record { sessions = m; db = db }, ground (arith, e), w)

  refresh_each-nil :
      (id : Text) (m : Map Text (Option Session)) (db : Db)
      → lookup id m ≡ some none
      → refresh_each std visit m db ≡ none
  unfolding refresh_each lookup
  refresh_each-nil id [] db h = ground (arith, h)
  refresh_each-nil id ((a, none) ∷ m) db h = refl
  refresh_each-nil id ((a, some s) ∷ m) db h =
      ground (arith, h, refresh_each-nil id m (refresh_session_of std (visit a) s db).1)

  -- After a logout of any client, the next pass of the keep-alive ends in the panic of a nil pointer.
  pub refresh_all-logout :
      (c : Call) (up : Bool) (id : Text) (sv : Server)
      → refresh_all std visit (logout std c up id sv) ≡ none
  unfolding refresh_all
  refresh_all-logout c up id sv = ground (
    arith,
    refresh_each-nil id (logout std c up id sv).sessions (logout std c up id sv).db
        (lookup-logout std c up id sv),
  )
