-- ===== src/Auth/Handlers.antt =====
-- auth.go: POST /auth/app-login; api.go: POST /auth/login, GET /auth/status, POST /auth/logout.
use mediavida.Base.{
  ℕ, Bool, false, Text, Option, none, some, ◌&&◌, ◌||◌, not, if◌then◌else◌, is_empty, same,
}
use mediavida.Base.Keys.{text_key}
use mediavida.Base.Strings.{trim_space}
use mediavida.Store.{Reply, ok, failed}
use mediavida.Store.Tokens.{add_app_alias}
use mediavida.Scraper.{ForumScraper, Packages}
use mediavida.Scraper.Cookies.{save_session, clear_session, matches_credentials}
use mediavida.Scraper.Login.{guard_required, Outcome, done, error, GuardNet, submit_guard}
use mediavida.Sessions.{Session, authenticated, is_authenticated, Server, Call, set_session}
use mediavida.Sessions.Restore.{lookup_session, get_of}
use mediavida.Sessions.Credentials.{create_from_credentials, drop_session}
use mediavida.Sessions.Canonical.{canonical_for_user}

-- What a login handler answers: 401, 400, or 200 with a status.
pub data LoginReply : Type 0 where
  invalid_app_key bad_request needs_code no_session wrong_code login_failed : LoginReply
  authenticated_as : Text → LoginReply

-- The environment of one login: that of the log-in itself, of the Get behind it, of the guard.
pub record LoginEnv : Type 0 where
  pub create : Call
  pub get : Call
  pub guard : GuardNet
  pub save_up : Bool
  pub now : ℕ

module _ (std : Packages) (env : LoginEnv) (client_id user : Text) where
  -- A code that Mediavida accepts makes the session authenticated and saves it.
  coded : Session → Outcome × ForumScraper → Server → LoginReply × Server
  coded s (done, scraper) sv =
      let (scraper', db') = save_session std env.save_up env.now scraper sv.db in
      (
        authenticated_as user,
        set_session client_id (some (record s { scraper = scraper'; status = authenticated }))
            (record sv { db = db' }),
      )
  coded s (error e, scraper) sv =
      (wrong_code, set_session client_id (some (record s { scraper = scraper })) sv)

  unfoldable pub submit_code : Reply (Option Session) × Server → LoginReply × Server
  unfolding coded
  submit_code (p, sv) = elim (get_of p) [
    | none ↦ (no_session, sv)
    | some s ↦ coded s (submit_guard env.guard s.scraper) sv
  ]

  -- The end of both login handlers; `totp` says whether there is a code to submit.
  after_create : Bool → Outcome × Server → LoginReply × Server
  after_create totp (done, sv) = (authenticated_as user, sv)
  after_create totp (error (guard_required url), sv) =
      if totp then submit_code (lookup_session std env.get client_id sv) else (needs_code, sv)
  after_create totp (error e, sv) = (login_failed, sv)

  -- POST /auth/login, from a decoded body. `totp`: a code was given, or can be made of
  -- MV_TOTP_SECRET.
  unfoldable pub api_login : Text → Bool → Server → LoginReply × Server
  unfolding after_create
  api_login pass totp sv =
      if is_empty user || is_empty pass
      then (bad_request, sv)
      else after_create totp (create_from_credentials std env.create client_id user pass sv)

-- The body of POST /auth/app-login.
pub record AppLogin : Type 0 where
  pub token : Text
  pub user : Text
  pub pass : Text
  pub totp : Text

-- The Get of the canonical owner, and the writes of the alias.
pub record AliasEnv : Type 0 where
  pub canonical : Call
  pub drop_up : Bool
  pub alias_up : Bool

abbrev matching : AppLogin → Option Session → Bool
matching req none = false
matching req (some s) = matches_credentials req.user req.pass s.scraper

unfoldable pub alias_onto : AliasEnv → ℕ → Text → Text → Server → Server
alias_onto env now token owner sv =
    let dropped : Server = drop_session env.drop_up token sv in
    record dropped { db = (add_app_alias env.alias_up token owner now dropped.db).1 }

module _ (std : Packages) (env : LoginEnv) (aliases : AliasEnv) (valid : Text → Bool) where
  own_login : AppLogin → Server → LoginReply × Server
  own_login req sv =
      after_create std env req.token req.user (not (is_empty req.totp))
        (create_from_credentials std env.create req.token req.user req.pass sv)

  onto : AppLogin → Text → Reply (Option Session) × Server → LoginReply × Server
  onto req owner (p, sv) =
      if matching req (get_of p)
      then (authenticated_as req.user, alias_onto aliases env.now req.token owner sv)
      else own_login req sv

  logged_in_as : AppLogin → Server → LoginReply × Server
  logged_in_as req sv = elim (canonical_for_user req.user (some valid) sv.sessions) [
    | none ↦ own_login req sv
    | some owner ↦ onto req owner (lookup_session std aliases.canonical owner sv)
  ]

  -- `app_key` is APP_KEY, `given` the header X-App-Key; `body` is `none` if it is not JSON.
  unfoldable pub app_login : Text → Text → Option AppLogin → Server → LoginReply × Server
  unfolding logged_in_as onto own_login after_create
  app_login app_key given body sv =
      if not (is_empty app_key) && not (same given app_key)
      then (invalid_app_key, sv)
      else elim body [
        | none ↦ (bad_request, sv)
        | some b ↦
            (let req : AppLogin = record b { token = trim_space b.token } in
              if is_empty req.token || is_empty req.user || is_empty req.pass
              then (bad_request, sv)
              else logged_in_as req sv)
      ]

-- GET /auth/status: `none` is the 503.
status_of : Reply (Option Session) × Server → Option Bool × Server
status_of (failed, sv) = (none, sv)
status_of (ok none, sv) = (some false, sv)
status_of (ok (some s), sv) = (some (is_authenticated s.status), sv)

unfoldable pub auth_status : Packages → Call → Text → Server → Option Bool × Server
unfolding status_of
auth_status std c client_id sv = status_of (lookup_session std c client_id sv)

-- POST /auth/logout. The entry of the map becomes a nil pointer; the answer is always 200.
cleared : Bool → Text → Reply (Option Session) × Server → Server
cleared up client_id (p, sv) = elim (get_of p) [
  | none ↦ set_session client_id none sv
  | some s ↦ set_session client_id none (record sv { db = (clear_session up s.scraper sv.db).1 })
]

unfoldable pub logout : Packages → Call → Bool → Text → Server → Server
unfolding cleared
logout std c up client_id sv = cleared up client_id (lookup_session std c client_id sv)
