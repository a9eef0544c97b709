-- ===== src/Api/Routes.antt =====
-- api.go: what the data routes share: the gate, withRelogin, the mapping of errors, AutoSave, and the
-- cache of shared pages.
use mediavida.Base.{ℕ, ◌+◌, Bool, Text, Option, none, some, if◌then◌else◌, ltb}
use mediavida.Cache.{Entries, cache_get, cache_set}
use mediavida.Scraper.{ForumScraper, Packages}
use mediavida.Scraper.Cookies.{save_session}
use mediavida.Scraper.Recovery.{
  ReloginNet, Op, ApiResult, api_ok, api_error, reauth_required, relogin_transient, with_relogin,
}
use mediavida.Sessions.{Server, Call, in_memory, set_session}
use mediavida.Auth.Gate.{Required, scraper, status_401, status_503, require_authenticated}
use mediavida.Api.{ForumOps}
use mediavida.Api.Dto.{Body, error_body, raw}

pub record Response : Type 0 where
  pub status : ℕ
  pub body : Body

abbrev pub success : Body → Response
success b = record { status = 200; body = b }

-- writeError
abbrev pub problem : ℕ → Response
problem status = record { status = status; body = error_body }

-- What the environment gives to one request: the look-up of the session, the answers to a re-login,
-- the scraper's operations before and after it, whether SQLite answers, and the time in seconds.
pub record RouteEnv : Type 0 where
  pub gate : Call
  pub net : ReloginNet
  pub first : ForumOps
  pub second : ForumOps
  pub up : Bool
  pub now : ℕ

-- The scraper of a client's session is one object: its changes are seen in the session.
unfoldable pub put_scraper : Text → ForumScraper → Server → Server
put_scraper client_id s sv = elim (in_memory client_id sv.sessions) [
  | none ↦ sv
  | some p ↦ set_session client_id (some (record p { scraper = s })) sv
]

-- A handler behind requireAuthenticated.
abbrev pub Handler : Type 0
Handler = ForumScraper → Server → Response × Server

-- AutoSave: saves if more than two minutes have passed since the last save.
unfoldable pub auto_save : Packages → Bool → ℕ → ForumScraper → Server → ForumScraper × Server
auto_save std up now s sv =
    if ltb (s.last_save_time + 120) now
    then (let (s', db') = save_session std up now s sv.db in (s', record sv { db = db' }))
    else (s, sv)

module _ (std : Packages) (env : RouteEnv) (client_id : Text) where
  unfoldable pub passed : Handler → Required × Server → Response × Server
  passed k (scraper s, sv) = k s sv
  passed k (status_401, sv) = (problem 401, sv)
  passed k (status_503, sv) = (problem 503, sv)

  -- requireAuthenticated, and the rest of the handler behind it.
  unfoldable pub authenticated : Handler → Server → Response × Server
  authenticated k sv = passed k (require_authenticated std env.gate client_id sv)

  unfoldable pub finished :
      {A : Type 0} → (A → Handler) → Server → ApiResult A × ForumScraper → Response × Server
  finished k sv (api_ok a, s) = k a s sv
  finished k sv (api_error e, s) = (problem 502, sv)
  finished k sv (reauth_required e, s) = (problem 401, sv)
  finished k sv (relogin_transient e, s) = (problem 503, sv)

  -- withRelogin, writeAPIError for an error, and else the rest of the handler.
  unfoldable pub fetching : {A : Type 0} → (ForumOps → Op A) → (A → Handler) → Handler
  fetching op k s sv =
      let (r, s', db') = with_relogin std env.net (op env.first) (op env.second) s sv.db in
      finished k (put_scraper client_id s' (record sv { db = db' })) (r, s')

  unfoldable pub answer : Body → Handler
  answer b s sv = (success b, sv)

  unfoldable pub saving : Body → Handler
  saving b s sv =
      let (s', sv') = auto_save std env.up env.now s sv in (success b, put_scraper client_id s' sv')

  unfoldable pub reject : ℕ → Handler
  reject status s sv = (problem status, sv)

  -- The two routes over sharedCache: `marshal` is encoding/json, `none` where it fails.
  module _ {A : Type 0} (key : Text) (ttl : ℕ) (marshal : Body → Option Text) (op : ForumOps → Op A)
      (body : A → Body) where
    unfoldable pub stored_page : Entries → Server → ApiResult A → Response × Entries × Server
    stored_page c sv (api_ok a) = elim (marshal (body a)) [
      | none ↦ (success (body a), c, sv)
      | some text ↦ (success (raw text), cache_set ttl key text env.now c, sv)
    ]
    stored_page c sv (api_error e) = (problem 502, c, sv)
    stored_page c sv (reauth_required e) = (problem 401, c, sv)
    stored_page c sv (relogin_transient e) = (problem 503, c, sv)

    unfoldable pub on_look :
        Option Text × Entries → ForumScraper → Server → Response × Entries × Server
    on_look (some text, c) s sv = (success (raw text), c, sv)
    on_look (none, c) s sv =
        let (r, s', db') = with_relogin std env.net (op env.first) (op env.second) s sv.db in
        stored_page c (put_scraper client_id s' (record sv { db = db' })) r

    unfoldable pub on_required : Entries → Required × Server → Response × Entries × Server
    on_required c (scraper s, sv) = on_look (cache_get key env.now c env.now c) s sv
    on_required c (status_401, sv) = (problem 401, c, sv)
    on_required c (status_503, sv) = (problem 503, c, sv)

    unfoldable pub shared : Entries → Server → Response × Entries × Server
    shared c sv = on_required c (require_authenticated std env.gate client_id sv)
