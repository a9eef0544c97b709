-- ===== src/Scraper/Recovery.antt =====
-- scraper.go and api.go: Relogin, and the retry of an API operation around it.
use mediavida.Base.{ℕ, Bool, true, false, Text, Option, none, some, if◌then◌else◌, is_empty}
use mediavida.Store.{Db}
use mediavida.Scraper.{ForumScraper, Packages}
use mediavida.Scraper.Cookies.{save_session}
use mediavida.Scraper.Login.{
  LoginError, guard_required, no_csrf_token, Outcome, done, error, LoginNet, login, GuardNet,
  submit_guard, LoginPage, validate_session,
}

-- What the requests of one Relogin answer, whether SQLite answers the save, the time, and the code
-- that generateTOTP makes of the secret (`none`: the secret is not base32).
pub record ReloginNet : Type 0 where
  pub login_net : LoginNet
  pub guard_net : GuardNet
  pub page : Option LoginPage
  pub up : Bool
  pub now : ℕ
  pub totp : Text → Option Text

pub data ReloginError : Type 0 where
  login_error : LoginError → ReloginError
  totp_error : ReloginError
  guard_failed : LoginError → ReloginError

pub data Relogged : Type 0 where
  renewed : Relogged
  not_renewed : ReloginError → Relogged

module _ (std : Packages) (net : ReloginNet) where
  saved : ForumScraper → Db → Relogged × ForumScraper × Db
  saved s db = let (s', db') = save_session std net.up net.now s db in (renewed, s', db')

  guarded : Outcome × ForumScraper → Db → Relogged × ForumScraper × Db
  guarded (done, s) db = saved s db
  guarded (error e, s) db = (not_renewed (guard_failed e), s, db)

  after_login : Outcome × ForumScraper → Db → Relogged × ForumScraper × Db
  after_login (done, s) db = saved s db
  after_login (error (guard_required url), s) db =
      if is_empty s.totp_secret
      then (not_renewed (login_error (guard_required url)), s, db)
      else elim (net.totp s.totp_secret) [
        | none ↦ (not_renewed totp_error, s, db)
        | some code ↦ guarded (submit_guard net.guard_net s) db
      ]
  after_login (error no_csrf_token, s) db =
      if validate_session net.page
      then saved (record s { logged_in = true }) db
      else (not_renewed (login_error no_csrf_token), s, db)
  after_login (error e, s) db = (not_renewed (login_error e), s, db)

  unfoldable pub relogin : ForumScraper → Db → Relogged × ForumScraper × Db
  unfolding after_login guarded saved
  relogin s db = after_login (login net.login_net (record s { logged_in = false })) db

-- The error that an operation of the scraper returns, as withRelogin reads it.
pub data OpError : Type 0 where
  op_expired op_failed : OpError

-- `op_ok` carries what the operation stores into the variables that it captures.
pub data OpResult (A : Type 0) : Type 0 where
  op_ok : A → OpResult A
  op_error : OpError → OpResult A

-- What withRelogin returns.
pub data ApiResult (A : Type 0) : Type 0 where
  api_ok : A → ApiResult A
  api_error : OpError → ApiResult A
  reauth_required relogin_transient : ReloginError → ApiResult A

unfoldable pub api_result : {A : Type 0} → OpResult A → ApiResult A
api_result (op_ok a) = api_ok a
api_result (op_error e) = api_error e

-- errors.As(rerr, &guardErr)
unfoldable pub is_guard_error : ReloginError → Bool
is_guard_error (login_error (guard_required url)) = true
is_guard_error (guard_failed (guard_required url)) = true
is_guard_error _ = false

-- !errors.As(err, &expired) && scraper.IsLoggedIn()
unfoldable pub is_plain_failure : OpError → Bool → Bool
is_plain_failure op_expired logged_in = false
is_plain_failure op_failed logged_in = logged_in

-- An operation `fn`: its first run and its second may answer differently.
abbrev pub Op : Type 0 → Type 0
Op A = ForumScraper → OpResult A × ForumScraper

module _ {A : Type 0} (std : Packages) (net : ReloginNet) (first second : Op A) where
  retried : Relogged × ForumScraper × Db → ApiResult A × ForumScraper × Db
  retried (renewed, s, db) = let (r, s') = second s in (api_result r, s', db)
  retried (not_renewed e, s, db) =
      (if is_guard_error e then reauth_required e else relogin_transient e, s, db)

  recovered : OpResult A × ForumScraper → Db → ApiResult A × ForumScraper × Db
  recovered (op_ok a, s) db = (api_ok a, s, db)
  recovered (op_error e, s) db =
      if is_plain_failure e s.logged_in
      then (api_error e, s, db)
      else retried (relogin std net s db)

  unfoldable pub with_relogin : ForumScraper → Db → ApiResult A × ForumScraper × Db
  unfolding recovered retried
  with_relogin s db = recovered (first s) db

-- writeAPIError: the HTTP status, 200 where there is no error.
unfoldable pub api_status : {A : Type 0} → ApiResult A → ℕ
api_status (api_ok a) = 200
api_status (reauth_required e) = 401
api_status (relogin_transient e) = 503
api_status (api_error e) = 502
