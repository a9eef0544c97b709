-- ===== src/Scraper/Laws.antt =====
-- What holds of saved sessions and of re-login.
use mathlib.Core.List.{Perm}
use mediavida.Base.{
  ℕ, ◌≡◌, ◌≢◌, ap, Bool, true, false, Text, codes, Option, none, some, List, [], arith, text_key,
}
use mediavida.Base.Sort.{sort-perm}
use mediavida.Base.Strings.{contains}
use mediavida.Store.{Db}
use mediavida.Scraper.{Cookie, ForumScraper, Packages}
use mediavida.Scraper.Cookies.{save_session, auth_cookie_fingerprint, auth_pairs, join_zero}
use mediavida.Scraper.Login.{
  guard_required, error, LoginNet, login, submit_guard, login_posted, verified,
}
use mediavida.Scraper.Recovery.{
  ReloginNet, ReloginError, renewed, not_renewed, relogin, with_relogin, Op, api_status,
  is_guard_error, api_result,
}

-- The answer to the POST of the credentials is a redirect to the guard.
abbrev pub RedirectsToGuard : Option (ℕ × Text) → Type 0
RedirectsToGuard none = ⊥
RedirectsToGuard (some (status, loc)) =
    (status ≡ 302) × (contains loc (codes "/login/guard/") ≡ true)

module _ (std : Packages) where
  -- The fingerprint depends on the auth cookies alone, and not on their order in the jar.
  pub auth_cookie_fingerprint-perm :
      (cs ds : List Cookie)
      → Perm (auth_pairs cs) (auth_pairs ds)
      → auth_cookie_fingerprint std cs ≡ auth_cookie_fingerprint std ds
  unfolding auth_cookie_fingerprint
  auth_cookie_fingerprint-perm cs ds p = ap (λ l. std.sha256_hex (join_zero l)) (sort-perm p)

  save_again :
      (up : Bool) (now : ℕ) (s : ForumScraper) (db : Db) (cs : List Cookie)
      → s.last_cookie_fingerprint ≡ auth_cookie_fingerprint std cs
      → s.last_cookie_fingerprint ≢ []
      → auth_cookie_fingerprint std s.jar ≡ auth_cookie_fingerprint std cs
      → save_session std up now s db ≡ (s, db)
  unfolding save_session
  save_again up now s db cs p q r = ground arith

  -- SaveSession writes nothing when the auth cookies in the jar are, in any order, those of the last
  -- save, whatever the other cookies are.
  save_session-same_cookies :
      (up : Bool) (now : ℕ) (s : ForumScraper) (db : Db) (cs : List Cookie)
      → s.last_cookie_fingerprint ≡ auth_cookie_fingerprint std cs
      → s.last_cookie_fingerprint ≢ []
      → Perm (auth_pairs s.jar) (auth_pairs cs)
      → save_session std up now s db ≡ (s, db)
  save_session-same_cookies up now s db cs last filled p =
      save_again up now s db cs last filled (auth_cookie_fingerprint-perm s.jar cs p)

  -- A failed re-login writes nothing: the durable sessions are those before it, whatever the
  -- requests answered.
  pub relogin-keeps :
      (net : ReloginNet) (s : ForumScraper) (db : Db) (e : ReloginError)
      → (relogin std net s db).0 ≡ not_renewed e
      → (relogin std net s db).2 ≡ db
  unfolding relogin
  relogin-keeps net s db e h = ground arith

  -- A re-login that succeeds leaves the scraper logged in.
  pub relogin-logged_in :
      (net : ReloginNet) (s : ForumScraper) (db : Db)
      → (relogin std net s db).0 ≡ renewed
      → (relogin std net s db).1.logged_in ≡ true
  unfolding relogin login submit_guard login_posted verified save_session
  relogin-logged_in net s db h = ground arith

  login_guard :
      (net : LoginNet) (s : ForumScraper) (url : Text)
      → (login net s).0 ≡ error (guard_required url)
      → RedirectsToGuard net.post
  unfolding login login_posted verified
  login_guard net s url h = ground arith

  login-totp_secret :
      (net : LoginNet) (s : ForumScraper) → (login net s).1.totp_secret ≡ s.totp_secret
  unfolding login login_posted verified
  login-totp_secret net s = ground arith

  relogin_guard_secret :
      (net : ReloginNet) (s : ForumScraper) (db : Db) (e : ReloginError)
      → (relogin std net s db).0 ≡ not_renewed e
      → is_guard_error e ≡ true
      → s.totp_secret ≡ []
  unfolding relogin submit_guard verified is_guard_error
  relogin_guard_secret net s db e h g =
      ground (arith, login-totp_secret net.login_net (record s { logged_in = false }))

  relogin_guard_redirect :
      (net : ReloginNet) (s : ForumScraper) (db : Db) (e : ReloginError)
      → (relogin std net s db).0 ≡ not_renewed e
      → is_guard_error e ≡ true
      → RedirectsToGuard net.login_net.post
  unfolding relogin login login_posted verified submit_guard is_guard_error
  relogin_guard_redirect net s db e h g = ground arith

  -- withRelogin ends in a 401 only when the scraper has no TOTP secret and Mediavida has redirected
  -- the login to its guard: no other failure of the operation or of the re-login logs a device out.
  pub with_relogin_401 :
      {A : Type 0} (net : ReloginNet) (first second : Op A) (s : ForumScraper) (db : Db)
      → api_status (with_relogin std net first second s db).0 ≡ 401
      → ((first s).1.totp_secret ≡ []) × RedirectsToGuard net.login_net.post
  unfolding with_relogin api_status api_result
  with_relogin_401 {A} net first second s db h =
      grind
        (arith, relogin_guard_secret net (first s).1 db, relogin_guard_redirect net (first s).1 db)
