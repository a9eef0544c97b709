-- ===== src/Sessions/CredentialsLaws.antt =====
-- What CreateFromCredentials does on each branch.
use mediavida.Base.{
  ℕ, ◌≡◌, ◌≢◌, Bool, true, false, Text, Option, none, some, [], arith, Bool-cases, inl, inr,
}
use mediavida.Base.Keys.{text_key}
use mediavida.Base.Strings.{equal_fold}
use mediavida.Store.{SessionRecord, Db, ok}
use mediavida.Store.Sessions.{get_session}
use mediavida.Scraper.{SavedSession, ForumScraper, Packages}
use mediavida.Scraper.Cookies.{
  load_session, load_from_record, save_session, new_scraper, with_credentials, live_cookies,
}
use mediavida.Scraper.Login.{
  guard_required, Outcome, done, error, LoginNet, login, login_posted, verified,
}
use mediavida.Sessions.{Session, authenticated, guard_needed, Server, Call, in_memory}
use mediavida.Sessions.Restore.{scraper_for, live_session}
use mediavida.Sessions.RestoreLaws.{in_memory-set_session}
use mediavida.Sessions.Credentials.{create_from_credentials}

abbrev pub HasUser : (Text → Type 0) → Option Session → Type 0
HasUser P none = ⊥
HasUser P (some s) = P s.scraper.user

-- The client's session in memory, before and after a login with this outcome.
abbrev pub Installed : Outcome → Option Session → Option Session → Type 0
Installed done before none = ⊥
Installed done before (some s) = s.status ≡ authenticated
Installed (error (guard_required url)) before none = ⊥
Installed (error (guard_required url)) before (some s) =
    (s.status ≡ guard_needed) × (s.guard_url ≡ url)
Installed (error _) before after = after ≡ before

login-user : (net : LoginNet) (s : ForumScraper) → (login net s).1.user ≡ s.user
unfolding login login_posted verified
login-user net s = ground arith

save_session-user :
    (std : Packages) (up : Bool) (now : ℕ) (s : ForumScraper) (db : Db)
    → (save_session std up now s db).0.user ≡ s.user
unfolding save_session
save_session-user std up now s db = ground arith

scraper_for-user : (secret user pass id : Text) → (scraper_for secret user pass id).user ≡ user
unfolding scraper_for new_scraper
scraper_for-user secret user pass id = ground arith

scraper_for-client_id :
    (secret user pass id : Text) → (scraper_for secret user pass id).client_id ≡ id
unfolding scraper_for new_scraper
scraper_for-client_id secret user pass id = ground arith

equal_fold_refl : (a : Text) → equal_fold a a ≡ true
unfolding equal_fold
equal_fold_refl a = ground arith

load_session-absent :
    (std : Packages) (up : Bool) (now : ℕ) (s : ForumScraper) (db : Db) (id : Text)
    → s.client_id ≡ id
    → get_session up id db ≡ ok none
    → load_session std up now s db ≡ (false, s)
unfolding load_session
load_session-absent std up now s db id e h = ground arith

load_session-stale :
    (std : Packages) (up : Bool) (now : ℕ) (s : ForumScraper) (db : Db) (r : SessionRecord)
    (sess : SavedSession)
    → get_session up s.client_id db ≡ ok (some r)
    → std.unmarshal r.cookies ≡ some sess
    → sess.user ≢ []
    → sess.cookies ≢ []
    → live_cookies now sess.cookies ≡ []
    → load_session std up now s db ≡ (false, record s { user = sess.user; pass = sess.pass })
unfolding load_session load_from_record with_credentials
load_session-stale std up now s db r sess found parsed named some_cookie expired = ground arith

module _ (std : Packages) (c : Call) (id user pass : Text) (sv : Server) where
  abbrev after : Outcome × Server
  after = create_from_credentials std c id user pass sv

  -- On success the client has an authenticated session in memory; if the guard is required, one
  -- that waits for the code at the guard's URL; after any other error the one it had before.
  create_from_credentials-Installed :
      Installed after.0 (in_memory id sv.sessions) (in_memory id after.1.sessions)
  unfolding create_from_credentials live_session
  create_from_credentials-Installed = grind (arith, in_memory-set_session)

  -- No login touches the sessions of other clients in memory.
  pub create_from_credentials-others :
      (b : Text) → id ≢ b → in_memory b after.1.sessions ≡ in_memory b sv.sessions
  unfolding create_from_credentials
  create_from_credentials-others b h = grind (arith, in_memory-set_session)

  -- A login that succeeds installs a session of the account that was asked for, when a stored
  -- record of the client, if there is one, still has a usable cookie.
  pub create_from_credentials-user :
      ((load_session std c.read_up c.now (scraper_for c.env_secret user pass id) sv.db).0 ≡ false
        → get_session c.read_up id sv.db ≡ ok none)
      → after.0 ≡ done
      → HasUser (λ u. equal_fold u user ≡ true) (in_memory id after.1.sessions)
  unfolding create_from_credentials live_session
  create_from_credentials-user absent h =
      let s : ForumScraper = scraper_for c.env_secret user pass id in
      let none_loaded = λ (e : get_session c.read_up id sv.db ≡ ok none).
        load_session-absent std c.read_up c.now s sv.db id
          (scraper_for-client_id c.env_secret user pass id) e in
      elim (Bool-cases (load_session std c.read_up c.now s sv.db).0) [
        | inl e ↦ grind (
          arith, e, in_memory-set_session, login-user, save_session-user, scraper_for-user,
          equal_fold_refl,
        )
        | inr e ↦
            (let f = none_loaded (absent e) in
              grind (
                arith, f, in_memory-set_session, login-user, save_session-user, scraper_for-user,
                equal_fold_refl,
              ))
      ]

  -- When the stored record of the client names a user and all of its cookies, of which there are
  -- some, have expired, a login that succeeds installs a session of the user of the record,
  -- whatever user and password were given.
  pub create_from_credentials-stale :
      (r : SessionRecord) (sess : SavedSession)
      → get_session c.read_up id sv.db ≡ ok (some r)
      → std.unmarshal r.cookies ≡ some sess
      → sess.user ≢ []
      → sess.cookies ≢ []
      → live_cookies c.now sess.cookies ≡ []
      → after.0 ≡ done
      → HasUser (λ u. u ≡ sess.user) (in_memory id after.1.sessions)
  unfolding create_from_credentials live_session
  create_from_credentials-stale r sess found parsed named some_cookie expired h =
      let s : ForumScraper = scraper_for c.env_secret user pass id in
      let l =
        load_session-stale std c.read_up c.now s sv.db r sess
          (rw (scraper_for-client_id c.env_secret user pass id) found) parsed named some_cookie
          expired in
      grind (arith, l, in_memory-set_session, login-user, save_session-user)
