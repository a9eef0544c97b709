-- ===== src/Sessions/Credentials.antt =====
-- session.go: CreateFromCredentials, AutoLogin, CreateWatchAlias and DropSession.
use mediavida.Base.{Bool, true, false, Text, codes, Option, none, some, ◌++◌, if◌then◌else◌}
use mediavida.Base.Keys.{text_key}
use mediavida.Base.Strings.{equal_fold}
use mediavida.Base.Maps.{erase}
use mediavida.Store.{Db}
use mediavida.Store.Sessions.{delete_session}
use mediavida.Scraper.{ForumScraper, Packages}
use mediavida.Scraper.Cookies.{load_session, save_session}
use mediavida.Scraper.Login.{guard_required, Outcome, done, error, login}
use mediavida.Scraper.Recovery.{Relogged, renewed, not_renewed, relogin}
use mediavida.Sessions.{Session, guard_needed, Server, Call, set_session}
use mediavida.Sessions.Restore.{scraper_for, live_session}

module _ (std : Packages) (c : Call) (client_id user pass : Text) where
  -- The end of CreateFromCredentials, behind Login.
  logged : Outcome × ForumScraper → Server → Outcome × Server
  logged (done, s) sv =
      let (s', db') = save_session std c.net.up c.now s sv.db in
      (done, set_session client_id (some (live_session s')) (record sv { db = db' }))
  logged (error (guard_required url), s) sv = (
    error (guard_required url),
    set_session client_id (some (record { scraper = s; status = guard_needed; guard_url = url }))
        sv,
  )
  logged (error e, s) sv = (error e, sv)

  attempted : Bool × ForumScraper → Server → Outcome × Server
  attempted (true, s) sv =
      if equal_fold s.user user
      then (done, set_session client_id (some (live_session s)) sv)
      else logged (login c.net.login_net (scraper_for c.env_secret user pass client_id)) sv
  attempted (false, s) sv = logged (login c.net.login_net s) sv

  -- CreateFromCredentials
  unfoldable pub create_from_credentials : Server → Outcome × Server
  unfolding attempted logged
  create_from_credentials sv =
      attempted
        (load_session std c.read_up c.now (scraper_for c.env_secret user pass client_id) sv.db) sv

  installed : Relogged × ForumScraper × Db → Server → Relogged × Server
  installed (renewed, s, db) sv =
      (renewed, set_session client_id (some (live_session s)) (record sv { db = db }))
  installed (not_renewed e, s, db) sv = (not_renewed e, record sv { db = db })

  -- AutoLogin
  unfoldable pub auto_login : Server → Relogged × Server
  unfolding installed
  auto_login sv =
      installed (relogin std c.net (scraper_for c.env_secret user pass client_id) sv.db) sv

-- DropSession: the record goes if SQLite answers.
unfoldable pub drop_session : Bool → Text → Server → Server
drop_session up client_id sv = record sv {
  sessions = erase client_id sv.sessions;
  db = (delete_session up client_id sv.db).1;
}

-- CreateWatchAlias, from what Get answers and the new flow ID.
unfoldable pub create_watch_alias : Option Session → Text → Option Text
create_watch_alias none flow_id = none
create_watch_alias (some s) flow_id = some (codes "wf_" ++ flow_id)
