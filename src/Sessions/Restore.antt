-- ===== src/Sessions/Restore.antt =====
-- session.go: Lookup, restoreSessionE, restoreFromRecord and RestoreAll.
use mediavida.Base.{
  ℕ, ◌+◌, Bool, true, false, Text, Option, none, some, List, [], ◌∷◌, ◌||◌, if◌then◌else◌, is_empty,
}
use mediavida.Store.{SessionRecord, Db, Reply, ok, failed}
use mediavida.Store.Sessions.{get_session, all_sessions}
use mediavida.Scraper.{ForumScraper, Packages}
use mediavida.Scraper.Cookies.{new_scraper, load_from_record}
use mediavida.Scraper.Recovery.{Relogged, renewed, not_renewed, relogin}
use mediavida.Sessions.{Session, authenticated, Server, Call, in_memory, set_session}

-- NewForumScraper, then SetTOTPSecret if MV_TOTP_SECRET is set.
unfoldable pub scraper_for : Text → Text → Text → Text → ForumScraper
scraper_for env_secret user pass client_id =
    let s : ForumScraper = new_scraper user pass client_id in
    if is_empty env_secret then s else record s { totp_secret = env_secret }

unfoldable pub live_session : ForumScraper → Session
live_session s = record { scraper = s; status = authenticated; guard_url = [] }

module _ (std : Packages) (c : Call) where
  reloaded : Text → Relogged × ForumScraper × Db → Server → Bool × Server
  reloaded client_id (renewed, s, db) sv =
      (true, set_session client_id (some (live_session s)) (record sv { db = db }))
  reloaded client_id (not_renewed e, s, db) sv = (false, record sv { db = db })

  trusted : Text → Bool × ForumScraper → Server → Bool × Server
  trusted client_id (true, s) sv = (true, set_session client_id (some (live_session s)) sv)
  trusted client_id (false, s) sv =
      if is_empty s.user || is_empty s.pass
      then (false, sv)
      else reloaded client_id (relogin std c.net s sv.db) sv

  -- restoreFromRecord
  unfoldable pub restore_from_record : SessionRecord → Server → Bool × Server
  unfolding trusted reloaded
  restore_from_record r sv =
      trusted r.client_id
        (load_from_record std c.now r (scraper_for c.env_secret [] [] r.client_id)) sv

  rehydrated : Text → Bool × Server → Reply (Option Session) × Server
  rehydrated client_id (true, sv) = (ok (in_memory client_id sv.sessions), sv)
  rehydrated client_id (false, sv) = (ok none, sv)

  from_store : Text → Reply (Option SessionRecord) → Server → Reply (Option Session) × Server
  from_store client_id failed sv = (failed, sv)
  from_store client_id (ok none) sv = (ok none, sv)
  from_store client_id (ok (some r)) sv = rehydrated client_id (restore_from_record r sv)

  -- Lookup: `failed` is errSessionStoreUnavailable.
  unfoldable pub lookup_session : Text → Server → Reply (Option Session) × Server
  unfolding from_store rehydrated
  lookup_session client_id sv = elim (in_memory client_id sv.sessions) [
    | some s ↦ (ok (some s), sv)
    | none ↦ from_store client_id (get_session c.read_up client_id sv.db) sv
  ]

-- Get: nil for an error too.
unfoldable pub get_of : Reply (Option Session) → Option Session
get_of (ok p) = p
get_of failed = none

-- RestoreAll. `Get` tries to restore each record first; `retry` is what the environment gives to
-- the second attempt, if it comes to one.
module _ (std : Packages) (first retry : Text → Call) where
  unfoldable pub attempt : SessionRecord → Reply (Option Session) × Server → ℕ × Server
  attempt r (p, sv) =
      let (restored, sv') = restore_from_record std (retry r.client_id) r sv in
      elim (get_of p) [ some s ↦ (0, sv) | none ↦ (if restored then 1 else 0, sv') ]

  unfoldable pub restore_each : List SessionRecord → Server → ℕ × Server
  restore_each [] sv = (0, sv)
  restore_each (r ∷ rs) sv =
      let (k, sv') =
        if is_empty r.client_id
        then (0, sv)
        else attempt r (lookup_session std (first r.client_id) r.client_id sv) in
      let (n, last) = restore_each rs sv' in (k + n, last)

  unfoldable pub restore_all : Bool → Server → ℕ × Server
  unfolding restore_each attempt
  restore_all up sv = elim (all_sessions up sv.db) [
    | failed ↦ (0, sv)
    | ok records ↦ restore_each records sv
  ]
