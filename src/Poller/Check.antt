-- ===== src/Poller/Check.antt =====
-- bubbles.go: checkOne and handlePollSession.
use mediavida.Base.{
  ℕ, Bool, true, false, Text, codes, Option, none, some, List, [], ◌∷◌, ◌++◌, if◌then◌else◌, not,
  ◌&&◌, ◌||◌, same, text_key,
}
use mediavida.Base.Int.{ℤ, pos, ltb_ℤ, int_key}
use mediavida.Base.Maps.{Map, lookup, insert, erase}
use mediavida.Store.{Db}
use mediavida.Hub.{Hub, publish_frame}
use mediavida.Hub.Stream.{event_frame}
use mediavida.Scraper.{Cookie, ForumScraper, Packages}
use mediavida.Scraper.Cookies.{save_session}
use mediavida.Scraper.Login.{
  refresh_session, Bubbles, BubblesAnswer, BubblesResult, bubbles, session_expired, fetch_failed,
  fetch_bubbles,
}
use mediavida.Scraper.Recovery.{ReloginNet, Relogged, renewed, not_renewed, relogin, is_guard_error}
use mediavida.Sessions.{Session, is_authenticated}
use mediavida.Activity.{ThreadActivity}
use mediavida.Poller.{PollState, PushJob, Effect, guard_webhook, publish, push, check_mod}
use mediavida.Poller.Breaker.{skipped, record_failure, record_success}
use mediavida.Poller.Favorites.{Favorite, enrich_favorites, prev_counts}

-- What the environment gives to one poll: the status of the home page that a refresh visits and
-- the jar behind it; the answers to the first fetch, to a re-login and to the second fetch; the
-- favorites page; the count of the pending store; whether SQLite answers a save; the time; and who
-- listens: an SSE subscriber, an FCM token, a webhook.
pub record PollNet : Type 0 where
  pub home : Option ℕ
  pub refreshed_jar : List Cookie
  pub first : Option BubblesAnswer
  pub net : ReloginNet
  pub second : Option BubblesAnswer
  pub favorites : Option (List Favorite)
  pub pending_count : ℕ
  pub up : Bool
  pub now : ℕ
  pub has_subscribers : Bool
  pub has_tokens : Bool
  pub has_webhook : Bool

-- The scraper, the tables, the state of the poller and what was sent.
pub record Polled : Type 0 where
  pub scraper : ForumScraper
  pub db : Db
  pub state : PollState
  pub sent : List Effect

unfoldable pub should_poll : PollNet → Bool
should_poll n = n.has_subscribers || n.has_tokens || n.has_webhook

-- effectiveNotifications
unfoldable pub effective_notifications : ℕ → ℤ → ℤ
effective_notifications pending bn = if ltb_ℤ bn (pos pending) then pos pending else bn

-- notifyClient of an event whose notifications are the effective ones; `marshal` is the JSON of its
-- counters.
unfoldable pub notify_client : (Bubbles → Text) → Text → Bubbles → Hub → Option Hub
notify_client marshal client_id event =
    publish_frame client_id (event_frame (codes "bubbles") (marshal event))

-- Whether a counter changed.
unfoldable pub changed : Bubbles → Bubbles → Bool
changed prev current =
    not (same current.notifications prev.notifications)
    || (not (same current.messages prev.messages) || not (same current.favorites prev.favorites))

any_thread : List ThreadActivity → Bool
any_thread [] = false
any_thread (x ∷ ts) = true

any_count : Map Text ℕ → Bool
any_count [] = false
any_count (x ∷ m) = true

-- What a fetch gives, with a re-login and a second fetch where the session ended: the counters, or
-- whether a guard stopped the re-login.
pub data Fetched : Type 0 where
  got : Bubbles → Fetched
  lost : Bool → Fetched

module _ (std : Packages) (n : PollNet) where
  unfoldable pub maintained : Bool → Bool → ForumScraper → Db → ForumScraper × Db
  maintained save refresh s db =
      let (s1, db1) = if save then save_session std n.up n.now s db else (s, db) in
      if refresh
      then (let s2 : ForumScraper =
            if s1.logged_in then record s1 { jar = n.refreshed_jar } else s1 in
          if refresh_session n.home s1 then save_session std n.up n.now s2 db1 else (s2, db1))
      else (s1, db1)

  second_fetch : BubblesResult × ForumScraper → Db → Fetched × ForumScraper × Db
  second_fetch (bubbles b, s) db = (got b, s, db)
  second_fetch (session_expired, s) db = (lost false, s, db)
  second_fetch (fetch_failed, s) db = (lost false, s, db)

  after_relogin : Relogged × ForumScraper × Db → Fetched × ForumScraper × Db
  after_relogin (renewed, s, db) = second_fetch (fetch_bubbles n.second s) db
  after_relogin (not_renewed e, s, db) = (lost (is_guard_error e), s, db)

  first_fetch : BubblesResult × ForumScraper → Db → Fetched × ForumScraper × Db
  first_fetch (bubbles b, s) db = (got b, s, db)
  first_fetch (session_expired, s) db = after_relogin (relogin std n.net s db)
  first_fetch (fetch_failed, s) db =
      if s.logged_in then (lost false, s, db) else after_relogin (relogin std n.net s db)

  unfoldable pub fetch_or_relogin : ForumScraper → Db → Fetched × ForumScraper × Db
  unfolding first_fetch second_fetch after_relogin
  fetch_or_relogin s db = first_fetch (fetch_bubbles n.first s) db

  -- Whether the client's last tick was gated.
  unfoldable pub was_gated : Text → PollState → Bool
  was_gated id st = elim (lookup id st.gated) [ none ↦ false | some b ↦ b ]

  -- The state once `current` is known.
  unfoldable pub noticed : Text → Bubbles → PollState → PollState
  noticed id current st = record st { gated = erase id st.gated; prev = insert id current st.prev }

  -- The favorites that are named: only for a device with a token, when bf rose or unread threads
  -- are tracked.
  unfoldable pub named : Text → Bubbles → Bubbles → PollState → List ThreadActivity × PollState
  unfolding any_count
  named id prev current st =
      let tracking = any_count (prev_counts id st) in
      if n.has_tokens && (ltb_ℤ prev.favorites current.favorites || tracking)
      then enrich_favorites n.favorites id st
      else ([], st)

  -- The end of a poll that has `prev` to compare with.
  compared : Text → Text → Bubbles → Bubbles → ForumScraper → Db → PollState → Polled
  compared id username prev current s db st =
      let (fav, st') = named id prev current st in
      let differs = changed prev current in
      let (s', db') = if differs then save_session std n.up n.now s db else (s, db) in
      let event : Bubbles = record current {
        notifications = effective_notifications n.pending_count current.notifications;
      } in
      let job : PushJob = record {
        client_id = id;
        username = username;
        prev = prev;
        current = current;
        fav = fav;
      } in
      record {
        scraper = s';
        db = db';
        state = st';
        sent =
            (if differs then publish event ∷ [] else [])
            ++ ((if differs || any_thread fav then push job ∷ [] else []) ++ (check_mod ∷ []));
      }

  after_fetch : Text → Text → PollState → Fetched × ForumScraper × Db → Polled
  after_fetch id username st (lost guard, s, db) = record {
    scraper = s;
    db = db;
    state = record_failure id st;
    sent = if guard then guard_webhook username ∷ [] else [];
  }
  after_fetch id username st (got current, s, db) =
      let ok : PollState = record_success id st in
      let first_sight : Polled = record {
        scraper = s;
        db = db;
        state = noticed id current ok;
        sent = check_mod ∷ [];
      } in
      elim (lookup id ok.prev) [
        | none ↦ first_sight
        | some prev ↦
            if was_gated id ok
            then first_sight
            else compared id username prev current s db (noticed id current ok)
      ]

  unfoldable pub check_one : Text → Bool → Bool → ForumScraper → Db → PollState → Polled
  unfolding maintained compared after_fetch any_thread
  check_one id save refresh s0 db0 st = elim (skipped id st) [
    | some st' ↦ record { scraper = s0; db = db0; state = st'; sent = [] }
    | none ↦
        let (s, db) = maintained save refresh s0 db0 in
        if should_poll n then after_fetch id s0.user st (fetch_or_relogin s db) else record {
          scraper = s;
          db = db;
          state = record st { gated = insert id true st.gated };
          sent = [];
        }
  ]

-- handlePollSession: nothing for a session that is gone or not authenticated.
unfoldable pub handle_poll_session :
    Packages → PollNet → Text → Bool → Bool → Option Session → Db → PollState → Option Polled
handle_poll_session std n id save refresh none db st = none
handle_poll_session std n id save refresh (some s) db st =
    if is_authenticated s.status
    then some (check_one std n id save refresh s.scraper db st)
    else none
