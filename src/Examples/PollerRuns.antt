-- ===== src/Examples/PollerRuns.antt =====
-- The poller at concrete inputs.
use mediavida.Base.{
  suc, ◌+◌, ◌^◌, ◌≤◌, ◌≡◌, refl, true, false, codes, none, some, List, [], ◌∷◌, length, arith, ◌++◌,
}
use native.Mathlib.Decide.{ℕ_discrete}
use mediavida.Base.Int.{pos}
use mediavida.Base.Keys.{text_key, text_discrete}
use mediavida.Base.Strings.{trim_space, trim_left}
use mediavida.Base.Maps.{lookup}
use mediavida.Scraper.Login.{Bubbles, object, fetch_bubbles, decoded, is_html}
use mediavida.Activity.Pushes.{rises}
use mediavida.Poller.{BreakerState, PollState, Effect}
use mediavida.Poller.Breaker.{
  skipped, record_failure, breaker_of, ticks_skipped, record_failure-ticks_skipped,
}
use mediavida.Poller.Favorites.{
  Favorite, enrich_favorites, distinct_threads, no_row_of, has_activity, enrich_favorites-again,
}
use mediavida.Poller.Check.{
  PollNet, got, lost, should_poll, maintained, fetch_or_relogin, was_gated, check_one, Polled,
}
use mediavida.Poller.CheckLaws.{notifications, check_one-rises}
use mediavida.Poller.Outage.{Lost, Outage}
use mediavida.Poller.QueueLaws.{Steps-at_most_one}
use mediavida.Poller.Queue.{
  poll_queue_size, empty_queue, enqueue_all, take_job, waiting, running_polls, tick, take, start,
  more,
}
use mediavida.Sessions.{Server}
use mediavida.KeepAlive.{Visit, refresh_all}
use mediavida.KeepAlive.Laws.{Walked, refresh_all-Walked}
use mediavida.Activity.{
  thread_key, stripped, cut_at, trim_right, segments, last_key, segment_key, key_or,
}
use mediavida.Numbers.{atoi, read_digits, is_digit}
use Prim.Native.Nat.{min}
use mediavida.Examples.{packages, device, forum, offline, live, warm}
use mediavida.Store.{empty_db}

abbrev quiet : Bubbles
quiet = record { messages = pos 0; notifications = pos 1; favorites = pos 4 }

abbrev busy : Bubbles
busy = record { messages = pos 2; notifications = pos 3; favorites = pos 4 }

abbrev answering : PollNet
answering = record {
  home = none;
  refreshed_jar = [];
  first = some (record { status = 200; body = codes "{}"; json = object busy });
  net = offline;
  second = none;
  favorites = none;
  pending_count = 0;
  up = true;
  now = 100;
  has_subscribers = true;
  has_tokens = false;
  has_webhook = false;
}

abbrev fresh : PollState
fresh = record { prev = []; prev_fav = []; breaker = []; gated = [] }

abbrev known : PollState
known = record fresh { prev = (device, quiet) ∷ [] }

busy_fetched :
    (let (s, db) = maintained packages answering false false forum empty_db in
      fetch_or_relogin packages answering s db).0
    ≡ got busy
unfolding maintained fetch_or_relogin fetch_bubbles decoded is_html trim_space trim_left
busy_fetched = refl

check_one-rises_example :
    (length
        (notifications (check_one packages answering device false false forum empty_db known).sent)
      ≡ rises quiet busy)
    × (lookup device
          (check_one packages answering device false false forum empty_db known).state.prev
        ≡ some busy)
unfolding skipped should_poll was_gated lookup text_discrete ℕ_discrete
check_one-rises_example =
    check_one-rises packages answering device false false forum empty_db known quiet busy refl refl
      refl busy_fetched refl refl

abbrev refusing : PollNet
refusing = record answering { first = none }

nothing_fetched :
    (let (s, db) = maintained packages refusing false false forum empty_db in
      fetch_or_relogin packages refusing s db).0
    ≡ lost false
unfolding maintained fetch_or_relogin fetch_bubbles
nothing_fetched = refl

refusing_heard : should_poll refusing ≡ true
unfolding should_poll
refusing_heard = refl

-- A poll without an answer.
abbrev silence : Lost packages device
silence = record {
  net = refusing;
  save = false;
  refresh = false;
  scraper = forum;
  db = empty_db;
  guard = false;
  heard = refusing_heard;
  none_fetched = nothing_fetched;
}

abbrev answered : PollState → Polled
answered st = check_one packages answering device false false forum empty_db st

abbrev failed_once : Polled
failed_once = check_one packages refusing device false false forum empty_db known

-- Two ticks that the back-off skips, although there would be an answer.
abbrev skipped_once : Polled
skipped_once = answered failed_once.state

abbrev after_outage : PollState
after_outage = (answered skipped_once.state).state

abbrev silent_sent : List Effect
silent_sent = failed_once.sent ++ skipped_once.sent ++ (answered skipped_once.state).sent ++ []

abbrev last_poll : Polled
last_poll = answered after_outage

abbrev unheard : PollNet
unheard = record answering { has_subscribers = false }

abbrev failing : BreakerState
failing = record { fails = 1; skip = 2 }

abbrev slowed : PollState
slowed = record known { breaker = (device, failing) ∷ [] }

record_failure-ticks_skipped_example :
    ticks_skipped 17 device (record_failure device slowed)
    ≡ min (2 ^ suc (breaker_of device slowed).fails) 16
record_failure-ticks_skipped_example = record_failure-ticks_skipped device slowed

abbrev page : List Favorite
page =
    record { title = codes "Hilo"; url = codes "/foro/juegos/hilo-12/3"; unread_count = codes "4" }
    ∷ record { title = codes "Otro"; url = codes "/foro/cine/otro-13"; unread_count = codes "new" }
    ∷ []

enrich_favorites-again_example :
    (enrich_favorites (some page) device (enrich_favorites (some page) device known).1).0 ≡ []
unfolding distinct_threads no_row_of has_activity thread_key stripped cut_at trim_right segments
    last_key segment_key key_or atoi read_digits is_digit text_discrete ℕ_discrete
enrich_favorites-again_example = enrich_favorites-again page device known refl

Steps-at_most_one_example :
    (waiting device (take_job (enqueue_all true false ((device, live) ∷ []) empty_queue)).jobs
        + running_polls device
            (take_job (enqueue_all true false ((device, live) ∷ []) empty_queue)).running
      ≤ 1)
    × (length (take_job (enqueue_all true false ((device, live) ∷ []) empty_queue)).jobs
        ≤ poll_queue_size)
Steps-at_most_one_example =
    Steps-at_most_one (take_job (enqueue_all true false ((device, live) ∷ []) empty_queue)) device (
      more (more (start empty_queue) (tick true false ((device, live) ∷ []) empty_queue))
        (take (enqueue_all true false ((device, live) ∷ []) empty_queue)))

-- The site shows the form of /login, so that the session is logged in again.
abbrev expired : Visit
expired = record {
  home_jar = [];
  page = some (record {
    status = 200;
    path = codes "/login";
    readable = true;
    has_form = true;
    logout_links = 0;
  });
  page_jar = [];
  net = offline;
  up = true;
  now = 100;
}

refresh_all-Walked_example :
    (sv' : Server) × (refresh_all packages (λ c. expired) warm ≡ some sv')
    × Walked warm.sessions sv'.sessions
refresh_all-Walked_example =
    refresh_all-Walked packages (λ c. expired) warm ((λ h. ground (arith, h)), tt)
