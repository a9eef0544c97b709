-- ===== src/Poller/CheckLaws.antt =====
-- What one poll of a session sends and remembers.
use mediavida.Base.{
  ℕ, suc, ◌≡◌, Bool, true, false, Text, none, some, List, [], ◌∷◌, ◌++◌, arith, ◌⊎◌, text_key,
  length, length-append,
}
use mediavida.Base.Int.{int_key}
use mediavida.Base.Maps.{lookup, insert, lookup-insert_self, lookup-erase_self}
use mediavida.Store.{Db}
use mediavida.Scraper.{ForumScraper, Packages}
use mediavida.Scraper.Login.{Bubbles}
use mediavida.Activity.Pushes.{PushMsg, build_activity_pushes, rises, build_activity_pushes-rises}
use mediavida.Poller.{BreakerState, PollState, Effect, guard_webhook, publish, push, check_mod}
use mediavida.Poller.Breaker.{skipped, skipped-shut, record_failure, record_success}
use mediavida.Poller.Check.{
  PollNet, Polled, Fetched, got, lost, should_poll, changed, maintained, fetch_or_relogin,
  was_gated, noticed, named, check_one,
}

-- The notifications that the push workers make of what a poll sent.
unfoldable pub notifications : List Effect → List PushMsg
notifications [] = []
notifications (push j ∷ es) = build_activity_pushes j.prev j.current j.fav [] ++ notifications es
notifications (guard_webhook u ∷ es) = notifications es
notifications (publish b ∷ es) = notifications es
notifications (check_mod ∷ es) = notifications es

rises-unchanged : (prev current : Bubbles) → changed prev current ≡ false → rises prev current ≡ 0
unfolding changed rises
rises-unchanged prev current h = ground (arith, h)

module _ (std : Packages) (n : PollNet) (id : Text) (save refresh : Bool) (s : ForumScraper)
    (db : Db) (st : PollState) where
  abbrev poll : Polled
  poll = check_one std n id save refresh s db st

  abbrev fetched : Fetched × ForumScraper × Db
  fetched = let (s', db') = maintained std n save refresh s db in fetch_or_relogin std n s' db'

  -- A tick inside a back-off sends nothing, saves nothing and asks mediavida.com for nothing: it
  -- only takes one tick off the back-off, whatever the environment would answer.
  pub check_one-skipped :
      (b : BreakerState) (k : ℕ)
      → lookup id st.breaker ≡ some b
      → b.skip ≡ suc k
      → poll ≡ record {
        scraper = s;
        db = db;
        state = record st { breaker = insert id (record b { skip = k }) st.breaker };
        sent = [];
      }
  unfolding check_one
  check_one-skipped b k h e = ground (arith, skipped-shut id st b k h e)

  -- A tick that is not skipped while nobody listens sends nothing, keeps the last counters and
  -- marks the client gated.
  pub check_one-unheard :
      skipped id st ≡ none
      → should_poll n ≡ false
      → (poll.sent ≡ []) × (poll.state.prev ≡ st.prev) × (was_gated std n id poll.state ≡ true)
  unfolding check_one was_gated
  check_one-unheard h e = (
    ground (arith, h, e),
    ground (arith, h, e),
    ground (arith, h, e, lookup-insert_self id true st.gated),
  )

  -- A poll that is not skipped, with a listener, whose fetch fails even behind a re-login notifies
  -- nobody of an increase, and changes nothing in the state of the poller but the failures of the
  -- client.
  pub check_one-lost :
      (guard : Bool)
      → skipped id st ≡ none
      → should_poll n ≡ true
      → fetched.0 ≡ lost guard
      → (notifications poll.sent ≡ []) × (poll.state ≡ record_failure id st)
  unfolding check_one notifications
  check_one-lost guard h e f = (ground (arith, h, e, f), ground (arith, h, e, f))

  -- The first poll with an answer behind a gated one, or of a client without known counters,
  -- notifies nobody, takes the counters that it fetched as the last ones and clears the mark of the
  -- gate, when it is not skipped and somebody listens.
  pub check_one-baseline :
      (current : Bubbles)
      → skipped id st ≡ none
      → should_poll n ≡ true
      → fetched.0 ≡ got current
      → (was_gated std n id st ≡ true) ⊎ (lookup id st.prev ≡ none)
      → (notifications poll.sent ≡ [])
        × (lookup id poll.state.prev ≡ some current)
        × (was_gated std n id poll.state ≡ false)
  unfolding check_one notifications was_gated record_success noticed
  check_one-baseline current h e f g = (
    ground (arith, h, e, f, g),
    ground (arith, h, e, f, g, lookup-insert_self id current st.prev),
    ground (arith, h, e, f, g, lookup-erase_self id st.gated),
  )

  -- A poll that is not skipped nor gated, of a client without FCM tokens that has a listener, known
  -- last counters and was not gated before, makes one notification for each counter that rose
  -- since, and keeps the new counters.
  pub check_one-rises :
      (prev current : Bubbles)
      → skipped id st ≡ none
      → should_poll n ≡ true
      → n.has_tokens ≡ false
      → fetched.0 ≡ got current
      → was_gated std n id st ≡ false
      → lookup id st.prev ≡ some prev
      → (length (notifications poll.sent) ≡ rises prev current)
        × (lookup id poll.state.prev ≡ some current)
  unfolding check_one notifications was_gated record_success noticed named should_poll
  check_one-rises prev current h e t f g p = (
    ground (
      arith,
      h,
      e,
      t,
      f,
      g,
      p,
      rises-unchanged prev current,
      build_activity_pushes-rises prev current,
      length-append (build_activity_pushes prev current [] []) [],
    ),
    ground (arith, h, e, t, f, g, p, lookup-insert_self id current st.prev),
  )
