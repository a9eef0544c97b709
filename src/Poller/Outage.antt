-- ===== src/Poller/Outage.antt =====
-- bubbles.go: the polls of a client while mediavida.com does not answer, and the one behind them.
use mediavida.Base.{◌≡◌, Bool, true, Text, some, List, [], ◌++◌, text_key}
use mediavida.Base.Int.{int_key}
use mediavida.Store.{Db}
use mediavida.Scraper.{ForumScraper, Packages}
use mediavida.Poller.{PollState, Effect}
use mediavida.Poller.Breaker.{skipped}
use mediavida.Poller.Check.{PollNet, lost, should_poll, maintained, fetch_or_relogin, check_one}
use mediavida.Poller.CheckLaws.{notifications}

-- A poll with a listener, during which mediavida.com gives no counters, even behind a re-login.
pub record Lost (std : Packages) (id : Text) : Type 0 where
  pub net : PollNet
  pub save : Bool
  pub refresh : Bool
  pub scraper : ForumScraper
  pub db : Db
  pub guard : Bool
  pub heard : should_poll net ≡ true
  pub none_fetched :
      (let (s, db') = maintained std net save refresh scraper db in
        fetch_or_relogin std net s db').0
      ≡ lost guard

-- The states behind such polls in a row, and behind polls that the back-off skips, whatever the
-- environment would answer them; and all that they send.
pub data Outage (std : Packages) (id : Text) : PollState → List Effect → PollState → Type 0 where
  over : {st : PollState} → Outage std id st [] st
  again :
      {st st' : PollState} {sent : List Effect} (l : Lost std id)
      → Outage std id (check_one std l.net id l.save l.refresh l.scraper l.db st).state sent st'
      → Outage std id st
          ((check_one std l.net id l.save l.refresh l.scraper l.db st).sent ++ sent)
          st'
  backed_off :
      {st st' : PollState} {sent : List Effect} (net : PollNet) (save refresh : Bool)
      (s : ForumScraper) (db : Db) (next : PollState)
      → skipped id st ≡ some next
      → Outage std id (check_one std net id save refresh s db st).state sent st'
      → Outage std id st ((check_one std net id save refresh s db st).sent ++ sent) st'

module _ (std : Packages) (id : Text) where
  abbrev Kept : PollState → List Effect → PollState → Type 0
  Kept st sent st' = (notifications sent ≡ []) × (st'.prev ≡ st.prev) × (st'.gated ≡ st.gated)
