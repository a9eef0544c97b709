-- ===== src/Poller/Queue.antt =====
-- bubbles.go: check, the in-flight claims, the queue of poll jobs and the workers that drain it.
use mediavida.Base.{
  ℕ, suc, ◌+◌, ◌%◌, ◌≤◌, Bool, true, false, Text, Option, none, some, List, [], ◌∷◌, ◌++◌,
  if◌then◌else◌, ltb, ◌==◌, same, text_key, length,
}
use mediavida.Base.Maps.{Map, lookup, insert, erase}
use mediavida.Sessions.{Session, Server}
use mediavida.Poller.Ticks.{authed_sessions}

-- The queue side of the poller: the in-flight claims, the two counters and the jobs that wait.
-- `running` are the clients whose poll a worker runs.
pub record PollJob : Type 0 where
  pub client_id : Text
  pub save : Bool
  pub refresh : Bool

pub record PollQueue : Type 0 where
  pub inflight : Map Text Bool
  pub save_counter : ℕ
  pub refresh_counter : ℕ
  pub jobs : List PollJob
  pub running : List Text

abbrev pub poll_queue_size : ℕ
poll_queue_size = 4096

abbrev pub is_inflight : Text → Map Text Bool → Bool
is_inflight id m = elim (lookup id m) [ none ↦ false | some b ↦ b ]

unfoldable pub mark_inflight : Text → PollQueue → Bool × PollQueue
mark_inflight id q =
    if is_inflight id q.inflight
    then (false, q)
    else (true, record q { inflight = insert id true q.inflight })

unfoldable pub clear_inflight : Text → PollQueue → PollQueue
clear_inflight id q = record q { inflight = erase id q.inflight }

-- One turn of the loop of check: a full queue gives the claim back.
unfoldable pub enqueue : Bool → Bool → Text → PollQueue → PollQueue
enqueue save refresh id q =
    let (claimed, q') = mark_inflight id q in
    if claimed
    then (if ltb (length q'.jobs) poll_queue_size
        then record q' {
          jobs = q'.jobs ++ (record { client_id = id; save = save; refresh = refresh } ∷ []);
        }
        else clear_inflight id q')
    else q

unfoldable pub enqueue_all : Bool → Bool → List (Text × Session) → PollQueue → PollQueue
enqueue_all save refresh [] q = q
enqueue_all save refresh ((id, s) ∷ list) q =
    enqueue_all save refresh list (enqueue save refresh id q)

-- check, on a poller that runs: `none` is the panic of authedSessions.
unfoldable pub check : Server → PollQueue → Option PollQueue
check sv q0 =
    let q : PollQueue = record q0 {
      save_counter = suc q0.save_counter;
      refresh_counter = suc q0.refresh_counter;
    } in
    elim (authed_sessions sv) [
      | none ↦ none
      | some list ↦
          some (enqueue_all (q.save_counter % 20 == 0) (q.refresh_counter % 10 == 0) list q)
    ]

abbrev pub empty_queue : PollQueue
empty_queue = record {
  inflight = [];
  save_counter = 0;
  refresh_counter = 0;
  jobs = [];
  running = [];
}

unfoldable pub taken : List PollJob → PollQueue → PollQueue
taken [] q = q
taken (j ∷ js) q = record q { jobs = js; running = j.client_id ∷ q.running }

unfoldable pub discarded : List PollJob → PollQueue → PollQueue
discarded [] q = q
discarded (j ∷ js) q = clear_inflight j.client_id (record q { jobs = js })

-- pollWorker takes the first job; at a shutdown it drops it instead.
unfoldable pub take_job : PollQueue → PollQueue
unfolding taken
take_job q = taken q.jobs q

unfoldable pub discard_job : PollQueue → PollQueue
unfolding discarded
discard_job q = discarded q.jobs q

unfoldable pub remove_one : Text → List Text → List Text
remove_one id [] = []
remove_one id (a ∷ rs) = let rest = remove_one id rs in if same a id then rs else a ∷ rest

-- handlePollSession is over.
unfoldable pub finish_job : Text → PollQueue → PollQueue
finish_job id q = clear_inflight id (record q { running = remove_one id q.running })

-- How many jobs of a client wait, and how many of them run.
unfoldable pub waiting : Text → List PollJob → ℕ
waiting id [] = 0
waiting id (j ∷ js) = let n = waiting id js in if same j.client_id id then suc n else n

unfoldable pub running_polls : Text → List Text → ℕ
running_polls id [] = 0
running_polls id (a ∷ rs) = let n = running_polls id rs in if same a id then suc n else n

-- The ticker, which lists any sessions, and the workers, in any order.
pub data Step : PollQueue → PollQueue → Type 0 where
  tick :
      (save refresh : Bool) (list : List (Text × Session)) (q : PollQueue)
      → Step q (enqueue_all save refresh list q)
  take : (q : PollQueue) → Step q (take_job q)
  discard : (q : PollQueue) → Step q (discard_job q)
  finish : (id : Text) (q : PollQueue) → 1 ≤ running_polls id q.running → Step q (finish_job id q)

pub data Steps : PollQueue → PollQueue → Type 0 where
  start : (q : PollQueue) → Steps q q
  more : {p q r : PollQueue} → Steps p q → Step q r → Steps p r

-- A job that waits or runs has the claim of its client, and the queue is not over its size.
abbrev pub QueueOk : PollQueue → Type 0
QueueOk q =
    ((id : Text)
      → waiting id q.jobs + running_polls id q.running
        ≤ (if is_inflight id q.inflight then 1 else 0))
    × (length q.jobs ≤ poll_queue_size)
