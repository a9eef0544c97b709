-- ===== src/Poller/QueueLaws.antt =====
-- bubbles.go: one poll per client at a time, by induction on the steps of the queue.
use mathlib.Core.Path.{subst}
use mediavida.Base.{
  ap, sym, inl, inr, Bool-cases, ◌+◌, ◌≤◌, ◌≡◌, refl, Bool, true, false, Text, List, [], ◌∷◌, ◌++◌,
  arith, if◌then◌else◌, ltb, same, text_key, length, length-append,
}
use mediavida.Base.Maps.{Map, lookup, insert, erase, lookup-insert, lookup-erase}
use mediavida.Sessions.{Session}
use mediavida.Poller.Queue.{
  PollJob, PollQueue, poll_queue_size, is_inflight, mark_inflight, clear_inflight, enqueue,
  enqueue_all, empty_queue, taken, discarded, take_job, discard_job, remove_one, finish_job,
  waiting, running_polls, Step, tick, take, discard, finish, Steps, start, more, QueueOk,
}

waiting-snoc :
    (a : Text) (j : PollJob) (js : List PollJob)
    → waiting a (js ++ (j ∷ [])) ≡ waiting a js + (if same j.client_id a then 1 else 0)
unfolding waiting
waiting-snoc a j [] = ground arith
waiting-snoc a j (k ∷ js) = ground (arith, waiting-snoc a j js)

is_inflight-insert :
    (id a : Text) (m : Map Text Bool)
    → is_inflight a (insert id true m) ≡ (if same id a then true else is_inflight a m)
is_inflight-insert id a m = ground (arith, lookup-insert id a true m)

is_inflight-erase :
    (id a : Text) (m : Map Text Bool)
    → is_inflight a (erase id m) ≡ (if same id a then false else is_inflight a m)
is_inflight-erase id a m = ground (arith, lookup-erase id a m)

module _ (save refresh : Bool) (id : Text) (q : PollQueue) where
  abbrev job : PollJob
  job = record { client_id = id; save = save; refresh = refresh }

  abbrev added : PollQueue
  added = record q { inflight = insert id true q.inflight; jobs = q.jobs ++ (job ∷ []) }

  abbrev given_back : PollQueue
  given_back = record q { inflight = erase id (insert id true q.inflight) }

  enqueue-claimed : is_inflight id q.inflight ≡ true → enqueue save refresh id q ≡ q
  unfolding enqueue mark_inflight
  enqueue-claimed h = ground (arith, h)

  enqueue-added :
      is_inflight id q.inflight ≡ false
      → ltb (length q.jobs) poll_queue_size ≡ true
      → enqueue save refresh id q ≡ added
  unfolding enqueue mark_inflight
  enqueue-added h l = ground (arith, h, l)

  enqueue-full :
      is_inflight id q.inflight ≡ false
      → ltb (length q.jobs) poll_queue_size ≡ false
      → enqueue save refresh id q ≡ given_back
  unfolding enqueue mark_inflight clear_inflight
  enqueue-full h l = ground (arith, h, l)

  added-QueueOk :
      is_inflight id q.inflight ≡ false
      → ltb (length q.jobs) poll_queue_size ≡ true
      → QueueOk q
      → QueueOk added
  added-QueueOk h l ok = (
    λ a.
        ground (
          arith,
          h,
          ok.0 a,
          ok.0 id,
          is_inflight-insert id a q.inflight,
          waiting-snoc a job q.jobs,
        ),
    ground (arith, l, length-append q.jobs (job ∷ [])),
  )

  given_back-QueueOk : is_inflight id q.inflight ≡ false → QueueOk q → QueueOk given_back
  given_back-QueueOk h ok = (
    λ a. ground (
      arith,
      h,
      ok.0 a,
      ok.0 id,
      is_inflight-insert id a q.inflight,
      is_inflight-erase id a (insert id true q.inflight),
    ),
    ok.1,
  )

  enqueue-QueueOk : QueueOk q → QueueOk (enqueue save refresh id q)
  enqueue-QueueOk ok = elim (Bool-cases (is_inflight id q.inflight)) [
    | inl h ↦ subst QueueOk (sym (enqueue-claimed h)) ok
    | inr h ↦ elim (Bool-cases (ltb (length q.jobs) poll_queue_size)) [
      | inl l ↦ subst QueueOk (sym (enqueue-added h l)) (added-QueueOk h l ok)
      | inr l ↦ subst QueueOk (sym (enqueue-full h l)) (given_back-QueueOk h ok)
    ]
  ]

enqueue_all-QueueOk :
    (save refresh : Bool) (list : List (Text × Session)) (q : PollQueue)
    → QueueOk q
    → QueueOk (enqueue_all save refresh list q)
unfolding enqueue_all
enqueue_all-QueueOk save refresh [] q ok = ok
enqueue_all-QueueOk save refresh ((id, s) ∷ list) q ok =
    enqueue_all-QueueOk save refresh list (enqueue save refresh id q)
      (enqueue-QueueOk save refresh id q ok)

module _ (q : PollQueue) (ok : QueueOk q) where
  taken-QueueOk : (js : List PollJob) → q.jobs ≡ js → QueueOk (taken js q)
  unfolding waiting running_polls taken
  taken-QueueOk [] h = ok
  taken-QueueOk (j ∷ js) h =
      (λ a. ground (arith, ok.0 a, ap (waiting a) h), omega (arith, ok.1, ap length h))

  discarded-QueueOk : (js : List PollJob) → q.jobs ≡ js → QueueOk (discarded js q)
  unfolding waiting clear_inflight discarded
  discarded-QueueOk [] h = ok
  discarded-QueueOk (j ∷ js) h = (
    λ a. ground (arith, ok.0 a, ap (waiting a) h, is_inflight-erase j.client_id a q.inflight),
    omega (arith, ok.1, ap length h),
  )

  take_job-QueueOk : QueueOk (take_job q)
  unfolding take_job
  take_job-QueueOk = taken-QueueOk q.jobs refl

  discard_job-QueueOk : QueueOk (discard_job q)
  unfolding discard_job
  discard_job-QueueOk = discarded-QueueOk q.jobs refl

running_polls-remove_one :
    (id a : Text) (rs : List Text)
    → 1 ≤ running_polls id rs
    → running_polls a rs ≡ running_polls a (remove_one id rs) + (if same id a then 1 else 0)
unfolding running_polls remove_one
running_polls-remove_one id a [] h = ground (arith, h)
running_polls-remove_one id a (r ∷ rs) h = ground (arith, h, running_polls-remove_one id a rs)

finish_job-QueueOk :
    (id : Text) (q : PollQueue)
    → 1 ≤ running_polls id q.running
    → QueueOk q
    → QueueOk (finish_job id q)
unfolding finish_job clear_inflight
finish_job-QueueOk id q h ok = (
  λ a. ground (
    arith,
    h,
    ok.0 a,
    ok.0 id,
    running_polls-remove_one id a q.running h,
    is_inflight-erase id a q.inflight,
  ),
  ok.1,
)

Step-QueueOk : {p q : PollQueue} → Step p q → QueueOk p → QueueOk q
Step-QueueOk (tick save refresh list q) ok = enqueue_all-QueueOk save refresh list q ok
Step-QueueOk (take q) ok = take_job-QueueOk q ok
Step-QueueOk (discard q) ok = discard_job-QueueOk q ok
Step-QueueOk (finish id q h) ok = finish_job-QueueOk id q h ok

Steps-QueueOk : {p q : PollQueue} → Steps p q → QueueOk p → QueueOk q
Steps-QueueOk (start q) ok = ok
Steps-QueueOk (more path step) ok = Step-QueueOk step (Steps-QueueOk path ok)

empty_queue-QueueOk : QueueOk empty_queue
unfolding waiting running_polls lookup
empty_queue-QueueOk = (λ a. omega arith, omega arith)

-- Whatever ticks, starts, drops and ends of polls follow one another from an empty queue, no client
-- has two polls that wait or run at the same time, and at most 4096 wait.
pub Steps-at_most_one :
    (q : PollQueue) (id : Text)
    → Steps empty_queue q
    → (waiting id q.jobs + running_polls id q.running ≤ 1) × (length q.jobs ≤ poll_queue_size)
Steps-at_most_one q id path =
    let ok : QueueOk q = Steps-QueueOk path empty_queue-QueueOk in (ground (arith, ok.0 id), ok.1)
