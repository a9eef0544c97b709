-- ===== src/Poller/Delivery.antt =====
-- bubbles.go: the queue of push jobs, the workers that drain it, and Start and Stop around them.
use mediavida.Base.{
  ℕ, ◌≤◌, ◌≡◌, Bool, true, false, Text, Option, none, some, List, [], ◌∷◌, ◌++◌, if◌then◌else◌, ltb,
  length,
}
use mediavida.Store.{Db}
use mediavida.Scraper.{Packages}
use mediavida.Stores.Webhooks as Webhooks
use mediavida.Stores.Webhooks.{WebhookPayload}
use mediavida.Activity.Pushes.{PushMsg}
use mediavida.Activity.Ntfy.{NtfyPublisher, NtfyMessage, NtfyPost, notify_bubble_increase}
use mediavida.Activity.Fanout.{fcm_jobs}
use mediavida.Poller.{PushJob}

abbrev pub push_queue_size : ℕ
push_queue_size = 4096

-- stopCh and pushCh, as far as they are there, and the jobs that the workers have taken.
pub record Pusher : Type 0 where
  pub running : Bool
  pub queue : Option (List PushJob)
  pub taken : List PushJob

-- What one job sends: the webhook, the posts to ntfy, and the jobs of FCM.
unfoldable pub push_posts :
    Packages
    → (NtfyMessage → Text)
    → Bool
    → Option NtfyPublisher
    → Option Text
    → Db
    → PushJob
    → Option (Text × WebhookPayload) × List NtfyPost × List (Text × PushMsg)
push_posts std marshal up ntfy fcm db j = (
  Webhooks.send up j.username j.current db,
  notify_bubble_increase std marshal ntfy j.client_id (some j.prev) (some j.current) j.fav [],
  fcm_jobs up fcm j.client_id (some j.prev) (some j.current) j.fav [] db,
)

unfoldable pub start : Pusher → Pusher
start p = if p.running then p else record p { running = true; queue = some [] }

unfoldable pub put : PushJob → Option (List PushJob) → Pusher → Bool × Pusher
put j none p = (false, p)
put j (some js) p =
    if ltb (length js) push_queue_size
    then (true, record p { queue = some (js ++ (j ∷ [])) })
    else (false, p)

-- enqueuePush: whether the job is kept, and the queue after it.
unfoldable pub enqueue_push : PushJob → Pusher → Bool × Pusher
enqueue_push j p = put j p.queue p

unfoldable pub work_on : Option (List PushJob) → Pusher → Pusher
work_on none p = p
work_on (some []) p = p
work_on (some (j ∷ js)) p = record p { queue = some js; taken = p.taken ++ (j ∷ []) }

-- pushWorker takes the first job.
unfoldable pub work : Pusher → Pusher
work p = work_on p.queue p

-- The jobs that wait.
unfoldable pub waiting_jobs : Pusher → List PushJob
waiting_jobs p = elim p.queue [ none ↦ [] | some js ↦ js ]

unfoldable pub enqueue_pushes : List PushJob → Pusher → Pusher
enqueue_pushes [] p = p
enqueue_pushes (j ∷ js) p = enqueue_pushes js (enqueue_push j p).1

-- Stop: the polls that still run give their jobs, `late`, before the queue is closed and drained.
-- Jobs with workers' steps in between are events in front of it.
unfoldable pub stop : List PushJob → Pusher → Pusher
stop late p =
    let q = enqueue_pushes late p in
    if p.running
    then record q { running = false; queue = none; taken = q.taken ++ waiting_jobs q }
    else p

pub data PusherEvent : Type 0 where
  started worked : PusherEvent
  pushed : PushJob → PusherEvent
  stopped : List PushJob → PusherEvent

unfoldable pub happen : PusherEvent → Pusher → Pusher
happen started p = start p
happen worked p = work p
happen (pushed j) p = (enqueue_push j p).1
happen (stopped late) p = stop late p

unfoldable pub happen_all : List PusherEvent → Pusher → Pusher
happen_all [] p = p
happen_all (e ∷ es) p = happen_all es (happen e p)

-- The jobs that an event brings into the queue.
unfoldable pub kept : PushJob → Pusher → List PushJob
kept j p = if (enqueue_push j p).0 then j ∷ [] else []

unfoldable pub all_kept : List PushJob → Pusher → List PushJob
all_kept [] p = []
all_kept (j ∷ js) p = kept j p ++ all_kept js (enqueue_push j p).1

unfoldable pub accepted : PusherEvent → Pusher → List PushJob
accepted started p = []
accepted worked p = []
accepted (pushed j) p = kept j p
accepted (stopped late) p = if p.running then all_kept late p else []

unfoldable pub accepted_all : List PusherEvent → Pusher → List PushJob
accepted_all [] p = []
accepted_all (e ∷ es) p = accepted e p ++ accepted_all es (happen e p)

-- Every job that came in, taken or waiting, in the order in which it came.
abbrev pub history : Pusher → List PushJob
history p = p.taken ++ waiting_jobs p

-- A poller has a queue exactly while it runs, and the queue is not over its size.
abbrev pub IsPusher : Pusher → Type 0
IsPusher p =
    (p.running ≡ elim p.queue [ none ↦ false | some js ↦ true ])
    × (length (waiting_jobs p) ≤ push_queue_size)
