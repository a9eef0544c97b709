-- ===== src/Poller/DeliveryLaws.antt =====
-- Every push job that the queue keeps is taken once, in the order in which it came.
use mathlib.Core.List.{append_assoc, append-nil}
use mediavida.Base.{
  ℕ, suc, ◌≤◌, ◌≡◌, refl, sym, ap, ◌∙◌, Bool, true, false, Option, none, some, List, [], ◌∷◌, ◌++◌,
  arith, if◌then◌else◌, ltb, length, length-append, Bool-cases, inl, inr, ltb→lt,
}
use mediavida.Poller.{PushJob}
use mediavida.Poller.Delivery.{
  Pusher, start, put, enqueue_push, enqueue_pushes, work, work_on, stop, waiting_jobs, PusherEvent,
  started, worked, pushed, stopped, happen, happen_all, kept, all_kept, accepted, accepted_all,
  history, IsPusher, push_queue_size,
}

snoc_assoc : (as' bs : List PushJob) (j : PushJob) → as' ++ (bs ++ j ∷ []) ≡ (as' ++ bs) ++ j ∷ []
snoc_assoc as' bs j = sym (append_assoc as' bs (j ∷ []))

history-put :
    (j : PushJob) (t : List PushJob) (b : Bool) (q : Option (List PushJob))
    → history (put j q (record { running = b; queue = q; taken = t })).1
      ≡ (t ++ waiting_jobs (record { running = b; queue = q; taken = t }))
        ++ (if (put j q (record { running = b; queue = q; taken = t })).0 then j ∷ [] else [])
unfolding put waiting_jobs
history-put j t b none = sym (append-nil (t ++ []))
history-put j t b (some js) = elim (Bool-cases (ltb (length js) push_queue_size)) [
  | inl e ↦ rw e (snoc_assoc t js j)
  | inr e ↦ rw e (sym (append-nil (t ++ js)))
]

history-enqueue_push :
    (j : PushJob) (p : Pusher) → history (enqueue_push j p).1 ≡ history p ++ kept j p
unfolding enqueue_push kept
history-enqueue_push j p = history-put j p.taken p.running p.queue

history-enqueue_pushes :
    (js : List PushJob) (p : Pusher) → history (enqueue_pushes js p) ≡ history p ++ all_kept js p
unfolding enqueue_pushes all_kept
history-enqueue_pushes [] p = sym (append-nil (history p))
history-enqueue_pushes (j ∷ js) p =
    history-enqueue_pushes js (enqueue_push j p).1
    ∙ (ap (λ h. h ++ all_kept js (enqueue_push j p).1) (history-enqueue_push j p)
        ∙ append_assoc (history p) (kept j p) (all_kept js (enqueue_push j p).1))

history-work :
    (t : List PushJob) (b : Bool) (q : Option (List PushJob))
    → history (work_on q (record { running = b; queue = q; taken = t }))
      ≡ t ++ waiting_jobs (record { running = b; queue = q; taken = t })
unfolding work_on waiting_jobs
history-work t b none = refl
history-work t b (some []) = refl
history-work t b (some (j ∷ js)) = append_assoc t (j ∷ []) js

snoc_bound :
    (n : ℕ) (js : List PushJob) (j : PushJob) → ltb (length js) n ≡ true → length (js ++ j ∷ []) ≤ n
snoc_bound n js j e = omega (arith, ltb→lt (length js) n e, length-append js (j ∷ []))

put-IsPusher :
    (j : PushJob) (t : List PushJob) (b : Bool) (q : Option (List PushJob))
    → IsPusher (record { running = b; queue = q; taken = t })
    → IsPusher (put j q (record { running = b; queue = q; taken = t })).1
unfolding put waiting_jobs
put-IsPusher j t b none i = i
put-IsPusher j t b (some js) i = elim (Bool-cases (ltb (length js) push_queue_size)) [
  | inl e ↦ rw e (i.0, snoc_bound push_queue_size js j e)
  | inr e ↦ rw e i
]

enqueue_pushes-IsPusher :
    (js : List PushJob) (p : Pusher) → IsPusher p → IsPusher (enqueue_pushes js p)
unfolding enqueue_pushes enqueue_push
enqueue_pushes-IsPusher [] p i = i
enqueue_pushes-IsPusher (j ∷ js) p i =
    enqueue_pushes-IsPusher js (enqueue_push j p).1 (put-IsPusher j p.taken p.running p.queue i)

tail_bound : (n m : ℕ) → suc m ≤ n → m ≤ n
tail_bound n m h = omega arith

work-IsPusher :
    (t : List PushJob) (b : Bool) (q : Option (List PushJob))
    → IsPusher (record { running = b; queue = q; taken = t })
    → IsPusher (work_on q (record { running = b; queue = q; taken = t }))
unfolding work_on waiting_jobs
work-IsPusher t b none i = i
work-IsPusher t b (some []) i = i
work-IsPusher t b (some (j ∷ js)) (r, l) = (r, tail_bound push_queue_size (length js) l)

start-IsPusher :
    (b : Bool) (q : Option (List PushJob)) (t : List PushJob)
    → IsPusher (record { running = b; queue = q; taken = t })
    → IsPusher (start (record { running = b; queue = q; taken = t }))
unfolding start waiting_jobs
start-IsPusher true q t i = i
start-IsPusher false q t i = (refl, omega arith)

stop-IsPusher :
    (late : List PushJob) (b : Bool) (q : Option (List PushJob)) (t : List PushJob)
    → IsPusher (record { running = b; queue = q; taken = t })
    → IsPusher (stop late (record { running = b; queue = q; taken = t }))
unfolding stop waiting_jobs
stop-IsPusher late true q t i = (refl, omega arith)
stop-IsPusher late false q t i = i

happen-IsPusher : (e : PusherEvent) (p : Pusher) → IsPusher p → IsPusher (happen e p)
unfolding happen work enqueue_push
happen-IsPusher started p i = start-IsPusher p.running p.queue p.taken i
happen-IsPusher worked p i = work-IsPusher p.taken p.running p.queue i
happen-IsPusher (pushed j) p i = put-IsPusher j p.taken p.running p.queue i
happen-IsPusher (stopped late) p i = stop-IsPusher late p.running p.queue p.taken i

-- A poller that does not run has no job that waits.
no_queue :
    (q : Option (List PushJob)) (t : List PushJob)
    → IsPusher (record { running = false; queue = q; taken = t })
    → waiting_jobs (record { running = false; queue = q; taken = t }) ≡ []
unfolding waiting_jobs
no_queue none t i = refl
no_queue (some js) t i = absurd (ground (arith, i.0))

history-start :
    (b : Bool) (q : Option (List PushJob)) (t : List PushJob)
    → IsPusher (record { running = b; queue = q; taken = t })
    → history (start (record { running = b; queue = q; taken = t }))
      ≡ history (record { running = b; queue = q; taken = t })
unfolding start waiting_jobs
history-start true q t i = refl
history-start false q t i = ap (λ w. t ++ w) (sym (no_queue q t i))

history-stop :
    (late : List PushJob) (b : Bool) (q : Option (List PushJob)) (t : List PushJob)
    → history (stop late (record { running = b; queue = q; taken = t }))
      ≡ history (record { running = b; queue = q; taken = t })
        ++ accepted (stopped late) (record { running = b; queue = q; taken = t })
unfolding stop accepted waiting_jobs
history-stop late true q t =
    let p : Pusher = record { running = true; queue = q; taken = t } in
    append-nil (history (enqueue_pushes late p)) ∙ history-enqueue_pushes late p
history-stop late false q t =
    sym (append-nil (history (record { running = false; queue = q; taken = t })))

history-happen :
    (e : PusherEvent) (p : Pusher) → IsPusher p → history (happen e p) ≡ history p ++ accepted e p
unfolding happen accepted work
history-happen started p i =
    history-start p.running p.queue p.taken i ∙ sym (append-nil (history p))
history-happen worked p i = history-work p.taken p.running p.queue ∙ sym (append-nil (history p))
history-happen (pushed j) p i = history-enqueue_push j p
history-happen (stopped late) p i = history-stop late p.running p.queue p.taken

-- From a poller with a queue exactly while it runs, of at most 4096 jobs, whatever starts, stops,
-- pushes and workers' steps follow, it stays such a poller, and the jobs taken so far followed by
-- those that wait are the earlier ones and then every job that the queue accepted, once each, in
-- the order in which it came.
pub happen_all-history :
    (es : List PusherEvent) (p : Pusher)
    → IsPusher p
    → IsPusher (happen_all es p) × (history (happen_all es p) ≡ history p ++ accepted_all es p)
unfolding happen_all accepted_all
happen_all-history [] p i = (i, sym (append-nil (history p)))
happen_all-history (e ∷ es) p i =
    let rest = happen_all-history es (happen e p) (happen-IsPusher e p i) in
    (
      rest.0,
      rest.1
          ∙ (ap (λ h. h ++ accepted_all es (happen e p)) (history-happen e p i)
              ∙ append_assoc (history p) (accepted e p) (accepted_all es (happen e p))),
    )

-- Stop of a running poller leaves no job that waits: the late jobs that the queue accepted are taken
-- after those that waited, and it no longer runs.
pub stop-drains :
    (late : List PushJob) (q : Option (List PushJob)) (t : List PushJob)
    → let p : Pusher = record { running = true; queue = q; taken = t } in
      ((stop late p).running ≡ false)
      × (waiting_jobs (stop late p) ≡ [])
      × ((stop late p).taken ≡ history p ++ all_kept late p)
unfolding stop waiting_jobs
stop-drains late q t =
    (refl, refl, history-enqueue_pushes late (record { running = true; queue = q; taken = t }))
