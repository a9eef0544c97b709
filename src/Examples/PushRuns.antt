-- ===== src/Examples/PushRuns.antt =====
-- Alerts, pushes and their queue at concrete inputs.
use native.Mathlib.Decide.{ℕ_discrete}
use mediavida.Base.{
  ℕ, ◌+◌, ◌≡◌, refl, false, Text, codes, none, some, List, [], ◌∷◌, ◌++◌, ◌&&◌, not, map, arith,
  same, if◌then◌else◌,
}
use mediavida.Base.Int.{pos}
use mediavida.Base.Keys.{text_key, text_discrete}
use mediavida.Base.Maps.{lookup}
use mediavida.Scraper.Pages.{ModBubbles, ModReport, report_key}
use mediavida.Poller.Moderation.{ModNet, ModState, check_forum, is_alerted, is_seen, last_mod}
use mediavida.Poller.NewReports.{is_alerted-check_forum}
use mediavida.Poller.Alerts.{format_report_alert}
use mediavida.Poller.AlertLaws.{tags, with_value, tags-format_report_alert}
use mediavida.Poller.{PushJob}
use mediavida.Poller.Delivery.{
  Pusher, PusherEvent, started, worked, pushed, stopped, happen_all, accepted_all, history,
  IsPusher, waiting_jobs,
}
use mediavida.Poller.DeliveryLaws.{happen_all-history}
use mediavida.Store.{Db, empty_db}
use mediavida.Scraper.Login.{Bubbles}
use mediavida.Activity.Pushes.{PushMsg}
use mediavida.Activity.Sending.{Response, answer}
use mediavida.Activity.Fanout.{run_jobs, is_registered, is_pruned, run_jobs-is_registered}
use mediavida.Examples.{device}

abbrev cine : Text
cine = codes "cine"

abbrev cine_bubbles : ModBubbles
cine_bubbles = record { forum_slug = cine; forum_id = codes "7"; reports = pos 2; messages = pos 1 }

abbrev report_on : Text → ModReport
report_on num = record {
  thread_id = codes "1";
  post_num = num;
  thread_title = codes "a < b";
  post_url = [];
  post_author = codes "ana";
  post_body = codes "<b>";
  reason = codes "spam";
  reporter = codes "luis";
  reported_ago = [];
}

abbrev listed : List ModReport
listed = report_on (codes "2") ∷ report_on (codes "3") ∷ []

abbrev moderated : ModNet
moderated = record {
  mod_bubbles = λ slug. some (some cine_bubbles);
  mod_reports = λ forum_id. some listed;
}

abbrev one_seen : ModState
one_seen = record { prev_mod = []; prev_reports = (cine, codes "1:2" ∷ []) ∷ [] }

-- At the next look there is one report more, and the first one is gone.
abbrev later : ModNet
later = record {
  mod_bubbles = λ slug. some (some (record cine_bubbles { reports = pos 3 }));
  mod_reports =
      λ forum_id. some (report_on (codes "3") ∷ report_on (codes "4") ∷ report_on (codes "5") ∷ []);
}

is_alerted-check_forum_example :
    is_alerted (codes "1:4") (check_forum later cine (check_forum moderated cine one_seen).1).0 ≡ (
      is_seen (codes "1:4") (
        map report_key (report_on (codes "3") ∷ report_on (codes "4") ∷ report_on (codes "5") ∷ []))
      && not (is_seen (codes "1:4") (map report_key listed)))
unfolding last_mod lookup text_discrete ℕ_discrete
is_alerted-check_forum_example =
    is_alerted-check_forum moderated later cine (codes "1:4") cine_bubbles
      (record cine_bubbles { reports = pos 3 }) listed
      (report_on (codes "3") ∷ report_on (codes "4") ∷ report_on (codes "5") ∷ []) one_seen refl
      refl refl refl refl refl

tags-format_report_alert_example :
    tags (format_report_alert cine (report_on (codes "2")))
    ≡ 6 + (with_value (codes "luis") + with_value (codes "spam"))
tags-format_report_alert_example = tags-format_report_alert cine (report_on (codes "2"))

abbrev none_new : Bubbles
none_new = record { messages = pos 0; notifications = pos 0; favorites = pos 0 }

abbrev rise : PushJob
rise = record {
  client_id = device;
  username = codes "ana";
  prev = none_new;
  current = record none_new { messages = pos 1 };
  fav = [];
}

abbrev idle : Pusher
idle = record { running = false; queue = none; taken = [] }

-- A job before the start is dropped; of the two behind it, one is taken by a worker and one by Stop.
abbrev day : List PusherEvent
day = pushed rise ∷ started ∷ pushed rise ∷ worked ∷ stopped (rise ∷ []) ∷ []

happen_all-history_example :
    IsPusher (happen_all day idle)
    × (history (happen_all day idle) ≡ history idle ++ accepted_all day idle)
unfolding waiting_jobs
happen_all-history_example = happen_all-history day idle (refl, omega arith)

abbrev push : PushMsg
push = record { title = codes "ana"; body = codes "hola"; data_fields = []; tag = [] }

abbrev two_devices : Db
two_devices = record empty_db { fcm_tokens = (device, codes "t1") ∷ (device, codes "t2") ∷ [] }

-- The first device is gone, the second one answers.
abbrev gone : Text × PushMsg → ℕ → Response
gone j k = if same j.0 (codes "t1") then answer 404 [] else answer 200 []

abbrev both : List (Text × PushMsg)
both = (codes "t1", push) ∷ (codes "t2", push) ∷ []

run_jobs-is_registered_example :
    is_registered device (codes "t1") (run_jobs (λ n. n) gone device both two_devices) ≡ (
      is_registered device (codes "t1") two_devices
      && not (same device device && is_pruned (λ n. n) gone (codes "t1") both))
run_jobs-is_registered_example =
    run_jobs-is_registered (λ n. n) gone device both device (codes "t1") two_devices
