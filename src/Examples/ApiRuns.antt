-- ===== src/Examples/ApiRuns.antt =====
-- The data routes and the small stores at concrete inputs.
use mediavida.Base.{◌≡◌, ◌≢◌, refl, true, false, codes, none, some, List, [], ◌∷◌, arith, text_key}
use mediavida.Base.Maps.{lookup}
use mediavida.Base.Rows.{select}
use mediavida.Store.{empty_db, WatchTokenRecord}
use mediavida.Store.Sessions.{get_session}
use mediavida.Stores.ModForums.{load_mod_forums, get_forums}
use mediavida.Stores.ModForums.Laws.{Change, adds, removes, changed, load-changed}
use mediavida.Scraper.Recovery.{Op, op_error, op_failed, api_ok, with_relogin, is_plain_failure}
use mediavida.Scraper.Pages.{NotificationItem}
use mediavida.Scraper.Pages.{ModBubbles}
use mediavida.Sessions.{Server, in_memory}
use mediavida.Api.{ForumOps}
use mediavida.Api.Routes.{problem, RouteEnv}
use mediavida.Api.Watches.{revoke}
use mediavida.Api.Gated.{Backend, Outside, profile, serve, missing, serve-Refused}
use mediavida.Api.WatchLaws.{owner_in, revoke-scoped}
use mediavida.Examples.{packages, device, forum, call, offline, warm}

-- An operation that always fails.
abbrev down : {A : Type 0} → Op A
down s = (op_error op_failed, s)

abbrev ops : ForumOps
ops = record {
  fetch_portada = down;
  fetch_forum_index = down;
  fetch_forum_threads = λ slug n. down;
  fetch_thread = λ url n. down;
  like_message = λ n url. down;
  post_reply = λ t n url. down;
  get_post_source = λ n url. down;
  get_quoted_post = λ n url. down;
  get_post_quoted = λ n url. down;
  edit_message = λ n t url. down;
  create_thread = λ s t b n f. down;
  fetch_new_thread_page = λ s. down;
  search = λ q. down;
  fetch_inbox = λ n. down;
  fetch_conversation = λ id. down;
  send_private_message = λ id t. down;
  fetch_favorites = down;
  fetch_user_posts = λ u. down;
  fetch_mentions = λ u. down;
  fetch_profile = λ u. down;
  fetch_notifications = down;
  fetch_bubbles = down;
  fetch_mod_bubbles = λ s. down;
}

abbrev route_env : RouteEnv
route_env = record { gate = call; net = offline; first = ops; second = ops; up = true; now = 100 }

abbrev outside : Outside
outside = record {
  marshal = λ b. none;
  is_json = λ t. false;
  base_url = codes "https://api";
  again = call;
  flow_id = codes "1";
}

abbrev nobody : Server
nobody = record { sessions = []; db = empty_db }

abbrev backend : Backend
backend = record { server = nobody; cache = []; forums_of = [] }

serve-Refused_example :
    serve packages route_env outside device profile backend ≡ (problem 401, backend)
unfolding in_memory lookup get_session select
serve-Refused_example =
    serve-Refused packages route_env device outside profile backend (missing refl refl)

abbrev notice : NotificationItem
notice = record {
  id = codes "1";
  author = [];
  avatar = [];
  text = [];
  target = [];
  url = [];
  time = [];
  unseen = false;
}

none_shown :
    (mb : ModBubbles)
    → (with_relogin packages route_env.net
        (route_env.first.fetch_mod_bubbles (codes "cine"))
        (route_env.second.fetch_mod_bubbles (codes "cine"))
        forum
        warm.db).0
      ≢ api_ok (some mb)
unfolding with_relogin is_plain_failure
none_shown mb = ground arith

abbrev watch : WatchTokenRecord
watch = record { token = codes "wf_1"; owner = device; label = []; created_at = 5 }

abbrev watched : Server
watched = record warm { db = record empty_db { watch_tokens = watch ∷ [] } }

revoke-scoped_example :
    (owner_in (codes "wf_1") watched.db ≡ some device
      → (owner_in
            (codes "wf_1")
            (revoke packages route_env device (codes "wf_1") forum watched).1.db
          ≡ none)
        × (in_memory
              (codes "wf_1")
              (revoke packages route_env device (codes "wf_1") forum watched).1.sessions
            ≡ none))
    × (owner_in (codes "wf_1") watched.db ≢ some device
        → revoke packages route_env device (codes "wf_1") forum watched ≡ (problem 404, watched))
revoke-scoped_example = revoke-scoped packages route_env device (codes "wf_1") forum watched refl

abbrev calls : List Change
calls = adds (codes "ana") (codes "cine") ∷ removes (codes "ana") (codes "foro") ∷ []

load-changed_example :
    get_forums
      (codes "ana")
      (load_mod_forums true (changed calls (load_mod_forums true empty_db) empty_db).1)
    ≡ get_forums (codes "ana") (changed calls (load_mod_forums true empty_db) empty_db).0
load-changed_example = load-changed calls empty_db (codes "ana")
