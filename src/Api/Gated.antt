-- ===== src/Api/Gated.antt =====
-- api.go and watch.go: the routes behind requireAuthenticated, as one dispatch, and the gate that all
-- of them share.
use mediavida.Base.{ℕ, ◌≡◌, ◌≢◌, ap, Bool, false, Text, Option, none, some}
use mediavida.Cache.{Entries}
use mediavida.Stores.ModForums.{ModForums}
use mediavida.Scraper.{ForumScraper, Packages}
use mediavida.Scraper.Recovery.{Op}
use mediavida.Api.{ForumOps}
use mediavida.Store.{ok}
use mediavida.Store.Sessions.{get_session}
use mediavida.Sessions.{Session, Status, Server, Call, in_memory}
use mediavida.Auth.Gate.{Required, status_401, status_503, require_authenticated}
use mediavida.Auth.Unserved.{
  require_authenticated-missing, require_authenticated-idle, require_authenticated-unread,
}
use mediavida.Api.Dto.{Body}
use mediavida.Api.Routes.{
  Response, problem, RouteEnv, Handler, authenticated, passed, shared, on_required,
}
use mediavida.Api.Reading.{
  get_portada, get_forums, get_forum_threads, get_threads, get_source, get_quote, get_quoted,
  get_tags, get_search,
}
use mediavida.Api.Personal.{
  get_inbox, get_messages, get_favorites, get_user_posts, get_user_mentions, get_profile,
}
use mediavida.Api.Writing.{
  LikeRequest, ReplyRequest, EditRequest, ThreadRequest, post_like, post_reply_route, post_edit,
  post_thread, post_message,
}
use mediavida.Api.Notices.{
  get_mv_cookies, get_notifications, get_bubbles, get_webhook, put_webhook, delete_webhook,
}
use mediavida.Api.Moderators.{
  Subscribed, mod_authenticated, mod_passed, get_mod_forums, post_mod_forums, delete_mod_forums,
}
use mediavida.Api.Watches.{WatchPairRequest, post_pair, get_tokens, delete_pair}

-- A request to a route, with its parameters and its decoded body.
pub data Route : Type 0 where
  portada forums : Route
  forum_threads threads source quote quoted : Text → Text → Route
  tags search inbox messages user_posts user_mentions : Text → Route
  favorites profile notifications bubbles webhook unset_webhook mod_forums watch_tokens mv_cookies :
      Route
  like : Option LikeRequest → Route
  reply : Option ReplyRequest → Route
  edit : Option EditRequest → Route
  thread : Option ThreadRequest → Route
  message : Text → Option Text → Route
  set_webhook subscribe : Option Text → Route
  unsubscribe revoke_watch : Text → Route
  pair_watch : Option WatchPairRequest → Route

-- The state of the process that the routes share.
pub record Backend : Type 0 where
  pub server : Server
  pub cache : Entries
  pub forums_of : ModForums

-- encoding/json on an answer and on a text, the base URL, and the look-up and the flow ID of a new
-- watch alias.
pub record Outside : Type 0 where
  pub marshal : Body → Option Text
  pub is_json : Text → Bool
  pub base_url : Text
  pub again : Call
  pub flow_id : Text

abbrev plain : Backend → Response × Server → Response × Backend
plain b (r, sv) = (r, record b { server = sv })

abbrev cached : Backend → Response × Entries × Server → Response × Backend
cached b (r, c, sv) = (r, record b { server = sv; cache = c })

abbrev moderated : Backend → Response × ModForums × Server → Response × Backend
moderated b (r, m, sv) = (r, record b { server = sv; forums_of = m })

module _ (std : Packages) (env : RouteEnv) (out : Outside) (id : Text) where
  unfoldable pub serve : Route → Backend → Response × Backend
  serve portada b = cached b (get_portada std env id out.marshal b.cache b.server)
  serve forums b = cached b (get_forums std env id out.marshal b.cache b.server)
  serve (forum_threads slug page) b = plain b (get_forum_threads std env id slug page b.server)
  serve (threads url page) b = plain b (get_threads std env id url page b.server)
  serve (source num url) b = plain b (get_source std env id num url b.server)
  serve (quote num url) b = plain b (get_quote std env id num url b.server)
  serve (quoted num url) b = plain b (get_quoted std env id num url b.server)
  serve (tags subforum) b = plain b (get_tags std env id subforum b.server)
  serve (search query) b = plain b (get_search std env id query b.server)
  serve (inbox page) b = plain b (get_inbox std env id page b.server)
  serve (messages m) b = plain b (get_messages std env id m b.server)
  serve (user_posts u) b = plain b (get_user_posts std env id u b.server)
  serve (user_mentions u) b = plain b (get_user_mentions std env id u b.server)
  serve favorites b = plain b (get_favorites std env id b.server)
  serve profile b = plain b (get_profile std env id b.server)
  serve notifications b = plain b (get_notifications std env id b.server)
  serve bubbles b = plain b (get_bubbles std env id b.server)
  serve mv_cookies b = plain b (get_mv_cookies std env id b.server)
  serve webhook b = plain b (get_webhook std env id b.server)
  serve unset_webhook b = plain b (delete_webhook std env id b.server)
  serve mod_forums b = moderated b (get_mod_forums std env id b.forums_of b.server)
  serve watch_tokens b = plain b (get_tokens std env id b.server)
  serve (like req) b = plain b (post_like std env id req b.server)
  serve (reply req) b = plain b (post_reply_route std env id req b.server)
  serve (edit req) b = plain b (post_edit std env id req b.server)
  serve (thread req) b = plain b (post_thread std env id out.is_json req b.server)
  serve (message m req) b = plain b (post_message std env id m req b.server)
  serve (set_webhook req) b = plain b (put_webhook std env id req b.server)
  serve (subscribe req) b = moderated b (post_mod_forums std env id req b.forums_of b.server)
  serve (unsubscribe slug) b = moderated b (delete_mod_forums std env id slug b.forums_of b.server)
  serve (revoke_watch token) b = plain b (delete_pair std env id token b.server)
  serve (pair_watch req) b =
      plain b (post_pair std env id out.base_url out.again out.flow_id req b.server)

-- The session of the client is missing or not authenticated, or cannot be read: what the gate
-- answers, and the server that its look-up leaves.
data Refused (q : Required × Server) : Response → Server → Type 0 where
  no_session : (sv : Server) → q ≡ (status_401, sv) → Refused q (problem 401) sv
  no_store : (sv : Server) → q ≡ (status_503, sv) → Refused q (problem 503) sv

-- A client that the gate has nothing to serve with, and its answer: no session, one whose login is not
-- complete, or a store that does not answer.
pub data Unserved (c : Call) (id : Text) (sv : Server) : Response → Type 0 where
  missing :
      in_memory id sv.sessions ≡ none
      → get_session c.read_up id sv.db ≡ ok none
      → Unserved c id sv (problem 401)
  idle :
      (s : Session)
      → in_memory id sv.sessions ≡ some s
      → s.status ≢ Status.authenticated
      → Unserved c id sv (problem 401)
  unread : in_memory id sv.sessions ≡ none → c.read_up ≡ false → Unserved c id sv (problem 503)

module _ (std : Packages) (env : RouteEnv) (id : Text) where
  gated :
      {r : Response} {sv' : Server} (k : Handler) (b : Backend)
      → Refused (require_authenticated std env.gate id b.server) r sv'
      → plain b (authenticated std env id k b.server) ≡ (r, record b { server = sv' })
  unfolding authenticated passed
  gated k b (no_session sv e) = ap (λ q. plain b (passed std env id k q)) e
  gated k b (no_store sv e) = ap (λ q. plain b (passed std env id k q)) e

  gated_shared :
      {r : Response} {sv' : Server} {A : Type 0} (key : Text) (ttl : ℕ)
      (marshal : Body → Option Text) (op : ForumOps → Op A) (body : A → Body) (b : Backend)
      → Refused (require_authenticated std env.gate id b.server) r sv'
      → cached b (shared std env id key ttl marshal op body b.cache b.server)
        ≡ (r, record b { server = sv' })
  unfolding shared on_required
  gated_shared key ttl marshal op body b (no_session sv e) =
      ap (λ q. cached b (on_required std env id key ttl marshal op body b.cache q)) e
  gated_shared key ttl marshal op body b (no_store sv e) =
      ap (λ q. cached b (on_required std env id key ttl marshal op body b.cache q)) e

  gated_moderated :
      {r : Response} {sv' : Server} (k : ForumScraper → ModForums → Server → Subscribed)
      (b : Backend)
      → Refused (require_authenticated std env.gate id b.server) r sv'
      → moderated b (mod_authenticated std env id k b.forums_of b.server)
        ≡ (r, record b { server = sv' })
  unfolding mod_authenticated mod_passed
  gated_moderated k b (no_session sv e) =
      ap (λ q. moderated b (mod_passed std env id k b.forums_of q)) e
  gated_moderated k b (no_store sv e) =
      ap (λ q. moderated b (mod_passed std env id k b.forums_of q)) e

  -- Every route answers what the gate does, and keeps the server that its look-up leaves.
  serve-Required :
      (out : Outside) (route : Route) (b : Backend) {r : Response} {sv' : Server}
      → Refused (require_authenticated std env.gate id b.server) r sv'
      → serve std env out id route b ≡ (r, record b { server = sv' })
  unfolding serve get_portada get_forums get_mod_forums post_mod_forums delete_mod_forums
      get_forum_threads get_threads get_source get_quote get_quoted get_tags get_search get_inbox
      get_messages get_user_posts get_user_mentions get_favorites get_profile get_notifications
      get_mv_cookies get_bubbles get_webhook delete_webhook get_tokens post_like post_reply_route
      post_edit post_thread post_message put_webhook delete_pair post_pair
  serve-Required out portada b x = gated_shared _ _ _ _ _ b x
  serve-Required out forums b x = gated_shared _ _ _ _ _ b x
  serve-Required out mod_forums b x = gated_moderated _ b x
  serve-Required out (subscribe r) b x = gated_moderated _ b x
  serve-Required out (unsubscribe a) b x = gated_moderated _ b x
  serve-Required out (forum_threads a p) b x = gated _ b x
  serve-Required out (threads a p) b x = gated _ b x
  serve-Required out (source a p) b x = gated _ b x
  serve-Required out (quote a p) b x = gated _ b x
  serve-Required out (quoted a p) b x = gated _ b x
  serve-Required out (tags a) b x = gated _ b x
  serve-Required out (search a) b x = gated _ b x
  serve-Required out (inbox a) b x = gated _ b x
  serve-Required out (messages a) b x = gated _ b x
  serve-Required out (user_posts a) b x = gated _ b x
  serve-Required out (user_mentions a) b x = gated _ b x
  serve-Required out favorites b x = gated _ b x
  serve-Required out profile b x = gated _ b x
  serve-Required out notifications b x = gated _ b x
  serve-Required out bubbles b x = gated _ b x
  serve-Required out mv_cookies b x = gated _ b x
  serve-Required out webhook b x = gated _ b x
  serve-Required out unset_webhook b x = gated _ b x
  serve-Required out watch_tokens b x = gated _ b x
  serve-Required out (like r) b x = gated _ b x
  serve-Required out (reply r) b x = gated _ b x
  serve-Required out (edit r) b x = gated _ b x
  serve-Required out (thread r) b x = gated _ b x
  serve-Required out (message a r) b x = gated _ b x
  serve-Required out (set_webhook r) b x = gated _ b x
  serve-Required out (revoke_watch a) b x = gated _ b x
  serve-Required out (pair_watch r) b x = gated _ b x

  Unserved-Refused :
      (sv : Server) {r : Response}
      → Unserved env.gate id sv r
      → Refused (require_authenticated std env.gate id sv) r sv
  Unserved-Refused sv (missing m n) =
      no_session sv (require_authenticated-missing std env.gate id sv m n)
  Unserved-Refused sv (idle s m n) =
      no_session sv (require_authenticated-idle std env.gate id sv s m n)
  Unserved-Refused sv (unread m n) =
      no_store sv (require_authenticated-unread std env.gate id sv m n)

  -- Every route behind the gate, whatever its parameters and its body are, answers a client without a
  -- session in memory and in the store, or with one in memory that is not authenticated, with 401, and a
  -- client without a session in memory while the store cannot be read with 503, and leaves the sessions,
  -- the store, the cache and the moderators' subscriptions as they were.
  pub serve-Refused :
      (out : Outside) (route : Route) (b : Backend) {r : Response}
      → Unserved env.gate id b.server r
      → serve std env out id route b ≡ (r, b)
  serve-Refused out route b u = serve-Required out route b (Unserved-Refused b.server u)
