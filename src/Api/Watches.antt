-- ===== src/Api/Watches.antt =====
-- watch.go: RegisterWatchRoutes; session.go: CreateWatchAlias.
use mediavida.Base.{
  Bool, Text, codes, Option, none, some, map, ◌||◌, if◌then◌else◌, is_empty, same, text_key,
}
use mediavida.Base.Int.{pos}
use mediavida.Base.Strings.{trim_space}
use mediavida.Base.Maps.{erase}
use mediavida.Store.{WatchTokenRecord, Db}
use mediavida.Store.Sessions.{delete_session}
use mediavida.Stores.WatchTokens
use mediavida.Scraper.{Packages}
use mediavida.Sessions.{Server, Call}
use mediavida.Sessions.Restore.{lookup_session, get_of}
use mediavida.Sessions.Credentials.{create_watch_alias}
use mediavida.Api.Dto.{WatchTokenInfo, status_body, watch_paired, watches}
use mediavida.Api.Routes.{Response, success, problem, RouteEnv, Handler, authenticated}

-- The body of POST /watch/pair: label and the token that it replaces.
pub record WatchPairRequest : Type 0 where
  pub label : Text
  pub replaces : Text

-- The replaced token goes only if it is the caller's own.
unfoldable pub revoke_replaced : Bool → Text → Text → Text → Db → Db
revoke_replaced up old token owner db =
    if is_empty old || same old token then db else elim (WatchTokens.owner up old db) [
      | none ↦ db
      | some o ↦ if same o owner then WatchTokens.delete up old db else db
    ]

unfoldable pub token_info : WatchTokenRecord → WatchTokenInfo
token_info r = record { token = r.token; label = r.label; created_at = pos r.created_at }

-- `client_id` is the caller, the owner of the watches.
module _ (std : Packages) (env : RouteEnv) (client_id : Text) where
  unfoldable pub paired : Text → WatchPairRequest → Option Text → Server → Response × Server
  paired base_url req none sv = (problem 409, sv)
  paired base_url req (some token) sv = (
    success (watch_paired token base_url),
    record sv {
      db =
          revoke_replaced env.up (trim_space req.replaces) token client_id
            (WatchTokens.add env.up token client_id (trim_space req.label) env.now sv.db);
    },
  )

  -- The Get of CreateWatchAlias may look up the session once more, as `again` answers.
  unfoldable pub pair : Text → Call → Text → Option WatchPairRequest → Handler
  pair base_url again flow_id none s sv = (problem 400, sv)
  pair base_url again flow_id (some req) s sv =
      let (p, sv') = lookup_session std again client_id sv in
      paired base_url req (create_watch_alias (get_of p) flow_id) sv'

  -- POST /watch/pair
  unfoldable pub post_pair :
      Text → Call → Text → Option WatchPairRequest → Server → Response × Server
  post_pair base_url again flow_id body =
      authenticated std env client_id (pair base_url again flow_id body)

  -- GET /watch/tokens
  unfoldable pub get_tokens : Server → Response × Server
  get_tokens =
      authenticated std env client_id
        (λ s sv. (success (watches (map token_info (WatchTokens.list env.up client_id sv.db))), sv))

  unfoldable pub revoke : Text → Handler
  revoke token s sv = elim (WatchTokens.owner env.up token sv.db) [
    | none ↦ (problem 404, sv)
    | some o ↦
        if same o client_id
        then (
          success (status_body (codes "revoked")),
          record sv {
            sessions = erase token sv.sessions;
            db = (delete_session env.up token (WatchTokens.delete env.up token sv.db)).1;
          },
        )
        else (problem 404, sv)
  ]

  -- DELETE /watch/pair/{token}
  unfoldable pub delete_pair : Text → Server → Response × Server
  delete_pair token = authenticated std env client_id (revoke token)
