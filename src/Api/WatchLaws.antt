-- ===== src/Api/WatchLaws.antt =====
-- watch.go: nobody revokes the watch of another.
use mediavida.Base.{◌≡◌, ◌≢◌, refl, Bool, true, false, Text, Option, none, some, arith, text_key}
use mediavida.Base.Maps.{lookup-erase_self}
use mediavida.Base.Rows.{select, select-delete}
use mediavida.Store.{Db}
use mediavida.Store.Tokens.{watch_key, get_watch_token_owner, watch_owner, delete_watch_token}
use mediavida.Store.Sessions.{delete_session}
use mediavida.Stores.WatchTokens
use mediavida.Auth.Gate.{found_owner}
use mediavida.Scraper.{ForumScraper, Packages}
use mediavida.Sessions.{Server, in_memory}
use mediavida.Api.Routes.{problem, RouteEnv}
use mediavida.Api.Watches.{revoke_replaced, revoke}

-- The owner of a watch in the table.
abbrev pub owner_in : Text → Db → Option Text
owner_in token db = watch_owner (select watch_key token db.watch_tokens)

delete-others :
    (up : Bool) (old token : Text) (db : Db)
    → old ≢ token
    → owner_in token (WatchTokens.delete up old db) ≡ owner_in token db
unfolding WatchTokens.delete delete_watch_token
delete-others true old token db n =
    ground (arith, n, select-delete watch_key old token db.watch_tokens)
delete-others false old token db n = refl

-- Whatever token a caller names as replaced, the watch of another owner stays.
revoke_replaced-others :
    (up : Bool) (old new caller token owner : Text) (db : Db)
    → owner_in token db ≡ some owner
    → owner ≢ caller
    → owner_in token (revoke_replaced up old new caller db) ≡ some owner
unfolding revoke_replaced WatchTokens.owner get_watch_token_owner found_owner
revoke_replaced-others up old new caller token owner db e n =
    ground (arith, e, n, delete-others up old token db)

-- DELETE /watch/pair/{token} behind the gate, when SQLite answers: the caller's own watch is revoked,
-- its row and its session in memory; for any other token the answer is a 404, and nothing changes.
pub revoke-scoped :
    (std : Packages) (env : RouteEnv) (caller token : Text) (s : ForumScraper) (sv : Server)
    → env.up ≡ true
    → (owner_in token sv.db ≡ some caller
        → (owner_in token (revoke std env caller token s sv).1.db ≡ none)
          × (in_memory token (revoke std env caller token s sv).1.sessions ≡ none))
      × (owner_in token sv.db ≢ some caller → revoke std env caller token s sv ≡ (problem 404, sv))
unfolding revoke WatchTokens.owner get_watch_token_owner found_owner WatchTokens.delete
    delete_watch_token delete_session in_memory
revoke-scoped std env caller token s sv u = (
  (λ e. (
    ground (arith, u, e, select-delete watch_key token token sv.db.watch_tokens),
    ground (arith, u, e, lookup-erase_self token sv.sessions),
  )),
  (λ n. ground (arith, u, n)),
)
