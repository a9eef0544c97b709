-- ===== src/Stores/WatchTokens.antt =====
-- watch.go: WatchTokenStore; its Owner reads an error as a missing token. Each call says first
-- whether SQLite answers.
use mediavida.Base.{ℕ, Bool, Text, Option, List, []}
use mediavida.Store.{Db, ok, failed, WatchTokenRecord}
use mediavida.Store.Tokens.{
  add_watch_token, list_watch_tokens, get_watch_token_owner, delete_watch_token,
}
use mediavida.Auth.Gate.{found_owner}

unfoldable pub add : Bool → Text → Text → Text → ℕ → Db → Db
add up token owner label now db = (add_watch_token up token owner label now db).1

unfoldable pub list : Bool → Text → Db → List WatchTokenRecord
list up owner db = elim (list_watch_tokens up owner db) [ failed ↦ [] | ok recs ↦ recs ]

unfoldable pub owner : Bool → Text → Db → Option Text
owner up token db = found_owner (get_watch_token_owner up token db)

unfoldable pub delete : Bool → Text → Db → Db
delete up token db = (delete_watch_token up token db).1
