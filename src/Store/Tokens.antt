-- ===== src/Store/Tokens.antt =====
-- store.go: FCM tokens, watch tokens and app aliases.
use mediavida.Base.{
  text_key, ℕ, Bool, Text, Option, none, some, List, [], ◌∷◌, map, if◌then◌else◌, ltb, same,
}
use mediavida.Base.Keys.{Key, text_discrete}
use mediavida.Base.Rows.{select, upsert, insert_ignore, delete, where_rows}
use mediavida.Store.{WatchTokenRecord, AliasRow, Db, Reply, query, exec}

pub pair_discrete : Discrete (Text × Text)
pair_discrete = hlevel text_discrete

-- A primary key of two columns.
instance abbrev pub pair_key : Key (Text × Text)
pair_key = record { dec = pair_discrete }

unfoldable pub add_fcm_token : Bool → Text → Text → Db → Reply (Unit {0}) × Db
add_fcm_token up client_id token db =
    exec up (record db { fcm_tokens = insert_ignore (λ r. r) (client_id, token) db.fcm_tokens }) db

unfoldable pub remove_fcm_token : Bool → Text → Text → Db → Reply (Unit {0}) × Db
remove_fcm_token up client_id token db =
    exec up (record db { fcm_tokens = delete (λ r. r) (client_id, token) db.fcm_tokens }) db

unfoldable pub get_fcm_tokens : Bool → Text → Db → Reply (List Text)
get_fcm_tokens up client_id db = query up (
    map (λ (r : Text × Text). r.1)
      (where_rows (λ (r : Text × Text). same r.0 client_id) db.fcm_tokens))

abbrev pub watch_key : WatchTokenRecord → Text
watch_key r = r.token

-- The row keeps its `created_at` when it is relabelled.
unfoldable pub add_watch_token : Bool → Text → Text → Text → ℕ → Db → Reply (Unit {0}) × Db
add_watch_token up token owner label now db =
    exec up
      (record db {
        watch_tokens =
            upsert watch_key (λ old new. record old { owner = new.owner; label = new.label })
              (record { token = token; owner = owner; label = label; created_at = now })
              db.watch_tokens;
      })
      db

-- ORDER BY created_at DESC.
newest_first : WatchTokenRecord → List WatchTokenRecord → List WatchTokenRecord
newest_first r [] = r ∷ []
newest_first r (s ∷ l) = if ltb r.created_at s.created_at then s ∷ newest_first r l else r ∷ s ∷ l

order_newest : List WatchTokenRecord → List WatchTokenRecord
order_newest [] = []
order_newest (r ∷ l) = newest_first r (order_newest l)

unfoldable pub list_watch_tokens : Bool → Text → Db → Reply (List WatchTokenRecord)
unfolding order_newest newest_first
list_watch_tokens up owner db =
    query up (order_newest (where_rows (λ r. same r.owner owner) db.watch_tokens))

abbrev pub watch_owner : Option WatchTokenRecord → Option Text
watch_owner none = none
watch_owner (some r) = some r.owner

unfoldable pub get_watch_token_owner : Bool → Text → Db → Reply (Option Text)
get_watch_token_owner up token db = query up (watch_owner (select watch_key token db.watch_tokens))

unfoldable pub delete_watch_token : Bool → Text → Db → Reply (Unit {0}) × Db
delete_watch_token up token db =
    exec up (record db { watch_tokens = delete watch_key token db.watch_tokens }) db

abbrev pub alias_key : AliasRow → Text
alias_key r = r.token

unfoldable pub add_app_alias : Bool → Text → Text → ℕ → Db → Reply (Unit {0}) × Db
add_app_alias up token owner now db =
    exec up
      (record db {
        app_aliases =
            upsert alias_key (λ old new. record old { owner = new.owner })
              (record { token = token; owner = owner; created_at = now }) db.app_aliases;
      })
      db

abbrev alias_owner : Option AliasRow → Option Text
alias_owner none = none
alias_owner (some r) = some r.owner

unfoldable pub get_app_alias_owner : Bool → Text → Db → Reply (Option Text)
get_app_alias_owner up token db = query up (alias_owner (select alias_key token db.app_aliases))

unfoldable pub delete_app_alias : Bool → Text → Db → Reply (Unit {0}) × Db
delete_app_alias up token db =
    exec up (record db { app_aliases = delete alias_key token db.app_aliases }) db
