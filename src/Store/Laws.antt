-- ===== src/Store/Laws.antt =====
-- What the store promises of its tables.
use mediavida.Base.{
  text_key, ℕ, ◌≡◌, refl, Bool, true, Text, codes, none, some, ◌++◌, arith, if◌then◌else◌, same,
  not,
}
use mediavida.Base.Strings.{to_lower}
use mediavida.Base.Rows.{select-upsert, select-delete, select-where_rows, key-select}
use mediavida.Store.{SessionRecord, Db, ok}
use mediavida.Store.Sessions.{
  put_session, get_session, delete_session, migrate, like_wf, session_key,
}
use mediavida.Store.Tokens.{
  add_app_alias, get_app_alias_owner, add_watch_token, get_watch_token_owner, delete_watch_token,
  alias_key, watch_key,
}

-- After SQLite has answered an upsert of a session, reading a session gives the new record at its
-- own client ID and what was there before at every other.
pub get_session-put_session :
    (r : SessionRecord) (now : ℕ) (a : Text) (db : Db)
    → get_session true a (put_session true r now db).1
      ≡ (if same r.client_id a then ok (some r) else get_session true a db)
unfolding get_session put_session
get_session-put_session r now a db = ground (
  arith,
  select-upsert session_key (λ old new. new) (λ old new e. refl) a
      (record { rec = r; updated_at = now }) db.mv_sessions,
)

pub get_session-delete_session :
    (a b : Text) (db : Db)
    → get_session true b (delete_session true a db).1
      ≡ (if same a b then ok none else get_session true b db)
unfolding get_session delete_session
get_session-delete_session a b db = ground (arith, select-delete session_key a b db.mv_sessions)

-- The clean-up of `migrate` drops exactly the sessions whose client ID is matched by the LIKE
-- pattern, and changes no other.
pub get_session-migrate :
    (a : Text) (db : Db)
    → get_session true a (migrate true db).1
      ≡ (if like_wf a then ok none else get_session true a db)
unfolding get_session migrate
get_session-migrate a db =
    ground (arith, select-where_rows session_key (λ id. not (like_wf id)) a db.mv_sessions)

-- Every client ID that begins with `wf_` and goes on is matched by the LIKE pattern.
pub like_wf-prefix : (rest : Text) → like_wf (codes "wf_" ++ rest) ≡ true
unfolding like_wf to_lower
like_wf-prefix rest = ground arith

pub get_app_alias_owner-add_app_alias :
    (token owner : Text) (now : ℕ) (a : Text) (db : Db)
    → get_app_alias_owner true a (add_app_alias true token owner now db).1
      ≡ (if same token a then ok (some owner) else get_app_alias_owner true a db)
unfolding get_app_alias_owner add_app_alias
get_app_alias_owner-add_app_alias token owner now a db = ground (
  arith,
  select-upsert alias_key (λ old new. record old { owner = new.owner }) (λ old new e. e) a
      (record { token = token; owner = owner; created_at = now }) db.app_aliases,
)

pub get_watch_token_owner-add_watch_token :
    (token owner label : Text) (now : ℕ) (a : Text) (db : Db)
    → get_watch_token_owner true a (add_watch_token true token owner label now db).1
      ≡ (if same token a then ok (some owner) else get_watch_token_owner true a db)
unfolding get_watch_token_owner add_watch_token
get_watch_token_owner-add_watch_token token owner label now a db = ground (
  arith,
  select-upsert watch_key (λ old new. record old { owner = new.owner; label = new.label })
      (λ old new e. e) a (record { token = token; owner = owner; label = label; created_at = now })
      db.watch_tokens,
)

-- After SQLite has answered the deletion of a watch token, that token has no owner and every other
-- token has the owner that it had.
pub get_watch_token_owner-delete_watch_token :
    (a b : Text) (db : Db)
    → get_watch_token_owner true b (delete_watch_token true a db).1
      ≡ (if same a b then ok none else get_watch_token_owner true b db)
unfolding get_watch_token_owner delete_watch_token
get_watch_token_owner-delete_watch_token a b db =
    ground (arith, select-delete watch_key a b db.watch_tokens)

pub client_id-get_session :
    (up : Bool) (a : Text) (db : Db) (r : SessionRecord)
    → get_session up a db ≡ ok (some r)
    → r.client_id ≡ a
unfolding get_session
client_id-get_session up a db r h = grind (arith, key-select session_key a db.mv_sessions)
