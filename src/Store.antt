-- ===== src/Store.antt =====
-- store.go: the SQLite file, its tables and its rows. The children translate the SQL text of each
-- method of `Store`. Whether SQLite answers a call is the environment's choice: the first argument
-- of each method.
pub mod Sessions
pub mod Tokens
pub mod Notifs
pub mod Forums
pub mod Laws
use mediavida.Base.{ℕ, Bool, true, false, Text, List, [], ◌∷◌, if◌then◌else◌}

-- Columns of mv_sessions without `updated_at`: what the queries return.
pub record SessionRecord : Type 0 where
  pub client_id : Text
  pub user : Text
  pub pass : Text
  pub cookies : Text

-- A row of mv_sessions.
pub record SessionRow : Type 0 where
  pub rec : SessionRecord
  pub updated_at : ℕ

pub record WatchTokenRecord : Type 0 where
  pub token : Text
  pub owner : Text
  pub label : Text
  pub created_at : ℕ

-- A row of app_aliases.
pub record AliasRow : Type 0 where
  pub token : Text
  pub owner : Text
  pub created_at : ℕ

-- A row of pending_notifs.
pub record PendingRow : Type 0 where
  pub client_id : Text
  pub notif_id : Text
  pub url : Text
  pub created_at : ℕ

-- The tables that `migrate` creates.
pub record Db : Type 0 where
  pub mv_sessions : List SessionRow
  pub fcm_tokens : List (Text × Text)
  pub pending_notifs : List PendingRow
  pub webhooks : List (Text × Text)
  pub mod_forums : List (Text × Text)
  pub watch_tokens : List WatchTokenRecord
  pub app_aliases : List AliasRow

abbrev pub empty_db : Db
empty_db = record {
  mv_sessions = [];
  fcm_tokens = [];
  pending_notifs = [];
  webhooks = [];
  mod_forums = [];
  watch_tokens = [];
  app_aliases = [];
}

-- A value or the error of a call.
pub data Reply {ℓ} (A : Type ℓ) : Type ℓ where
  ok : A → Reply A
  failed : Reply A

-- A query that SQLite answers, or not.
abbrev pub query {ℓ} : {A : Type ℓ} → Bool → A → Reply A
query up a = if up then ok a else failed

-- A statement changes the tables whole, or fails and changes nothing.
abbrev pub exec : Bool → Db → Db → Reply (Unit {0}) × Db
exec up new old = if up then (ok tt, new) else (failed, old)
