-- ===== src/Store/Sessions.antt =====
-- store.go: the durable sessions, and the clean-up of `migrate`.
use mediavida.Base.{
  text_key, ℕ, Bool, false, Text, codes, Option, none, some, List, [], ◌∷◌, map, not, same,
}
use mediavida.Base.Strings.{to_lower}
use mediavida.Base.Rows.{select, upsert, delete, where_rows}
use mediavida.Store.{SessionRecord, SessionRow, Db, Reply, query, exec}

abbrev pub session_key : SessionRow → Text
session_key r = r.rec.client_id

unfoldable pub put_session : Bool → SessionRecord → ℕ → Db → Reply (Unit {0}) × Db
put_session up r now db =
    exec up
      (record db {
        mv_sessions =
            upsert session_key (λ old new. new) (record { rec = r; updated_at = now })
              db.mv_sessions;
      })
      db

abbrev pub session_of : Option SessionRow → Option SessionRecord
session_of none = none
session_of (some r) = some r.rec

unfoldable pub get_session : Bool → Text → Db → Reply (Option SessionRecord)
get_session up client_id db = query up (session_of (select session_key client_id db.mv_sessions))

unfoldable pub all_sessions : Bool → Db → Reply (List SessionRecord)
all_sessions up db = query up (map (λ (r : SessionRow). r.rec) db.mv_sessions)

unfoldable pub delete_session : Bool → Text → Db → Reply (Unit {0}) × Db
delete_session up client_id db =
    exec up (record db { mv_sessions = delete session_key client_id db.mv_sessions }) db

-- SQL `LIKE 'wf_%'`: case is ignored, `_` stands for one character and `%` for any rest.
unfoldable pub like_wf : Text → Bool
like_wf (w ∷ f ∷ c ∷ rest) = same (to_lower (w ∷ f ∷ [])) (codes "wf")
like_wf _ = false

-- The tables exist already or are made empty; then the copied watch sessions are dropped.
unfoldable pub migrate : Bool → Db → Reply (Unit {0}) × Db
migrate up db =
    exec up
      (record db { mv_sessions = where_rows (λ r. not (like_wf r.rec.client_id)) db.mv_sessions })
      db
