-- ===== src/Store/Notifs.antt =====
-- store.go: the mirror of unseen notifications, and the webhooks.
use mediavida.Base.{text_key, ℕ, Bool, true, false, Text, List, map, if◌then◌else◌, same, length}
use mediavida.Base.Maps.{Map}
use mediavida.Base.Rows.{upsert, insert_ignore, delete, where_rows}
use mediavida.Store.{PendingRow, Db, Reply, query, exec}
use mediavida.Store.Tokens.{pair_key}

abbrev pub pending_key : PendingRow → Text × Text
pending_key r = (r.client_id, r.notif_id)

unfoldable pub add_pending_notif : Bool → Text → Text → Text → ℕ → Db → Reply (Unit {0}) × Db
add_pending_notif up client_id notif_id url created_at db =
    exec up
      (record db {
        pending_notifs =
            insert_ignore pending_key
              (record {
                client_id = client_id;
                notif_id = notif_id;
                url = url;
                created_at = created_at;
              })
              db.pending_notifs;
      })
      db

unfoldable pub pending_of : Text → Db → List PendingRow
pending_of client_id db = where_rows (λ r. same r.client_id client_id) db.pending_notifs

unfoldable pub count_pending_notifs : Bool → Text → Db → Reply ℕ
unfolding pending_of
count_pending_notifs up client_id db = query up (length (pending_of client_id db))

unfoldable pub pending_notif_urls : Bool → Text → Db → Reply (List Text)
unfolding pending_of
pending_notif_urls up client_id db =
    query up (map (λ (r : PendingRow). r.url) (pending_of client_id db))

unfoldable pub clear_pending_notifs : Bool → Text → Db → Reply (Unit {0}) × Db
clear_pending_notifs up client_id db =
    exec up
      (record db {
        pending_notifs =
            where_rows (λ r. if same r.client_id client_id then false else true) db.pending_notifs;
      })
      db

abbrev pub webhook_key : Text × Text → Text
webhook_key r = r.0

unfoldable pub set_webhook : Bool → Text → Text → Db → Reply (Unit {0}) × Db
set_webhook up username url db =
    exec up
      (record db {
        webhooks = upsert webhook_key (λ old new. (old.0, new.1)) (username, url) db.webhooks;
      })
      db

unfoldable pub remove_webhook : Bool → Text → Db → Reply (Unit {0}) × Db
remove_webhook up username db =
    exec up (record db { webhooks = delete webhook_key username db.webhooks }) db

-- The rows of the table, one for each username, are the entries of the map.
unfoldable pub all_webhooks : Bool → Db → Reply (Map Text Text)
all_webhooks up db = query up db.webhooks
