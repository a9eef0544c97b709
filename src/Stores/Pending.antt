-- ===== src/Stores/Pending.antt =====
-- activity.go: PendingNotifStore. Each call says first whether SQLite answers.
use mediavida.Base.{
  ℕ, suc, Bool, Text, none, some, List, [], ◌∷◌, if◌then◌else◌, is_empty, text_key,
}
use mediavida.Base.Maps.{Map, lookup, insert}
use mediavida.Store.{Db, ok, failed}
use mediavida.Store.Notifs.{
  add_pending_notif, count_pending_notifs, pending_notif_urls, clear_pending_notifs,
}
use mediavida.Activity.{thread_key}

-- The items as Add reads them: identifier and URL.
abbrev pub Notice : Type 0
Notice = Text × Text

-- Add: items without an identifier are skipped; the first error ends the loop. SQLite answers each
-- write or not.
unfoldable pub add : (Notice → Bool) → Text → ℕ → List Notice → Db → Db
add up client_id now [] db = db
add up client_id now ((id, url) ∷ items) db =
    if is_empty id
    then add up client_id now items db
    else (let (r, db') = add_pending_notif (up (id, url)) client_id id url now db in
        elim r [ ok u ↦ add up client_id now items db' | failed ↦ db' ])

unfoldable pub count : Bool → Text → Db → ℕ
count up client_id db = elim (count_pending_notifs up client_id db) [ failed ↦ 0 | ok n ↦ n ]

-- out[threadKey(u)]++
unfoldable pub tally : List Text → Map Text ℕ → Map Text ℕ
tally [] out = out
tally (u ∷ urls) out =
    let k = thread_key u in
    tally urls (insert k (suc (elim (lookup k out) [ none ↦ 0 | some n ↦ n ])) out)

unfoldable pub count_by_thread : Bool → Text → Db → Map Text ℕ
count_by_thread up client_id db = elim (pending_notif_urls up client_id db) [
  | failed ↦ []
  | ok urls ↦ tally urls []
]

unfoldable pub clear : Bool → Text → Db → Db
clear up client_id db = (clear_pending_notifs up client_id db).1
