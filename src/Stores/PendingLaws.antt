-- ===== src/Stores/PendingLaws.antt =====
-- activity.go: what the mirror of unseen notifications counts.
use mediavida.Base.{
  ℕ, suc, ◌+◌, ◌≡◌, refl, ◌∙◌, Bool, true, false, Text, none, some, List, [], ◌∷◌, arith,
  if◌then◌else◌, length, length-map, same, text_key, map,
}
use mediavida.Base.Maps.{Map, lookup, insert}
use mediavida.Base.Rows.{where_rows}
use mediavida.Store.{Db, PendingRow}
use mediavida.Store.Notifs.{
  count_pending_notifs, pending_of, pending_notif_urls, clear_pending_notifs,
}
use mediavida.Store.Tokens.{pair_key}
use mediavida.Activity.{thread_key}
use mediavida.Stores.Pending.{count, tally, count_by_thread, clear}

-- The sum of the values of a map.
unfoldable pub total : Map Text ℕ → ℕ
total [] = 0
total ((k, n) ∷ m) = n + total m

total-insert :
    (k : Text) (m : Map Text ℕ)
    → total (insert k (suc (elim (lookup k m) [ none ↦ 0 | some n ↦ n ])) m) ≡ suc (total m)
unfolding total insert lookup
total-insert k [] = refl
total-insert k ((a, n) ∷ m) = ground (arith, total-insert k m)

total-tally :
    (urls : List Text) (out : Map Text ℕ) → total (tally urls out) ≡ length urls + total out
unfolding tally
total-tally [] out = omega arith
total-tally (u ∷ urls) out = ground (
  arith,
  total-tally urls (
      insert (thread_key u) (suc (elim (lookup (thread_key u) out) [ none ↦ 0 | some n ↦ n ])) out),
  total-insert (thread_key u) out,
)

-- The counts by thread add up to the count of all, when SQLite answers the same to both reads.
pub total-count_by_thread :
    (up : Bool) (client_id : Text) (db : Db)
    → total (count_by_thread up client_id db) ≡ count up client_id db
unfolding count_by_thread count pending_notif_urls count_pending_notifs total
total-count_by_thread true client_id db =
    total-tally (map (λ (r : PendingRow). r.url) (pending_of client_id db)) []
    ∙ ground (arith, length-map (λ (r : PendingRow). r.url) (pending_of client_id db))
total-count_by_thread false client_id db = refl

none_left :
    (c b : Text) (rows : List PendingRow)
    → where_rows
        (λ r. same r.client_id b)
        (where_rows (λ (r : PendingRow). if same r.client_id c then false else true) rows)
      ≡ (if same c b then [] else where_rows (λ r. same r.client_id b) rows)
unfolding where_rows
none_left c b [] = ground arith
none_left c b (r ∷ rows) = ground (arith, none_left c b rows)

-- Clear, when SQLite answers it, leaves no unseen notification of the client, and those of every
-- other client as they were.
pub count-clear :
    (up : Bool) (c b : Text) (db : Db)
    → count up b (clear true c db) ≡ (if same c b then 0 else count up b db)
unfolding count clear count_pending_notifs clear_pending_notifs pending_of
count-clear true c b db = ground (arith, none_left c b db.pending_notifs)
count-clear false c b db = ground arith
