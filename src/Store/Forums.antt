-- ===== src/Store/Forums.antt =====
-- store.go: the subscriptions of moderators.
use mediavida.Base.{text_key, Bool, Text, Option, none, some, List, [], ◌∷◌, ◌++◌, map, same}
use mediavida.Base.Maps.{Map, lookup, insert}
use mediavida.Base.Rows.{insert_ignore, delete, where_rows}
use mediavida.Store.{Db, Reply, query, exec}
use mediavida.Store.Tokens.{pair_key}

unfoldable pub add_mod_forum : Bool → Text → Text → Db → Reply (Unit {0}) × Db
add_mod_forum up username slug db =
    exec up (record db { mod_forums = insert_ignore (λ r. r) (username, slug) db.mod_forums }) db

unfoldable pub remove_mod_forum : Bool → Text → Text → Db → Reply (Unit {0}) × Db
remove_mod_forum up username slug db =
    exec up (record db { mod_forums = delete (λ r. r) (username, slug) db.mod_forums }) db

unfoldable pub get_mod_forums : Bool → Text → Db → Reply (List Text)
get_mod_forums up username db = query up (
    map (λ (r : Text × Text). r.1)
      (where_rows (λ (r : Text × Text). same r.0 username) db.mod_forums))

-- The value of a missing key is the empty slice.
abbrev slugs_or_nil : Option (List Text) → List Text
slugs_or_nil none = []
slugs_or_nil (some l) = l

-- out[u] = append(out[u], slug), row by row.
unfoldable pub group_slugs : List (Text × Text) → Map Text (List Text) → Map Text (List Text)
group_slugs [] out = out
group_slugs ((u, slug) ∷ rows) out =
    group_slugs rows (insert u (slugs_or_nil (lookup u out) ++ slug ∷ []) out)

unfoldable pub all_mod_forums : Bool → Db → Reply (Map Text (List Text))
unfolding group_slugs
all_mod_forums up db = query up (group_slugs db.mod_forums [])
