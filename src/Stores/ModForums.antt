-- ===== src/Stores/ModForums.antt =====
-- mod_forums.go: ModForumsStore, a write-through cache over the table mod_forums.
pub mod Lists
pub mod Laws
use mediavida.Base.{
  Bool, true, false, Text, Option, none, some, List, [], ◌∷◌, ◌++◌, if◌then◌else◌, same, text_key,
}
use mediavida.Base.Maps.{Map, lookup, insert, erase}
use mediavida.Base.Rows.{delete}
use mediavida.Base.Sort.{sort_strings}
use mediavida.Store.{Db, Reply, ok, failed}
use mediavida.Store.Forums.{add_mod_forum, remove_mod_forum, all_mod_forums}

-- The field `forums`: the slugs of each user.
abbrev pub ModForums : Type 0
ModForums = Map Text (List Text)

-- s.forums[username], nil for a missing key. Get returns a copy of it.
unfoldable pub get_forums : Text → ModForums → List Text
get_forums username m = elim (lookup username m) [ none ↦ [] | some l ↦ l ]

unfoldable pub sorted_lists : Map Text (List Text) → ModForums
sorted_lists [] = []
sorted_lists ((u, slugs) ∷ m) = (u, sort_strings slugs) ∷ sorted_lists m

-- NewModForumsStore with its `load`.
unfoldable pub load_mod_forums : Bool → Db → ModForums
load_mod_forums up db = elim (all_mod_forums up db) [ failed ↦ [] | ok all ↦ sorted_lists all ]

unfoldable pub has_forum : Text → List Text → Bool
has_forum slug [] = false
has_forum slug (s ∷ l) = let rest = has_forum slug l in if same s slug then true else rest

-- Add: whether the list changed, the cache and the table. `up`: the table answers the write.
unfoldable pub add_forum : Bool → Text → Text → ModForums → Db → Bool × ModForums × Db
add_forum up username slug m db =
    let list = get_forums username m in
    if has_forum slug list then (false, m, db) else (
      true,
      insert username (sort_strings (list ++ slug ∷ [])) m,
      (add_mod_forum up username slug db).1,
    )

-- An empty list loses its key.
unfoldable pub put_rest : Text → List Text → ModForums → ModForums
put_rest username [] m = erase username m
put_rest username (s ∷ out) m = insert username (s ∷ out) m

-- Remove. `out` is the list without the slug.
unfoldable pub remove_forum : Bool → Text → Text → ModForums → Db → Bool × ModForums × Db
unfolding put_rest
remove_forum up username slug m db =
    let list = get_forums username m in
    if has_forum slug list
    then (
      true,
      put_rest username (delete (λ s. s) slug list) m,
      (remove_mod_forum up username slug db).1,
    )
    else (false, m, db)
