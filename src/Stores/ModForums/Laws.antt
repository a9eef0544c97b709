-- ===== src/Stores/ModForums/Laws.antt =====
-- mod_forums.go: the cache shows what the table holds.
use mediavida.Base.{
  ◌≡◌, refl, sym, ap, ◌∙◌, Bool, true, false, Text, List, [], ◌∷◌, ◌++◌, arith, if◌then◌else◌, same,
  text_key,
}
use mediavida.Base.Maps.{lookup}
use mediavida.Base.Rows.{delete}
use mediavida.Base.Sort.{place, sort_strings, sort_idem, sort-append_one}
use mediavida.Store.{Db}
use mediavida.Store.Tokens.{pair_key}
use mediavida.Store.Forums.{add_mod_forum, remove_mod_forum, all_mod_forums, group_slugs}
use mediavida.Stores.ModForums.{
  ModForums, get_forums, load_mod_forums, has_forum, add_forum, remove_forum,
}
use mediavida.Stores.ModForums.Lists.{
  slugs, slugs-insert_ignore, slugs-delete, has_forum-sort, delete-sort, get_forums-insert,
  get_forums-put_rest, has_forum-added, has_forum-delete, get_forums-sorted_lists,
  get_forums-group_slugs,
}

-- Every user's list is that of the rows of the table, sorted.
abbrev pub Shows : ModForums → Db → Type 0
Shows m db = (u : Text) → get_forums u m ≡ sort_strings (slugs u db.mod_forums)

load-Shows : (db : Db) → Shows (load_mod_forums true db) db
unfolding load_mod_forums all_mod_forums get_forums lookup
load-Shows db u =
    get_forums-sorted_lists u (group_slugs db.mod_forums [])
    ∙ ap sort_strings (get_forums-group_slugs u db.mod_forums [])

module _ (m : ModForums) (db : Db) (shows : Shows m db) (v slug : Text) where
  has_forum-slugs : has_forum slug (get_forums v m) ≡ has_forum slug (slugs v db.mod_forums)
  has_forum-slugs = ap (has_forum slug) (shows v) ∙ has_forum-sort slug (slugs v db.mod_forums)

  added_list :
      sort_strings (get_forums v m ++ slug ∷ []) ≡ sort_strings (slugs v db.mod_forums ++ slug ∷ [])
  added_list =
      sort-append_one slug (get_forums v m)
      ∙ ap (λ l. place slug (sort_strings l)) (shows v)
      ∙ ap (place slug) (sort_idem (slugs v db.mod_forums))
      ∙ sym (sort-append_one slug (slugs v db.mod_forums))

  removed_list :
      delete (λ s. s) slug (get_forums v m)
      ≡ sort_strings (delete (λ s. s) slug (slugs v db.mod_forums))
  removed_list = ap (delete (λ s. s) slug) (shows v) ∙ delete-sort slug (slugs v db.mod_forums)

  -- Add and Remove keep the cache in step with the table, if it answers the write.
  add_forum-Shows : Shows (add_forum true v slug m db).1 (add_forum true v slug m db).2
  unfolding add_forum add_mod_forum
  add_forum-Shows u = ground (
    arith,
    shows u,
    has_forum-slugs,
    added_list,
    get_forums-insert u v (sort_strings (get_forums v m ++ slug ∷ [])) m,
    slugs-insert_ignore u v slug db.mod_forums,
  )

  remove_forum-Shows : Shows (remove_forum true v slug m db).1 (remove_forum true v slug m db).2
  unfolding remove_forum remove_mod_forum
  remove_forum-Shows u = ground (
    arith,
    shows u,
    removed_list,
    get_forums-put_rest u v (delete (λ s. s) slug (get_forums v m)) m,
    slugs-delete u v slug db.mod_forums,
  )

-- The calls of Add and Remove, with the user and the slug.
pub data Change : Type 0 where
  adds removes : Text → Text → Change

-- A sequence of calls whose writes the table answers.
unfoldable pub changed : List Change → ModForums → Db → ModForums × Db
changed [] m db = (m, db)
changed (adds v s ∷ cs) m db = let (b, m', db') = add_forum true v s m db in changed cs m' db'
changed (removes v s ∷ cs) m db = let (b, m', db') = remove_forum true v s m db in changed cs m' db'

-- The subscriptions as a set of pairs: what the calls make of whether one pair is in it.
abbrev pub subscribed : List Change → Text → Text → Bool → Bool
subscribed [] u x b = b
subscribed (adds v s ∷ cs) u x b =
    subscribed cs u x (if same v u then (if same s x then true else b) else b)
subscribed (removes v s ∷ cs) u x b =
    subscribed cs u x (if same v u then (if same s x then false else b) else b)

changed-Shows :
    (cs : List Change) (m : ModForums) (db : Db)
    → Shows m db
    → Shows (changed cs m db).0 (changed cs m db).1
unfolding changed
changed-Shows [] m db h = h
changed-Shows (adds v s ∷ cs) m db h =
    changed-Shows cs (add_forum true v s m db).1 (add_forum true v s m db).2
      (add_forum-Shows m db h v s)
changed-Shows (removes v s ∷ cs) m db h =
    changed-Shows cs (remove_forum true v s m db).1 (remove_forum true v s m db).2
      (remove_forum-Shows m db h v s)

-- A process that loads the table and then adds and removes subscriptions in any order, the table
-- answering every write, shows the same lists as a process that starts then and loads the table.
pub load-changed :
    (cs : List Change) (db : Db) (u : Text)
    → get_forums u (load_mod_forums true (changed cs (load_mod_forums true db) db).1)
      ≡ get_forums u (changed cs (load_mod_forums true db) db).0
load-changed cs db u =
    load-Shows (changed cs (load_mod_forums true db) db).1 u
    ∙ sym (changed-Shows cs (load_mod_forums true db) db (load-Shows db) u)

module _ (u x : Text) (v s : Text) (up : Bool) (m : ModForums) (db : Db) where
  has_forum-add_forum : has_forum x (get_forums u (add_forum up v s m db).1) ≡ (
      if same v u
      then (if same s x then true else has_forum x (get_forums u m))
      else has_forum x (get_forums u m))
  unfolding add_forum
  has_forum-add_forum = ground (
    arith,
    get_forums-insert u v (sort_strings (get_forums v m ++ s ∷ [])) m,
    has_forum-added x s (get_forums v m),
  )

  has_forum-remove_forum : has_forum x (get_forums u (remove_forum up v s m db).1) ≡ (
      if same v u
      then (if same s x then false else has_forum x (get_forums u m))
      else has_forum x (get_forums u m))
  unfolding remove_forum
  has_forum-remove_forum = ground (
    arith,
    get_forums-put_rest u v (delete (λ t. t) s (get_forums v m)) m,
    has_forum-delete x s (get_forums v m),
  )

-- The lists of the cache are a set of pairs of a user and a slug: after any calls, a slug is in a
-- user's list if and only if the calls leave the pair in the set.
changed-subscribed :
    (cs : List Change) (m : ModForums) (db : Db) (u x : Text)
    → has_forum x (get_forums u (changed cs m db).0)
      ≡ subscribed cs u x (has_forum x (get_forums u m))
unfolding changed
changed-subscribed [] m db u x = refl
changed-subscribed (adds v s ∷ cs) m db u x =
    changed-subscribed cs (add_forum true v s m db).1 (add_forum true v s m db).2 u x
    ∙ ap (subscribed cs u x) (has_forum-add_forum u x v s true m db)
changed-subscribed (removes v s ∷ cs) m db u x =
    changed-subscribed cs (remove_forum true v s m db).1 (remove_forum true v s m db).2 u x
    ∙ ap (subscribed cs u x) (has_forum-remove_forum u x v s true m db)
