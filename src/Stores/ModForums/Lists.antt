-- ===== src/Stores/ModForums/Lists.antt =====
-- mod_forums.go: the lists of the cache and the rows of the table, and how a change of one row moves
-- each of them.
use mathlib.Core.List.{append-nil, append_assoc}
use mediavida.Base.{
  ◌≡◌, refl, sym, ap, ◌∙◌, true, false, Text, List, [], ◌∷◌, ◌++◌, arith, if◌then◌else◌, same,
  text_key, Bool-cases, inl, inr, All,
}
use mediavida.Base.Maps.{lookup, insert, lookup-insert, lookup-erase}
use mediavida.Base.Rows.{delete, insert_ignore}
use mediavida.Base.Sort.{text_lt, place, sort_strings, IsSorted, above, sort-IsSorted}
use mediavida.Store.Tokens.{pair_key}
use mediavida.Store.Forums.{group_slugs}
use mediavida.Stores.ModForums.{ModForums, get_forums, sorted_lists, has_forum, put_rest}

-- The slugs of a user in the rows of the table, in their order.
unfoldable pub slugs : Text → List (Text × Text) → List Text
slugs u [] = []
slugs u ((v, slug) ∷ rows) = let rest = slugs u rows in if same v u then slug ∷ rest else rest

pub slugs-insert_ignore :
    (u v slug : Text) (rows : List (Text × Text))
    → slugs u (insert_ignore (λ r. r) (v, slug) rows) ≡ (
        if same v u
        then (if has_forum slug (slugs u rows) then slugs u rows else slugs u rows ++ slug ∷ [])
        else slugs u rows)
unfolding slugs insert_ignore has_forum
slugs-insert_ignore u v slug [] = ground arith
slugs-insert_ignore u v slug ((w, s) ∷ rows) = ground (arith, slugs-insert_ignore u v slug rows)

pub slugs-delete :
    (u v slug : Text) (rows : List (Text × Text))
    → slugs u (delete (λ r. r) (v, slug) rows)
      ≡ (if same v u then delete (λ s. s) slug (slugs u rows) else slugs u rows)
unfolding slugs delete
slugs-delete u v slug [] = ground arith
slugs-delete u v slug ((w, s) ∷ rows) = ground (arith, slugs-delete u v slug rows)

has_forum-place :
    (s a : Text) (l : List Text)
    → has_forum s (place a l) ≡ (if same a s then true else has_forum s l)
unfolding has_forum place
has_forum-place s a [] = ground arith
has_forum-place s a (b ∷ l) = ground (arith, has_forum-place s a l)

pub has_forum-sort : (s : Text) (l : List Text) → has_forum s (sort_strings l) ≡ has_forum s l
unfolding has_forum sort_strings
has_forum-sort s [] = refl
has_forum-sort s (a ∷ l) = ground (arith, has_forum-place s a (sort_strings l), has_forum-sort s l)

place-front : (a : Text) (l : List Text) → All (λ b. text_lt b a ≡ false) l → place a l ≡ a ∷ l
unfolding place
place-front a [] h = refl
place-front a (b ∷ l) (h, hs) = rw h refl

delete-All :
    (s a : Text) (l : List Text)
    → All (λ b. text_lt b a ≡ false) l
    → All (λ b. text_lt b a ≡ false) (delete (λ t. t) s l)
unfolding delete
delete-All s a [] h = tt
delete-All s a (b ∷ l) (h, hs) = elim (Bool-cases (same b s)) [
  | inl e ↦ rw e (delete-All s a l hs)
  | inr e ↦ rw e (h, delete-All s a l hs)
]

delete-place :
    (s a : Text) (l : List Text)
    → IsSorted l
    → delete (λ t. t) s (place a l)
      ≡ (if same a s then delete (λ t. t) s l else place a (delete (λ t. t) s l))
unfolding delete place
delete-place s a [] h = ground arith
delete-place s a (b ∷ l) (h, hs) = elim (Bool-cases (text_lt b a)) [
  | inl e ↦ ground (arith, e, delete-place s a l hs)
  | inr e ↦
      ground (arith, e, place-front a (delete (λ t. t) s l) (delete-All s a l (above a b l e h)))
]

pub delete-sort :
    (s : Text) (l : List Text)
    → delete (λ t. t) s (sort_strings l) ≡ sort_strings (delete (λ t. t) s l)
unfolding delete sort_strings
delete-sort s [] = refl
delete-sort s (a ∷ l) =
    ground (arith, delete-place s a (sort_strings l) (sort-IsSorted l), delete-sort s l)

pub get_forums-insert :
    (u v : Text) (l : List Text) (m : ModForums)
    → get_forums u (insert v l m) ≡ (if same v u then l else get_forums u m)
unfolding get_forums
get_forums-insert u v l m = ground (arith, lookup-insert v u l m)

pub get_forums-put_rest :
    (u v : Text) (l : List Text) (m : ModForums)
    → get_forums u (put_rest v l m) ≡ (if same v u then l else get_forums u m)
unfolding get_forums put_rest
get_forums-put_rest u v [] m = ground (arith, lookup-erase v u m)
get_forums-put_rest u v (s ∷ l) m = ground (arith, lookup-insert v u (s ∷ l) m)

pub get_forums-sorted_lists :
    (u : Text) (m : ModForums) → get_forums u (sorted_lists m) ≡ sort_strings (get_forums u m)
unfolding get_forums sorted_lists lookup sort_strings
get_forums-sorted_lists u [] = refl
get_forums-sorted_lists u ((v, l) ∷ m) = ground (arith, get_forums-sorted_lists u m)

appended :
    (u v s : Text) (rows : List (Text × Text)) (out : ModForums)
    → (if same v u then get_forums v out ++ s ∷ [] else get_forums u out) ++ slugs u rows
      ≡ get_forums u out ++ (if same v u then s ∷ slugs u rows else slugs u rows)
appended u v s rows out = ground (arith, append_assoc (get_forums u out) (s ∷ []) (slugs u rows))

pub get_forums-group_slugs :
    (u : Text) (rows : List (Text × Text)) (out : ModForums)
    → get_forums u (group_slugs rows out) ≡ get_forums u out ++ slugs u rows
unfolding group_slugs slugs lookup get_forums
get_forums-group_slugs u [] out = sym (append-nil (get_forums u out))
get_forums-group_slugs u ((v, s) ∷ rows) out =
    get_forums-group_slugs u rows (insert v (get_forums v out ++ s ∷ []) out)
    ∙ ap (λ l. l ++ slugs u rows) (get_forums-insert u v (get_forums v out ++ s ∷ []) out)
    ∙ appended u v s rows out

has_forum-append :
    (x s : Text) (l : List Text)
    → has_forum x (l ++ s ∷ []) ≡ (if same s x then true else has_forum x l)
unfolding has_forum
has_forum-append x s [] = ground arith
has_forum-append x s (a ∷ l) = ground (arith, has_forum-append x s l)

pub has_forum-delete :
    (x s : Text) (l : List Text)
    → has_forum x (delete (λ t. t) s l) ≡ (if same s x then false else has_forum x l)
unfolding has_forum delete
has_forum-delete x s [] = ground arith
has_forum-delete x s (a ∷ l) = ground (arith, has_forum-delete x s l)

pub has_forum-added :
    (x s : Text) (l : List Text)
    → has_forum x (sort_strings (l ++ s ∷ [])) ≡ (if same s x then true else has_forum x l)
has_forum-added x s l = has_forum-sort x (l ++ s ∷ []) ∙ has_forum-append x s l
