-- ===== src/Poller/Favorites.antt =====
-- bubbles.go: enrichFavorites.
use mathlib.Core.Path.{subst}
use mediavida.Base.{
  ℕ, ◌≡◌, refl, sym, Bool, true, false, Text, Option, none, some, List, [], ◌∷◌, arith,
  if◌then◌else◌, ltb, not, ◌||◌, same, text_key, is_empty,
}
use mediavida.Base.Maps.{Map, lookup, insert, lookup-insert, lookup-insert_self}
use mediavida.Activity.{ThreadActivity, thread_key, parse_unread}
use mediavida.Poller.{PollState}

-- The fields of FavoriteThread that are read.
pub record Favorite : Type 0 where
  pub title : Text
  pub url : Text
  pub unread_count : Text

-- Whether the row is not skipped.
unfoldable pub has_activity : Favorite → Bool
has_activity f = not (is_empty f.url || (is_empty f.title || is_empty f.unread_count))

-- !seen || cnt > prevCnt
unfoldable pub is_news : Text → ℕ → Map Text ℕ → Bool
is_news key count prev = elim (lookup key prev) [
  | none ↦ true
  | some prev_count ↦ ltb prev_count count
]

activity_of : Favorite → ThreadActivity
activity_of f = record {
  title = f.title;
  url = f.url;
  key = thread_key f.url;
  count = parse_unread f.unread_count;
}

-- The rows of the page against the counts of the last poll: what is new, and the counts to keep.
unfoldable pub compare_page :
    Map Text ℕ → List Favorite → Map Text ℕ → List ThreadActivity × Map Text ℕ
unfolding activity_of
compare_page prev [] seen = ([], seen)
compare_page prev (f ∷ fs) seen =
    let seen' =
      if has_activity f
      then insert (thread_key f.url) (parse_unread f.unread_count) seen
      else seen in
    let (out, last) = compare_page prev fs seen' in
    if has_activity f
    then (if is_news (thread_key f.url) (parse_unread f.unread_count) prev
        then (activity_of f ∷ out, last)
        else (out, last))
    else (out, last)

unfoldable pub prev_counts : Text → PollState → Map Text ℕ
prev_counts id st = elim (lookup id st.prev_fav) [ none ↦ [] | some m ↦ m ]

-- `none`: the page was not fetched.
unfoldable pub enrich_favorites :
    Option (List Favorite) → Text → PollState → List ThreadActivity × PollState
enrich_favorites none id st = ([], st)
enrich_favorites (some favs) id st =
    let (out, last) = compare_page (prev_counts id st) favs [] in
    (out, record st { prev_fav = insert id last st.prev_fav })

-- The rows with activity are of different threads.
unfoldable pub no_row_of : Text → List Favorite → Bool
no_row_of key [] = true
no_row_of key (f ∷ fs) =
    let rest = no_row_of key fs in
    if has_activity f then (if same (thread_key f.url) key then false else rest) else rest

unfoldable pub distinct_threads : List Favorite → Bool
distinct_threads [] = true
distinct_threads (f ∷ fs) =
    let rest = distinct_threads fs in
    if has_activity f then (if no_row_of (thread_key f.url) fs then rest else false) else rest

-- A key that no row has keeps its count.
compare_page-keeps :
    (prev : Map Text ℕ) (fs : List Favorite) (seen : Map Text ℕ) (key : Text)
    → no_row_of key fs ≡ true
    → lookup key (compare_page prev fs seen).1 ≡ lookup key seen
unfolding compare_page no_row_of
compare_page-keeps prev [] seen key h = refl
compare_page-keeps prev (f ∷ fs) seen key h = ground (
  arith,
  h,
  compare_page-keeps prev fs
      (if has_activity f
        then insert (thread_key f.url) (parse_unread f.unread_count) seen
        else seen)
      key,
  lookup-insert (thread_key f.url) key (parse_unread f.unread_count) seen,
)

-- The counts that a row with activity leaves behind.
abbrev noted : Favorite → Map Text ℕ → Map Text ℕ
noted f seen =
    if has_activity f then insert (thread_key f.url) (parse_unread f.unread_count) seen else seen

compare_page-tail :
    (prev : Map Text ℕ) (f : Favorite) (fs : List Favorite) (seen : Map Text ℕ)
    → (compare_page prev (f ∷ fs) seen).1 ≡ (compare_page prev fs (noted f seen)).1
unfolding compare_page
compare_page-tail prev f fs seen = ground arith

abbrev Known : Map Text ℕ → List Favorite → Type 0
Known last [] = Unit
Known last (f ∷ fs) =
    (has_activity f ≡ true → lookup (thread_key f.url) last ≡ some (parse_unread f.unread_count))
    × Known last fs

compare_page-Known :
    (prev : Map Text ℕ) (fs : List Favorite) (seen : Map Text ℕ)
    → distinct_threads fs ≡ true
    → Known (compare_page prev fs seen).1 fs
unfolding distinct_threads
compare_page-Known prev [] seen d = tt
compare_page-Known prev (f ∷ fs) seen d =
    subst (λ m. Known m (f ∷ fs)) (sym (compare_page-tail prev f fs seen))
      (
        (λ h. ground (
          arith,
          d,
          h,
          compare_page-keeps prev fs (noted f seen) (thread_key f.url),
          lookup-insert_self (thread_key f.url) (parse_unread f.unread_count) seen,
        )),
        compare_page-Known prev fs (noted f seen) (ground (arith, d)),
      )

compare_page-quiet :
    (last : Map Text ℕ) (fs : List Favorite) (seen : Map Text ℕ)
    → Known last fs
    → (compare_page last fs seen).0 ≡ []
unfolding compare_page is_news
compare_page-quiet last [] seen k = refl
compare_page-quiet last (f ∷ fs) seen k =
    ground (arith, k.0, compare_page-quiet last fs (noted f seen) k.1)

-- A favorites page whose rows with activity are of different threads, read twice in a row, names no
-- thread the second time.
pub enrich_favorites-again :
    (favs : List Favorite) (id : Text) (st : PollState)
    → distinct_threads favs ≡ true
    → (enrich_favorites (some favs) id (enrich_favorites (some favs) id st).1).0 ≡ []
unfolding enrich_favorites prev_counts
enrich_favorites-again favs id st d = ground (
  arith,
  lookup-insert_self id (compare_page (prev_counts id st) favs []).1 st.prev_fav,
  compare_page-quiet (compare_page (prev_counts id st) favs []).1 favs []
      (compare_page-Known (prev_counts id st) favs [] d),
)
