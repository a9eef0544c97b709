-- ===== src/Activity/Keys.antt =====
-- activity.go: what threadKey leaves out of a URL.
use mediavida.Base.{ℕ, ◌≡◌, refl, ap, Text, [], ◌∷◌, ◌++◌, arith}
use mediavida.Activity.{cut_at, trim_right, stripped, key_or, last_key, segments, thread_key}
use mathlib.Core.List.{reverse}

cut_at-anchor : (u x : Text) → cut_at b'#' (u ++ (b'#' ∷ x)) ≡ cut_at b'#' u
unfolding cut_at
cut_at-anchor [] x = ground arith
cut_at-anchor (c ∷ u) x = ground (arith, cut_at-anchor u x)

cut_at-query :
    (u x : Text) → cut_at b'?' (cut_at b'#' (u ++ (b'?' ∷ x))) ≡ cut_at b'?' (cut_at b'#' u)
unfolding cut_at
cut_at-query [] x = ground arith
cut_at-query (c ∷ u) x = ground (arith, cut_at-query u x)

-- The key of a URL that is stripped.
key_of : Text → Text
key_of v = key_or v (last_key (reverse (segments v [])))

thread_key-key_of : (c : ℕ) (u : Text) → thread_key (c ∷ u) ≡ key_of (stripped (c ∷ u))
unfolding thread_key key_of
thread_key-key_of c u = refl

-- A URL that is not empty has the same thread key with an anchor, or with a query, behind it.
pub thread_key-suffix :
    (c : ℕ) (u x : Text)
    → (thread_key ((c ∷ u) ++ (b'#' ∷ x)) ≡ thread_key (c ∷ u))
      × (thread_key ((c ∷ u) ++ (b'?' ∷ x)) ≡ thread_key (c ∷ u))
unfolding stripped
thread_key-suffix c u x = (
  ground (
    arith,
    thread_key-key_of c (u ++ (b'#' ∷ x)),
    thread_key-key_of c u,
    ap (λ v. key_of (trim_right (cut_at b'?' v))) (cut_at-anchor (c ∷ u) x),
  ),
  ground (
    arith,
    thread_key-key_of c (u ++ (b'?' ∷ x)),
    thread_key-key_of c u,
    ap (λ v. key_of (trim_right v)) (cut_at-query (c ∷ u) x),
  ),
)
