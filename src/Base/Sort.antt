-- ===== src/Base/Sort.antt =====
-- `sort.Strings`: the order of Go strings, insertion sort, and that sorting forgets the order of its
-- input.
use mathlib.Core.Path.{◌≡◌, refl, ap}
use mathlib.Core.Bool.{Bool, true, false}
use mathlib.Core.List.{List, [], ◌∷◌, ◌++◌}
use mathlib.Core.List.{Perm, Permᴰ}
use mathlib.Core.List.Permᴰ.{nil, cons, swap, trans}
use mathlib.Core.Path.{ap₂, ◌∙◌}
use mathlib.Core.Logic.{∥∥₁_elim, inl, inr}
use mediavida.Base.Lists.{All}
use native.Mathlib.Omega.{arith}
use mediavida.Base.Tests.{ltb, ◌==◌, if◌then◌else◌, Bool-cases}
use mediavida.Base.Strings.{Text}

-- a < b on strings: bytewise, a proper prefix first.
unfoldable pub text_lt : Text → Text → Bool
text_lt [] [] = false
text_lt [] (d ∷ t) = true
text_lt (c ∷ s) [] = false
text_lt (c ∷ s) (d ∷ t) =
    let rest = text_lt s t in if ltb c d then true else if c == d then rest else false

pub text_lt_irrefl : (a : Text) → text_lt a a ≡ false
unfolding text_lt
text_lt_irrefl [] = refl
text_lt_irrefl (c ∷ s) = ground (arith, text_lt_irrefl s)

pub text_lt_trans : (a b c : Text) → text_lt a b ≡ true → text_lt b c ≡ true → text_lt a c ≡ true
unfolding text_lt
text_lt_trans [] [] c p q = ground arith
text_lt_trans [] (y ∷ b) [] p q = ground arith
text_lt_trans [] (y ∷ b) (z ∷ c) p q = refl
text_lt_trans (x ∷ a) [] c p q = ground arith
text_lt_trans (x ∷ a) (y ∷ b) [] p q = ground arith
text_lt_trans (x ∷ a) (y ∷ b) (z ∷ c) p q = ground (arith, text_lt_trans a b c)

pub text_lt_total : (a b : Text) → text_lt a b ≡ false → text_lt b a ≡ false → a ≡ b
unfolding text_lt
text_lt_total [] [] p q = refl
text_lt_total [] (y ∷ b) p q = ground arith
text_lt_total (x ∷ a) [] p q = ground arith
text_lt_total (x ∷ a) (y ∷ b) p q = ground (arith, text_lt_total a b)

pub text_lt_asym : (a b : Text) → text_lt a b ≡ true → text_lt b a ≡ false
text_lt_asym a b p = ground (arith, text_lt_trans a b a p, text_lt_irrefl a)

unfoldable pub place : Text → List Text → List Text
place a [] = a ∷ []
place a (b ∷ l) = if text_lt b a then b ∷ place a l else a ∷ b ∷ l

unfoldable pub sort_strings : List Text → List Text
sort_strings [] = []
sort_strings (a ∷ l) = place a (sort_strings l)

pub place_swap : (a b : Text) (l : List Text) → place a (place b l) ≡ place b (place a l)
unfolding place
place_swap a b [] = ground (arith, text_lt_asym a b, text_lt_asym b a, text_lt_total a b)
place_swap a b (c ∷ l) = ground (
  arith,
  place_swap a b l,
  text_lt_asym a b,
  text_lt_asym b a,
  text_lt_total a b,
  text_lt_trans a b c,
  text_lt_trans b a c,
  text_lt_trans c a b,
  text_lt_trans c b a,
  text_lt_total a c,
  text_lt_total b c,
  text_lt_trans a c b,
  text_lt_trans b c a,
  text_lt_asym a c,
  text_lt_asym b c,
)

sort-permᴰ : {xs ys : List Text} → Permᴰ xs ys → sort_strings xs ≡ sort_strings ys
unfolding sort_strings
sort-permᴰ nil = refl
sort-permᴰ (cons e p) = ap₂ place e (sort-permᴰ p)
sort-permᴰ (swap {a} {b} {a'} {b'} {l} e f) =
    ap₂ (λ s t. place s (place t (sort_strings l))) e f ∙ place_swap b' a' (sort_strings l)
sort-permᴰ (trans p q) = sort-permᴰ p ∙ sort-permᴰ q

texts_set : IsSet (List Text)
texts_set = hlevel

pub sort-perm : {xs ys : List Text} → Perm xs ys → sort_strings xs ≡ sort_strings ys
sort-perm p = ∥∥₁_elim p (texts_set _ _) sort-permᴰ

-- Nothing behind an element is below it.
abbrev pub IsSorted : List Text → Type 0
IsSorted [] = Unit {0}
IsSorted (a ∷ l) = All (λ b. text_lt b a ≡ false) l × IsSorted l

place-All :
    (c a : Text) (l : List Text)
    → text_lt a c ≡ false
    → All (λ b. text_lt b c ≡ false) l
    → All (λ b. text_lt b c ≡ false) (place a l)
unfolding place
place-All c a [] h s = (h, tt)
place-All c a (b ∷ l) h (k, s) = elim (Bool-cases (text_lt b a)) [
  | inl e ↦ rw e (k, place-All c a l h s)
  | inr e ↦ rw e (h, (k, s))
]

pub above :
    (a b : Text) (l : List Text)
    → text_lt b a ≡ false
    → All (λ c. text_lt c b ≡ false) l
    → All (λ c. text_lt c a ≡ false) l
above a b [] h s = tt
above a b (c ∷ l) h (k, s) = (
  ground (
    arith,
    h,
    k,
    text_lt_trans c a b,
    text_lt_asym c a,
    text_lt_total a b,
    text_lt_total a c,
    text_lt_asym a b,
  ),
  above a b l h s,
)

place-IsSorted : (a : Text) (l : List Text) → IsSorted l → IsSorted (place a l)
unfolding place
place-IsSorted a [] s = (tt, tt)
place-IsSorted a (b ∷ l) (h, s) = elim (Bool-cases (text_lt b a)) [
  | inl e ↦ rw e (place-All b a l (text_lt_asym b a e) h, place-IsSorted a l s)
  | inr e ↦ rw e ((e, above a b l e h), (h, s))
]

pub sort-IsSorted : (l : List Text) → IsSorted (sort_strings l)
unfolding sort_strings
sort-IsSorted [] = tt
sort-IsSorted (a ∷ l) = place-IsSorted a (sort_strings l) (sort-IsSorted l)

sort-place : (a : Text) (l : List Text) → sort_strings (place a l) ≡ place a (sort_strings l)
unfolding sort_strings place
sort-place a [] = refl
sort-place a (b ∷ l) = elim (Bool-cases (text_lt b a)) [
  | inl e ↦ rw e (ap (place b) (sort-place a l) ∙ place_swap b a (sort_strings l))
  | inr e ↦ rw e refl
]

pub sort_idem : (l : List Text) → sort_strings (sort_strings l) ≡ sort_strings l
unfolding sort_strings
sort_idem [] = refl
sort_idem (a ∷ l) = sort-place a (sort_strings l) ∙ ap (place a) (sort_idem l)

pub sort-append_one :
    (a : Text) (l : List Text) → sort_strings (l ++ a ∷ []) ≡ place a (sort_strings l)
unfolding sort_strings
sort-append_one a [] = refl
sort-append_one a (b ∷ l) = ap (place b) (sort-append_one a l) ∙ place_swap b a (sort_strings l)
