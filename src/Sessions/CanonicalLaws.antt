-- ===== src/Sessions/CanonicalLaws.antt =====
-- CanonicalForUser picks the best session of an account, in whatever order the map is walked.
use mathlib.Core.Path.{ap₂, subst}
use mathlib.Core.List.{Perm, Permᴰ}
use mathlib.Core.List.Permᴰ.{nil, cons, swap, trans}
use mathlib.Core.Logic.{∥∥₁_elim}
use mediavida.Base.{
  ◌≡◌, refl, sym, ap, ◌∙◌, ◌&&◌, Bool, true, false, Text, Option, none, some, [], ◌∷◌, ◌⊎◌, inl,
  inr, arith, if◌then◌else◌, Bool-cases,
}
use mediavida.Base.Sort.{text_lt_irrefl, text_lt_trans, text_lt_total}
use mediavida.Base.Maps.{Map}
use mediavida.Sessions.{Session}
use mediavida.Sessions.Canonical.{serves, replaces, better, canonical_from, canonical_for_user}

module _ (is_api : Option (Text → Bool)) where
  replaces_irrefl : (a : Text) → replaces is_api a a ≡ false
  unfolding replaces
  replaces_irrefl a = ground (arith, text_lt_irrefl a)

  replaces_total : (a b : Text) → replaces is_api a b ≡ false → replaces is_api b a ≡ false → a ≡ b
  unfolding replaces
  replaces_total a b p q = ground (arith, text_lt_total a b)

  replaces_trans :
      (a b c : Text)
      → replaces is_api a b ≡ true
      → replaces is_api b c ≡ true
      → replaces is_api a c ≡ true
  unfolding replaces
  replaces_trans a b c p q = ground (arith, text_lt_trans a b c)

  better_comm :
      (a b : Text) (f : Option Text)
      → better is_api a (better is_api b f) ≡ better is_api b (better is_api a f)
  unfolding better
  better_comm a b none = ground (arith, replaces_irrefl a, replaces_trans a b a, replaces_total a b)
  better_comm a b (some c) = ground (
    arith,
    replaces_irrefl a,
    replaces_irrefl b,
    replaces_irrefl c,
    replaces_trans a b a,
    replaces_total a b,
    replaces_trans a b c,
    replaces_trans b a c,
    replaces_trans a c b,
    replaces_trans b c a,
    replaces_total a c,
    replaces_total b c,
    replaces_trans c a b,
    replaces_trans c b a,
  )

  module _ (user : Text) where
    step : Text × Option Session → Option Text → Option Text
    step e f = if serves user e.1 then better is_api e.0 f else f

    step_comm :
        (d e : Text × Option Session) (f : Option Text) → step d (step e f) ≡ step e (step d f)
    unfolding step
    step_comm d e f = ground (arith, better_comm d.0 e.0 f)

    canonical_from-step :
        (d : Text × Option Session) (m : Map Text (Option Session)) (f : Option Text)
        → canonical_from is_api user (d ∷ m) f ≡ canonical_from is_api user m (step d f)
    unfolding canonical_from step
    canonical_from-step d m f = refl

    canonical_from-permᴰ :
        {m n : Map Text (Option Session)}
        → Permᴰ m n
        → (f : Option Text) → canonical_from is_api user m f ≡ canonical_from is_api user n f
    unfolding canonical_from step serves
    canonical_from-permᴰ nil f = refl
    canonical_from-permᴰ (cons {a} {b} {l₁} {l₂} e p) f =
        canonical_from-step a l₁ f
        ∙ (ap (λ d. canonical_from is_api user l₁ (step d f)) e
            ∙ (canonical_from-permᴰ p (step b f) ∙ sym (canonical_from-step b l₂ f)))
    canonical_from-permᴰ (swap {a} {b} {a'} {b'} {l} d e) f =
        ap₂ (λ x y. canonical_from is_api user l (step y (step x f))) d e
        ∙ ap (canonical_from is_api user l) (step_comm a' b' f)
    canonical_from-permᴰ (trans p q) f = canonical_from-permᴰ p f ∙ canonical_from-permᴰ q f

option_text_set : IsSet (Option Text)
option_text_set = hlevel

-- The canonical session does not depend on the order in which the map is walked, which Go leaves
-- open.
pub canonical_for_user-perm :
    (user : Text) (is_api : Option (Text → Bool)) {m n : Map Text (Option Session)}
    → Perm m n
    → canonical_for_user user is_api m ≡ canonical_for_user user is_api n
unfolding canonical_for_user
canonical_for_user-perm user is_api p =
    ∥∥₁_elim p (option_text_set _ _) (λ q. canonical_from-permᴰ is_api user q none)

-- The map has an entry of this ID that serves the account.
abbrev pub HasServing : Text → Text → Map Text (Option Session) → Type 0
HasServing user id [] = ⊥
HasServing user id ((i, p) ∷ m) = ((i ≡ id) × (serves user p ≡ true)) ⊎ HasServing user id m

-- No entry that serves the account is preferred to this ID.
abbrev pub NoneBetter : Option (Text → Bool) → Text → Text → Map Text (Option Session) → Type 0
NoneBetter is_api user id [] = Unit {0}
NoneBetter is_api user id ((i, p) ∷ m) =
    (serves user p ≡ true → replaces is_api i id ≡ false) × NoneBetter is_api user id m

module _ (is_api : Option (Text → Bool)) (user : Text) where
  -- The canonical ID behind the loop, from one that is found already.
  winner : Map Text (Option Session) → Text → Text
  winner [] f = f
  winner ((i, p) ∷ m) f = winner m (if serves user p && replaces is_api i f then i else f)

  canonical_from-winner :
      (m : Map Text (Option Session)) (f : Text)
      → canonical_from is_api user m (some f) ≡ some (winner m f)
  unfolding canonical_from better winner
  canonical_from-winner [] f = refl
  canonical_from-winner ((i, p) ∷ m) f =
      ground (arith, canonical_from-winner m f, canonical_from-winner m i)

  winner_taken :
      (i : Text) (p : Option Session) (m : Map Text (Option Session)) (f : Text)
      → (serves user p && replaces is_api i f) ≡ true
      → winner ((i, p) ∷ m) f ≡ winner m i
  unfolding winner
  winner_taken i p m f e = rw e

  winner_kept :
      (i : Text) (p : Option Session) (m : Map Text (Option Session)) (f : Text)
      → (serves user p && replaces is_api i f) ≡ false
      → winner ((i, p) ∷ m) f ≡ winner m f
  unfolding winner
  winner_kept i p m f e = rw e

  winner_origin :
      (m : Map Text (Option Session)) (f : Text) → (f ≡ winner m f) ⊎ HasServing user (winner m f) m
  winner_origin [] f = inl (unfold winner in refl)
  winner_origin ((i, p) ∷ m) f = elim (Bool-cases (serves user p && replaces is_api i f)) [
    | inl e ↦
        subst (λ w. (f ≡ w) ⊎ HasServing user w ((i, p) ∷ m)) (sym (winner_taken i p m f e))
          (elim (winner_origin m i) [ inl o ↦ inr (inl (o, ground arith)) | inr h ↦ inr (inr h) ])
    | inr e ↦
        subst (λ w. (f ≡ w) ⊎ HasServing user w ((i, p) ∷ m)) (sym (winner_kept i p m f e))
          (elim (winner_origin m f) [ inl o ↦ inl o | inr h ↦ inr (inr h) ])
  ]

  winner-le : (m : Map Text (Option Session)) (f : Text) → replaces is_api f (winner m f) ≡ false
  unfolding winner
  winner-le [] f = replaces_irrefl is_api f
  winner-le ((i, p) ∷ m) f =
      ground (arith, winner-le m i, winner-le m f, replaces_trans is_api i f (winner m i))

  winner-NoneBetter :
      (m : Map Text (Option Session)) (f : Text) → NoneBetter is_api user (winner m f) m
  winner-NoneBetter [] f = tt
  winner-NoneBetter ((i, p) ∷ m) f = elim (Bool-cases (serves user p && replaces is_api i f)) [
    | inl e ↦
        subst (λ w. NoneBetter is_api user w ((i, p) ∷ m)) (sym (winner_taken i p m f e))
          (λ _. winner-le m i, winner-NoneBetter m i)
    | inr e ↦
        subst (λ w. NoneBetter is_api user w ((i, p) ∷ m)) (sym (winner_kept i p m f e))
          (
            λ s. ground (
              arith,
              winner-le m f,
              replaces_trans is_api i (winner m f) f,
              replaces_total is_api f (winner m f),
            ),
            winner-NoneBetter m f,
          )
  ]

  canonical_from-none :
      (m : Map Text (Option Session))
      → canonical_from is_api user m none ≡ none
      → (id : Text) → ¬ HasServing user id m
  unfolding canonical_from better
  canonical_from-none [] h id s = s
  canonical_from-none ((i, p) ∷ m) h id (inl (e, s)) = ground (arith, canonical_from-winner m i)
  canonical_from-none ((i, p) ∷ m) h id (inr s) = elim (Bool-cases (serves user p)) [
    | inl e ↦ ground (arith, canonical_from-winner m i)
    | inr e ↦ canonical_from-none m (ground arith) id s
  ]

  canonical_from-some :
      (m : Map Text (Option Session)) (id : Text)
      → canonical_from is_api user m none ≡ some id
      → HasServing user id m × NoneBetter is_api user id m
  unfolding canonical_from better
  canonical_from-some [] id h = cc
  canonical_from-some ((i, p) ∷ m) id h = elim (Bool-cases (serves user p)) [
    | inl e ↦
        (let w : winner m i ≡ id = ground (arith, canonical_from-winner m i) in
          subst (λ w. HasServing user w ((i, p) ∷ m) × NoneBetter is_api user w ((i, p) ∷ m)) w
            (
              elim (winner_origin m i) [ inl o ↦ inl (o, e) | inr s ↦ inr s ],
              ((λ _. winner-le m i), winner-NoneBetter m i),
            ))
    | inr e ↦ (let (s, b) = canonical_from-some m id (ground arith) in (inr s, ((λ t. cc), b)))
  ]

-- CanonicalForUser answers with an ID whose session serves the account and to which no other such
-- session is preferred; without an answer no session serves the account.
pub canonical_for_user-best :
    (user : Text) (is_api : Option (Text → Bool)) (m : Map Text (Option Session))
    → ((id : Text)
        → canonical_for_user user is_api m ≡ some id
        → HasServing user id m × NoneBetter is_api user id m)
      × (canonical_for_user user is_api m ≡ none → (id : Text) → ¬ HasServing user id m)
unfolding canonical_for_user
canonical_for_user-best user is_api m =
    (canonical_from-some is_api user m, canonical_from-none is_api user m)
