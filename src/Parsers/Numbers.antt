-- ===== src/Parsers/Numbers.antt =====
-- The numbers that extractParenCount and leadingInt read out of a text are those that the site has
-- printed into it.
use mediavida.Base.{
  ℕ, ◌+◌, ◌-◌, ◌*◌, ◌%◌, ◌^◌, ◌≤◌, ◌<◌, ◌≡◌, ◌≢◌, refl, sym, ap, ◌∙◌, true, false, Text, none, some,
  [], ◌∷◌, ◌++◌, arith, ◌==◌, All, Bool-cases, inl, inr,
}
use mediavida.Base.Int.{pos}
use mediavida.Base.Strings.{trim_space, trim_left, is_space}
use mediavida.Numbers.{atoi, itoa, is_digit, read_digits, read_digits-itoa, max_int}
use mediavida.Parsers.Texts.{
  opened, closed, or_zero, cut_last, extract_paren_count, leading_int, leading, to_int,
}
use mathlib.Core.Path.{subst}
use mathlib.Core.List.{reverse, reverse-cons, reverse-reverse}

abbrev Digits : Text → Type 0
Digits s = All (λ c. is_digit c ≡ true) s

read_digits-Digits : (s : Text) (n m : ℕ) → read_digits s n ≡ some m → Digits s
unfolding read_digits
read_digits-Digits [] n m h = tt
read_digits-Digits (c ∷ s) n m h = elim (Bool-cases (is_digit c)) [
  | inl e ↦ (e, read_digits-Digits s (n * 10 + (c - b'0')) m (ground (arith, h, e)))
  | inr e ↦ absurd (ground (arith, h, e))
]

itoa-Digits : (n : ℕ) → Digits (itoa n)
itoa-Digits n = read_digits-Digits (itoa n) 0 n (read_digits-itoa n)

itoa-ne-nil : (n : ℕ) → itoa n ≢ []
unfolding itoa read_digits
itoa-ne-nil n h = elim (Bool-cases (n == 0)) [
  | inl e ↦ ground (arith, e, h)
  | inr e ↦ absurd (ground (arith, e, sym (read_digits-itoa n) ∙ ap (λ s. read_digits s 0) h))
]

cut_last-none : (b : ℕ) (s : Text) → is_digit b ≡ false → Digits s → cut_last b s ≡ none
unfolding cut_last is_digit
cut_last-none b [] h d = refl
cut_last-none b (c ∷ s) h (d, ds) = ground (arith, h, d, cut_last-none b s h ds)

cut_last-append : (b : ℕ) (s t : Text) → cut_last b t ≡ none → cut_last b (s ++ b ∷ t) ≡ some (s, t)
unfolding cut_last
cut_last-append b [] t h = ground (arith, h)
cut_last-append b (c ∷ s) t h = ground (arith, cut_last-append b s t h)

atoi-Digits :
    (s : Text) (n : ℕ)
    → Digits s
    → s ≢ []
    → read_digits s 0 ≡ some n
    → n ≤ max_int
    → atoi s ≡ some (pos n)
unfolding atoi is_digit
atoi-Digits [] n d e h l = absurd (e refl)
atoi-Digits (c ∷ s) n (d, ds) e h l = ground (arith, d, h)

-- strconv.Atoi reads the print of a number back as it.
pub atoi-itoa : (n : ℕ) → n ≤ max_int → atoi (itoa n) ≡ some (pos n)
atoi-itoa n l = atoi-Digits (itoa n) n (itoa-Digits n) (itoa-ne-nil n) (read_digits-itoa n) l

All-snoc : (s : Text) (c : ℕ) → Digits s → is_digit c ≡ true → Digits (s ++ c ∷ [])
All-snoc [] c d e = (e, tt)
All-snoc (x ∷ s) c (d, ds) e = (d, All-snoc s c ds e)

reverse-Digits : (s : Text) → Digits s → Digits (reverse s)
reverse-Digits [] d = tt
reverse-Digits (c ∷ s) (d, ds) =
    subst Digits (sym (reverse-cons c s)) (All-snoc (reverse s) c (reverse-Digits s ds) d)

trim_left-Digits : (s : Text) → Digits s → trim_left s ≡ s
unfolding trim_left is_space is_digit
trim_left-Digits [] d = refl
trim_left-Digits (c ∷ s) (d, ds) = ground (arith, d)

trim_space-Digits : (s : Text) → Digits s → trim_space s ≡ s
unfolding trim_space
trim_space-Digits s d =
    rw (trim_left-Digits s d)
      (ap reverse (trim_left-Digits (reverse s) (reverse-Digits s d)) ∙ reverse-reverse s)

cut_last_snoc :
    (b c : ℕ) (s : Text) → cut_last b s ≡ none → (c == b) ≡ false → cut_last b (s ++ c ∷ []) ≡ none
unfolding cut_last
cut_last_snoc b c [] h e = ground (arith, e)
cut_last_snoc b c (x ∷ s) h e = ground (arith, h, e, cut_last_snoc b c s)

-- The count that a label names in brackets behind any text is read back as it.
pub extract_paren_count-itoa :
    (label : Text) (n : ℕ)
    → n ≤ max_int
    → extract_paren_count (label ++ b'(' ∷ (itoa n ++ b')' ∷ [])) ≡ pos n
unfolding extract_paren_count is_digit closed opened
extract_paren_count-itoa label n l =
    ap opened (
      cut_last-append b'(' label (itoa n ++ b')' ∷ [])
        (cut_last_snoc b'(' b')' (itoa n) (cut_last-none b'(' (itoa n) refl (itoa-Digits n)) refl))
    ∙ (ap closed (cut_last-append b')' (itoa n) [] (unfold cut_last in refl))
        ∙ (ap (λ t. or_zero (atoi t)) (trim_space-Digits (itoa n) (itoa-Digits n))
            ∙ ap or_zero (atoi-itoa n l)))

read_digits-le : (s : Text) (k m : ℕ) → read_digits s k ≡ some m → k ≤ m
unfolding read_digits
read_digits-le [] k m h = ground (arith, h)
read_digits-le (c ∷ s) k m h = ground (arith, h, read_digits-le s (k * 10 + (c - b'0')) m)

leading-read_digits :
    (s rest : Text) (k m : ℕ)
    → m < 2 ^ 63
    → read_digits s k ≡ some m
    → leading k (s ++ 32 ∷ rest) ≡ m
unfolding leading read_digits is_digit
leading-read_digits [] rest k m l h = ground (arith, h)
leading-read_digits (c ∷ s) rest k m l h = elim (Bool-cases (is_digit c)) [
  | inl e ↦
      (let r : read_digits s (k * 10 + (c - b'0')) ≡ some m = ground (arith, h, e) in
        let small : (k * 10 + (c - b'0')) % 2 ^ 64 ≡ k * 10 + (c - b'0') =
          omega (arith, l, read_digits-le s (k * 10 + (c - b'0')) m r) in
        rw e (
          subst (λ n. leading n (s ++ 32 ∷ rest) ≡ m) (sym small)
            (leading-read_digits s rest (k * 10 + (c - b'0')) m l r)))
  | inr e ↦ absurd (ground (arith, h, e))
]

-- The number in front of a label such as "4946 posts" is read back as it.
pub leading_int-itoa :
    (n : ℕ) (label : Text) → n ≤ max_int → leading_int (itoa n ++ 32 ∷ label) ≡ pos n
unfolding leading_int to_int
leading_int-itoa n label l =
    rw (leading-read_digits (itoa n) label 0 n (omega (arith, l)) (read_digits-itoa n))
      (ground (arith, l))
