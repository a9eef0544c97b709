-- ===== src/Parsers/Texts.antt =====
-- scraper.go: the functions of texts that the parsers call.
use mediavida.Base.{
  ℕ, ◌+◌, ◌-◌, ◌*◌, ◌%◌, ◌^◌, Bool, true, false, Text, codes, Option, none, some, List, [], ◌∷◌,
  ◌++◌, ◌||◌, ◌&&◌, not, if◌then◌else◌, ltb, ◌==◌, is_empty,
}
use mediavida.Base.Int.{ℤ, pos, negsuc}
use mediavida.Base.Strings.{contains, has_prefix, cut_prefix, trim_space, is_space}
use mediavida.Numbers.{atoi, is_digit}
use mediavida.Parsers.{Urls}
use mathlib.Core.List.{reverse}

-- strings.TrimPrefix and strings.HasSuffix.
unfoldable pub trim_prefix : Text → Text → Text
trim_prefix s p = elim (cut_prefix p s) [ none ↦ s | some rest ↦ rest ]

unfoldable pub has_suffix : Text → Text → Bool
has_suffix s p = has_prefix (reverse s) (reverse p)

drop_byte : ℕ → Text → Text
drop_byte b [] = []
drop_byte b (c ∷ s) = let rest = drop_byte b s in if c == b then rest else c ∷ s

-- strings.Trim with a cutset of one byte.
unfoldable pub trim_byte : ℕ → Text → Text
unfolding drop_byte
trim_byte b s = reverse (drop_byte b (reverse (drop_byte b s)))

-- The text cut at its last byte `b`.
unfoldable pub cut_last : ℕ → Text → Option (Text × Text)
cut_last b [] = none
cut_last b (c ∷ s) = elim (cut_last b s) [
  | some p ↦ some (c ∷ p.0, p.1)
  | none ↦ if c == b then some ([], s) else none
]

-- The rest of the text from the last place where it has `p`.
unfoldable pub from_last : Text → Text → Option Text
from_last p [] = none
from_last p (c ∷ s) = elim (from_last p s) [
  | some rest ↦ some rest
  | none ↦ if has_prefix (c ∷ s) p then some (c ∷ s) else none
]

-- The pieces between white space, empty ones among them: the first, and the others.
space_pieces : Text → Text × List Text
space_pieces [] = ([], [])
space_pieces (c ∷ s) =
    let rest = space_pieces s in if is_space c then ([], rest.0 ∷ rest.1) else (c ∷ rest.0, rest.1)

filled : List Text → List Text
filled [] = []
filled (t ∷ ts) = let rest = filled ts in if is_empty t then rest else t ∷ rest

-- strings.Fields
unfoldable pub fields : Text → List Text
unfolding space_pieces filled
fields s = filled ((space_pieces s).0 ∷ (space_pieces s).1)

-- strings.Join
unfoldable pub join : Text → List Text → Text
join sep [] = []
join sep (t ∷ []) = t
join sep (t ∷ u ∷ ts) = t ++ (sep ++ join sep (u ∷ ts))

-- The int of 64 bits with these bits.
unfoldable pub to_int : ℕ → ℤ
to_int n = if ltb n (2 ^ 63) then pos n else negsuc (2 ^ 64 - n - 1)

unfoldable pub leading : ℕ → Text → ℕ
leading n [] = n
leading n (c ∷ s) =
    let rest = leading ((n * 10 + (c - b'0')) % 2 ^ 64) s in if is_digit c then rest else n

-- leadingInt
unfoldable pub leading_int : Text → ℤ
leading_int s = to_int (leading 0 s)

unfoldable pub is_blank : ℕ → Bool
is_blank c = c == 32 || c == 9 || c == 10 || c == 13

-- The loop of collapseWhitespace: `blank` says whether the byte before was white.
unfoldable pub collapse : Bool → Text → Text
collapse blank [] = []
collapse blank (c ∷ s) =
    let inside = collapse true s in
    let beyond = collapse false s in
    if is_blank c then (if blank then inside else 32 ∷ inside) else c ∷ beyond

unfoldable pub collapse_whitespace : Text → Text
collapse_whitespace s = trim_space (collapse false s)

abbrev pub or_zero : Option ℤ → ℤ
or_zero none = pos 0
or_zero (some n) = n

unfoldable pub closed : Option (Text × Text) → ℤ
closed none = pos 0
closed (some p) = or_zero (atoi (trim_space p.0))

unfoldable pub opened : Option (Text × Text) → ℤ
opened none = pos 0
opened (some p) = closed (cut_last b')' p.1)

-- extractParenCount: the last opening bracket, and the last closing one behind it.
unfoldable pub extract_paren_count : Text → ℤ
extract_paren_count s = opened (cut_last b'(' s)

module _ (urls : Urls) where
  -- extractFid
  unfoldable pub extract_fid : Text → Text
  extract_fid href = elim (urls.query_get href (codes "fid")) [ none ↦ [] | some fid ↦ fid ]

  uddg : Text → Text
  uddg url = elim (urls.query_get url (codes "uddg")) [ none ↦ [] | some u ↦ u ]

  with_scheme : Text → Text
  with_scheme raw = if has_prefix raw (codes "//") then codes "https:" ++ raw else raw

  -- extractDDGURL
  unfoldable pub extract_ddg_url : Text → Text
  unfolding uddg with_scheme
  extract_ddg_url raw =
      if contains raw (codes "uddg=")
      then if is_empty (uddg raw)
        then if has_prefix raw (codes "//") && not (is_empty (uddg (codes "https:" ++ raw)))
          then uddg (codes "https:" ++ raw)
          else with_scheme raw
        else uddg raw
      else with_scheme raw
