-- ===== src/Parsers.antt =====
-- scraper.go and forums.go: what the parsers of pages share. goquery is a parameter: its selections,
-- and what the code asks of them.
pub mod Texts
pub mod Threads
pub mod Forums
pub mod People
pub mod Mail
pub mod Mods
pub mod Posts
pub mod Forms
pub mod Numbers
pub mod ForumLaws
pub mod MailLaws
pub mod ModLaws
use mediavida.Base.{
  ℕ, Bool, true, false, Text, codes, Option, none, some, List, [], ◌∷◌, ◌++◌, ◌==◌, ◌||◌,
  if◌then◌else◌, is_empty,
}
use mediavida.Base.Strings.{has_prefix, trim_space}
use mediavida.Scraper.{ForumScraper}
use mediavida.Scraper.Recovery.{OpError, OpResult, op_ok, op_error, op_failed}

-- Selections of goquery, documents among them: Find, the nodes that Each goes over, First, Parent,
-- Closest, PrevFiltered, Text, Attr, HasClass and Html.
pub record Dom (S : Type 0) : Type 0 where
  pub find : Text → S → S
  pub nodes : S → List S
  pub first : S → S
  pub parent : S → S
  pub closest : Text → S → S
  pub prev_filtered : Text → S → S
  pub text : S → Text
  pub attr : Text → S → Option Text
  pub has_class : Text → S → Bool
  pub html : S → Text

-- The answer to a GET: its status, and the document that goquery makes of its body (`none`: the
-- read fails).
pub record Page (S : Type 0) : Type 0 where
  pub status : ℕ
  pub doc : Option S

-- What doGet answers at a URL; `none` if the request fails.
abbrev pub Web : Type 0 → Type 0
Web S = Text → Option (Page S)

-- What the parsers call of net/url: QueryEscape, and Get of a key in the query of a URL (`none`: the
-- URL does not parse; the empty text: no such key).
pub record Urls : Type 0 where
  pub query_escape : Text → Text
  pub query_get : Text → Text → Option Text

-- The results of `f` at the nodes for which it has one.
unfoldable pub gather : {S A : Type 0} → (S → Option A) → List S → List A
gather f [] = []
gather f (x ∷ xs) = let rest = gather f xs in elim (f x) [ none ↦ rest | some a ↦ a ∷ rest ]

unfoldable pub is_none : {S : Type 0} → List S → Bool
is_none [] = true
is_none (x ∷ xs) = false

-- mvAbsURL, which other parsers write out.
unfoldable pub mv_abs_url : Text → Text
mv_abs_url u =
    if is_empty u || has_prefix u (codes "http") then u else codes "https://www.mediavida.com" ++ u

-- The texts that the code compares with the empty one.
abbrev pub or_else : Text → Text → Text
or_else a b = if is_empty a then b else a

module _ {S : Type 0} (dom : Dom S) where
  -- AttrOr
  unfoldable pub attr_or : Text → Text → S → Text
  attr_or name default s = elim (dom.attr name s) [ none ↦ default | some v ↦ v ]

  -- strings.TrimSpace(s.Find(q).Text()), and the same of the first match.
  unfoldable pub text_at : Text → S → Text
  text_at q s = trim_space (dom.text (dom.find q s))

  unfoldable pub first_at : Text → S → S
  first_at q s = dom.first (dom.find q s)

  unfoldable pub first_text : Text → S → Text
  unfolding first_at
  first_text q s = trim_space (dom.text (first_at q s))

  -- Length() == 0
  unfoldable pub is_missing : S → Bool
  is_missing s = is_none (dom.nodes s)

module _ {S : Type 0} (web : Web S) where
  -- A GET whose answer is parsed whatever its status.
  unfoldable pub parsed : {A : Type 0} → Text → (S → A) → OpResult A
  parsed url parse = elim (web url) [
    | none ↦ op_error op_failed
    | some p ↦ elim p.doc [ none ↦ op_error op_failed | some d ↦ op_ok (parse d) ]
  ]

  -- A GET whose answer has to be a 200, with the error of the others.
  unfoldable pub parsed_200 : {A : Type 0} → OpError → Text → (S → OpResult A) → OpResult A
  parsed_200 other url parse = elim (web url) [
    | none ↦ op_error op_failed
    | some p ↦
        if p.status == 200
        then elim p.doc [ none ↦ op_error op_failed | some d ↦ parse d ]
        else op_error other
  ]

-- An operation behind `if !s.isLoggedIn()`. It leaves the scraper as it is; the cookies of the GETs
-- are those of the next operation.
unfoldable pub when_logged_in :
    {A : Type 0} → OpError → OpResult A → ForumScraper → OpResult A × ForumScraper
when_logged_in e r s = (if s.logged_in then r else op_error e, s)
