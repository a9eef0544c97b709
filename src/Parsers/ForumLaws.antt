-- ===== src/Parsers/ForumLaws.antt =====
-- What the pager of a subforum and the feed of the front page hold.
use mathlib.Core.Path.{subst}
use mediavida.Base.{
  ◌≡◌, refl, ap, sym, ◌∙◌, ◌⊎◌, inl, inr, Bool, true, false, Text, codes, Option, none, some, List,
  [], ◌∷◌, ◌++◌, ◌||◌, arith, All, All-map, Bool-cases, if◌then◌else◌, is_empty, same, text_key,
}
use mediavida.Base.Int.{ℤ, pos, ltb_ℤ, ◌≤ℤ◌}
use mediavida.Scraper.Pages.{PortadaItem}
use mediavida.Parsers.{Dom}
use mediavida.Parsers.Forums.{
  page_link, higher, highest_page, forum_threads, links, is_listed, portada_item, portada_from,
}

-- Some link of the pager names the page.
abbrev pub Names : Text → ℤ → List Text → Type 0
Names prefix n [] = ⊥
Names prefix n (l ∷ ls) = (page_link prefix l ≡ some n) ⊎ Names prefix n ls

-- `total` is at least what the link names.
abbrev pub Covers : Text → ℤ → Text → Type 0
Covers prefix total l = (n : ℤ) → page_link prefix l ≡ some n → n ≤ℤ total

higher-le : (o : Option ℤ) (total : ℤ) → total ≤ℤ higher o total
higher-le none total = ground arith
higher-le (some n) total = ground arith

higher-ge : (o : Option ℤ) (total n : ℤ) → o ≡ some n → n ≤ℤ higher o total
higher-ge none total n e = absurd (ground (arith, e))
higher-ge (some m) total n e = ground (arith, e)

higher-cases : (o : Option ℤ) (total : ℤ) → (higher o total ≡ total) ⊎ (o ≡ some (higher o total))
higher-cases none total = inl refl
higher-cases (some n) total = elim (Bool-cases (ltb_ℤ total n)) [
  | inl e ↦ inr (ground (arith, e))
  | inr e ↦ inl (ground (arith, e))
]

module _ (prefix : Text) where
  highest_page-le : (ls : List Text) (total : ℤ) → total ≤ℤ highest_page prefix ls total
  unfolding highest_page
  highest_page-le [] total = ground arith
  highest_page-le (l ∷ ls) total = ground (
    arith,
    higher-le (page_link prefix l) total,
    highest_page-le ls (higher (page_link prefix l) total),
  )

  highest_page-Covers :
      (ls : List Text) (total : ℤ) → All (Covers prefix (highest_page prefix ls total)) ls
  unfolding highest_page
  highest_page-Covers [] total = tt
  highest_page-Covers (l ∷ ls) total = (
    (λ n e. ground (
      arith,
      higher-ge (page_link prefix l) total n e,
      highest_page-le ls (higher (page_link prefix l) total),
    )),
    highest_page-Covers ls (higher (page_link prefix l) total),
  )

  highest_page-Names :
      (ls : List Text) (total : ℤ)
      → (highest_page prefix ls total ≡ total) ⊎ Names prefix (highest_page prefix ls total) ls
  unfolding highest_page
  highest_page-Names [] total = inl refl
  highest_page-Names (l ∷ ls) total =
      elim (highest_page-Names ls (higher (page_link prefix l) total)) [
        | inr named ↦ inr (inr named)
        | inl e ↦ elim (higher-cases (page_link prefix l) total) [
          | inl same_total ↦ inl (e ∙ same_total)
          | inr named ↦ inr (inl (named ∙ ap some (sym e)))
        ]
      ]

-- The page that a list of threads says it is and the number of pages that it counts: the page is at
-- least 1, the number is that of the highest page among it and those that the links of the pager
-- name.
pub forum_threads-pages :
    {S : Type 0} (dom : Dom S) (slug : Text) (page : ℤ) (doc : S)
    → (pos 1 ≤ℤ (forum_threads dom slug page doc).current_page)
      × ((forum_threads dom slug page doc).current_page
          ≤ℤ (forum_threads dom slug page doc).total_pages)
      × All
          (Covers
            (codes "/foro/" ++ (slug ++ codes "/p"))
            (forum_threads dom slug page doc).total_pages)
          (links dom (dom.nodes (dom.find (codes "a[href]") doc)))
      × (((forum_threads dom slug page doc).total_pages
            ≡ (forum_threads dom slug page doc).current_page)
          ⊎ Names
              (codes "/foro/" ++ (slug ++ codes "/p"))
              (forum_threads dom slug page doc).total_pages
              (links dom (dom.nodes (dom.find (codes "a[href]") doc))))
unfolding forum_threads
forum_threads-pages dom slug page doc =
    let prefix : Text = codes "/foro/" ++ (slug ++ codes "/p") in
    let ls : List Text = links dom (dom.nodes (dom.find (codes "a[href]") doc)) in
    let current : ℤ = if ltb_ℤ page (pos 1) then pos 1 else page in
    (
      ground arith,
      highest_page-le prefix ls current,
      highest_page-Covers prefix ls current,
      highest_page-Names prefix ls current,
    )

-- No item of the feed has a URL that was seen or that an item in front of it has.
abbrev pub AreFresh : List Text → List PortadaItem → Type 0
AreFresh seen [] = Unit
AreFresh seen (i ∷ is) = (is_listed i.url seen ≡ false) × AreFresh (i.url ∷ seen) is

-- Whether the URL is listed by an item.
abbrev pub is_shown : Text → List PortadaItem → Bool
is_shown url [] = false
is_shown url (i ∷ is) = if same i.url url then true else is_shown url is

module _ {S : Type 0} (dom : Dom S) where
  abbrev is_left_out : List Text → S → Bool
  is_left_out seen sel =
      is_empty (portada_item dom sel).title
      || is_empty (portada_item dom sel).url
      || is_listed (portada_item dom sel).url seen

  portada_from-AreFresh :
      (seen : List Text) (sels : List S) → AreFresh seen (portada_from dom seen sels)
  unfolding portada_from
  portada_from-AreFresh seen [] = tt
  portada_from-AreFresh seen (sel ∷ sels) = elim (Bool-cases (is_left_out seen sel)) [
    | inl e ↦ rw e (portada_from-AreFresh seen sels)
    | inr e ↦
        rw e (ground (arith, e), portada_from-AreFresh ((portada_item dom sel).url ∷ seen) sels)
  ]

  -- A card with a title and a URL has its URL in the feed, unless it was seen before.
  abbrev pub Shows : List Text → List PortadaItem → S → Type 0
  Shows seen items sel =
      is_empty (portada_item dom sel).title ≡ false
      → is_empty (portada_item dom sel).url ≡ false
      → (is_listed (portada_item dom sel).url seen || is_shown (portada_item dom sel).url items)
        ≡ true

  Shows-next :
      (seen : List Text) (item : PortadaItem) (items : List PortadaItem) (sel : S)
      → Shows (item.url ∷ seen) items sel
      → Shows seen (item ∷ items) sel
  unfolding is_listed
  Shows-next seen item items sel h t u = ground (arith, h t u)

  portada_from-skip :
      (seen : List Text) (sel : S) (sels : List S)
      → is_left_out seen sel ≡ true
      → portada_from dom seen (sel ∷ sels) ≡ portada_from dom seen sels
  unfolding portada_from
  portada_from-skip seen sel sels e = rw e refl

  portada_from-keep :
      (seen : List Text) (sel : S) (sels : List S)
      → is_left_out seen sel ≡ false
      → portada_from dom seen (sel ∷ sels)
        ≡ portada_item dom sel ∷ portada_from dom ((portada_item dom sel).url ∷ seen) sels
  unfolding portada_from
  portada_from-keep seen sel sels e = rw e refl

  portada_from-Shows :
      (seen : List Text) (sels : List S) → All (Shows seen (portada_from dom seen sels)) sels
  portada_from-Shows seen [] = tt
  portada_from-Shows seen (sel ∷ sels) = elim (Bool-cases (is_left_out seen sel)) [
    | inl e ↦
        subst (λ r. All (Shows seen r) (sel ∷ sels)) (sym (portada_from-skip seen sel sels e))
          ((λ t u. ground (arith, e, t, u)), portada_from-Shows seen sels)
    | inr e ↦
        subst (λ r. All (Shows seen r) (sel ∷ sels)) (sym (portada_from-keep seen sel sels e))
          (
            (λ t u. ground (arith, e, t, u)),
            All-map
                (Shows-next seen (portada_item dom sel)
                  (portada_from dom ((portada_item dom sel).url ∷ seen) sels))
                sels (portada_from-Shows ((portada_item dom sel).url ∷ seen) sels),
          )
  ]

  -- The feed of the front page has each URL once, and it has the URL of each card that has a title
  -- and a URL.
  pub portada_from-once :
      (sels : List S)
      → AreFresh [] (portada_from dom [] sels) × All (Shows [] (portada_from dom [] sels)) sels
  portada_from-once sels = (portada_from-AreFresh [] sels, portada_from-Shows [] sels)
