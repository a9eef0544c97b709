-- ===== src/Parsers/ModLaws.antt =====
-- The counters of a moderator's menu, and the tags of the alerts.
use mediavida.Base.{
  ℕ, ◌≤◌, ◌≡◌, refl, ap, ◌∙◌, Bool, true, false, Text, codes, none, some, List, [], ◌∷◌, ◌++◌, All,
  is_empty,
}
use mediavida.Base.Int.{ℤ, pos}
use mediavida.Base.Strings.{contains}
use mediavida.Numbers.{itoa, max_int}
use mediavida.Scraper.Pages.{ModBubbles}
use mediavida.Parsers.{Dom, Urls, or_else}
use mediavida.Parsers.Texts.{extract_fid, extract_paren_count}
use mediavida.Parsers.Numbers.{extract_paren_count-itoa}
use mediavida.Parsers.Mods.{read_menu, read_menus, menu_links, parse_mod_bubbles}

abbrev reports_link : Text
reports_link = codes "/foro/reportes.php"

abbrev messages_link : Text
messages_link = codes "/mensajes/mod"

-- A link that leads neither to the reports nor to the messages of a forum.
abbrev pub IsOther : Text × Text → Type 0
IsOther l = (contains l.0 reports_link ≡ false) × (contains l.0 messages_link ≡ false)

-- A label with its count, as the site prints it.
abbrev pub counted : Text → ℕ → Text
counted label n = label ++ b'(' ∷ (itoa n ++ b')' ∷ [])

or_else-filled : (a : Text) → is_empty a ≡ false → or_else a [] ≡ a
or_else-filled a h = rw h refl

module _ (urls : Urls) where
  read_menus-append :
      (as' bs : List (Text × Text)) (r : Bool × ModBubbles)
      → read_menus urls (as' ++ bs) r ≡ read_menus urls bs (read_menus urls as' r)
  unfolding read_menus
  read_menus-append [] bs r = refl
  read_menus-append ((h, t) ∷ as') bs r = read_menus-append as' bs (read_menu urls h t r)

  read_menu-other : (h t : Text) (r : Bool × ModBubbles) → IsOther (h, t) → read_menu urls h t r ≡ r
  unfolding read_menu
  read_menu-other h t (found, mb) (a, b) = rw (a, b) refl

  read_menus-others :
      (ls : List (Text × Text)) (r : Bool × ModBubbles) → All IsOther ls → read_menus urls ls r ≡ r
  unfolding read_menus
  read_menus-others [] r o = refl
  read_menus-others ((h, t) ∷ ls) r (o, os) =
      ap (read_menus urls ls) (read_menu-other h t r o) ∙ read_menus-others ls r os

  abbrev counters : Text → Text → ℤ → ℤ → ModBubbles
  counters slug fid n m = record { forum_slug = slug; forum_id = fid; reports = n; messages = m }

  read_menu-reports :
      (slug h t fid : Text) (n : ℤ)
      → contains h reports_link ≡ true
      → extract_fid urls h ≡ fid
      → extract_paren_count t ≡ n
      → read_menu urls h t (false, counters slug [] (pos 0) (pos 0))
        ≡ (true, counters slug (or_else fid []) n (pos 0))
  unfolding read_menu
  read_menu-reports slug h t fid n r f c = rw (r, f, c) refl

  read_menu-messages :
      (slug h t fid : Text) (n m : ℤ)
      → contains h reports_link ≡ false
      → contains h messages_link ≡ true
      → is_empty fid ≡ false
      → extract_paren_count t ≡ m
      → read_menu urls h t (true, counters slug fid n (pos 0)) ≡ (true, counters slug fid n m)
  unfolding read_menu
  read_menu-messages slug h t fid n m r l e c = rw (r, l, e, c) refl

  -- A menu with one link to the reports and, behind it, one to the messages.
  read_menus-counts :
      (slug h1 t1 h2 t2 fid : Text) (n m : ℤ) (a b c : List (Text × Text))
      → All IsOther a
      → All IsOther b
      → All IsOther c
      → read_menu urls h1 t1 (false, counters slug [] (pos 0) (pos 0))
        ≡ (true, counters slug fid n (pos 0))
      → read_menu urls h2 t2 (true, counters slug fid n (pos 0)) ≡ (true, counters slug fid n m)
      → read_menus urls
          (a ++ (h1, t1) ∷ (b ++ (h2, t2) ∷ c))
          (false, counters slug [] (pos 0) (pos 0))
        ≡ (true, counters slug fid n m)
  unfolding read_menus
  read_menus-counts slug h1 t1 h2 t2 fid n m a b c oa ob oc first second =
      read_menus-append a ((h1, t1) ∷ (b ++ (h2, t2) ∷ c)) (false, counters slug [] (pos 0) (pos 0))
      ∙ (ap (λ r. read_menus urls (b ++ (h2, t2) ∷ c) (read_menu urls h1 t1 r))
            (read_menus-others a (false, counters slug [] (pos 0) (pos 0)) oa)
          ∙ (ap (read_menus urls (b ++ (h2, t2) ∷ c)) first
              ∙ (read_menus-append b ((h2, t2) ∷ c) (true, counters slug fid n (pos 0))
                  ∙ (ap (λ r. read_menus urls c (read_menu urls h2 t2 r))
                        (read_menus-others b (true, counters slug fid n (pos 0)) ob)
                      ∙ (ap (read_menus urls c) second
                          ∙ read_menus-others c (true, counters slug fid n m) oc)))))

module _ {S : Type 0} (dom : Dom S) (urls : Urls) (slug : Text) (doc : S) where
  abbrev pub menu : List (Text × Text)
  menu = menu_links dom (dom.nodes (dom.find (codes "ul.dropdown-menu a") doc))

  -- A page whose menu has no link to reports or messages is that of a forum which the user does not
  -- moderate.
  pub parse_mod_bubbles-other : All IsOther menu → parse_mod_bubbles dom urls slug doc ≡ none
  unfolding parse_mod_bubbles
  parse_mod_bubbles-other o =
      rw (read_menus-others urls menu (false, counters urls slug [] (pos 0) (pos 0)) o) refl

  -- When a menu has a link to the reports of a forum, with the forum's number, and behind it a
  -- link to its messages, and no other link to either, and their labels print counts that an int
  -- of 64 bits holds, then the counters of the forum are those counts and its number is that of
  -- the link.
  pub parse_mod_bubbles-counts :
      (h1 h2 l1 l2 fid : Text) (n m : ℕ) (a b c : List (Text × Text))
      → menu ≡ a ++ (h1, counted l1 n) ∷ (b ++ (h2, counted l2 m) ∷ c)
      → All IsOther a
      → All IsOther b
      → All IsOther c
      → contains h1 reports_link ≡ true
      → contains h2 reports_link ≡ false
      → contains h2 messages_link ≡ true
      → extract_fid urls h1 ≡ fid
      → is_empty fid ≡ false
      → n ≤ max_int
      → m ≤ max_int
      → parse_mod_bubbles dom urls slug doc
        ≡ some (record { forum_slug = slug; forum_id = fid; reports = pos n; messages = pos m })
  unfolding parse_mod_bubbles
  parse_mod_bubbles-counts h1 h2 l1 l2 fid n m a b c e oa ob oc r1 r2 m2 f filled ln lm = rw e (
      rw
        (read_menus-counts urls slug h1 (counted l1 n) h2 (counted l2 m) fid (pos n) (pos m) a b c
          oa ob oc
          (read_menu-reports urls slug h1 (counted l1 n) fid (pos n) r1 f
              (extract_paren_count-itoa l1 n ln)
            ∙ ap (λ i. (true, counters urls slug i (pos n) (pos 0))) (or_else-filled fid filled))
          (read_menu-messages urls slug h2 (counted l2 m) fid (pos n) (pos m) r2 m2 filled
            (extract_paren_count-itoa l2 m lm)))
        refl)
