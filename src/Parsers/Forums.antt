-- ===== src/Parsers/Forums.antt =====
-- forums.go: FetchPortada, FetchForumIndex and FetchForumThreads.
use mediavida.Base.{
  Bool, true, false, Text, codes, Option, none, some, List, [], ◌∷◌, ◌++◌, ◌||◌, ◌&&◌, not,
  if◌then◌else◌, is_empty, same, text_key,
}
use mediavida.Base.Int.{ℤ, pos, ltb_ℤ}
use mediavida.Base.Strings.{contains, has_prefix, cut_prefix, trim_space, pieces}
use mediavida.Numbers.{atoi}
use mediavida.Scraper.Pages.{ForumInfo, ForumCategory, ForumThread, ForumThreadList, PortadaItem}
use mediavida.Scraper.Posting.{absolutize}
use mediavida.Scraper.Threads.{print_int}
use mediavida.Scraper.Recovery.{Op, op_failed}
use mediavida.Parsers.{
  Dom, Web, gather, is_none, mv_abs_url, or_else, attr_or, text_at, first_at, first_text,
  is_missing, parsed, when_logged_in,
}
use mediavida.Parsers.Texts.{or_zero, trim_prefix, trim_byte, fields}

abbrev pub href : Text
href = codes "href"

abbrev pub title_attr : Text
title_attr = codes "title"

-- seen[href]
unfoldable pub is_listed : Text → List Text → Bool
is_listed a [] = false
is_listed a (b ∷ bs) = let rest = is_listed a bs in if same b a then true else rest

-- The first class that names a forum's icon.
unfoldable pub icon_class : List Text → Text
icon_class [] = []
icon_class (c ∷ cs) = let rest = icon_class cs in if has_prefix c (codes "fid-") then c else rest

-- A time in a data-time attribute, 0 where it is none.
unfoldable pub time_of : Text → ℤ
time_of dt = or_zero (atoi dt)

-- The part of a link's segment in front of its next slash, query or fragment.
abbrev pub before_any : Text → Text
before_any seg = (pieces b'#' (pieces b'?' (pieces b'/' seg).0).0).0

-- The page number that a link of the pager names.
unfoldable pub page_link : Text → Text → Option ℤ
page_link prefix link =
    elim (cut_prefix prefix (trim_prefix link (codes "https://www.mediavida.com"))) [
      | none ↦ none
      | some seg ↦ atoi (before_any seg)
    ]

abbrev pub higher : Option ℤ → ℤ → ℤ
higher none total = total
higher (some n) total = if ltb_ℤ total n then n else total

unfoldable pub highest_page : Text → List Text → ℤ → ℤ
highest_page prefix [] total = total
highest_page prefix (l ∷ ls) total = highest_page prefix ls (higher (page_link prefix l) total)

module _ {S : Type 0} (dom : Dom S) where
  portada_url : S → S → Text
  portada_url sel a =
      mv_abs_url (
        or_else (attr_or dom href [] a) (attr_or dom href [] (dom.find (codes "a.news-media") sel)))

  portada_image : S → Text
  portada_image media =
      let img = dom.find (codes "img") media in
      absolutize (attr_or dom (codes "data-src") (attr_or dom (codes "src") [] img) img)

  unfoldable pub portada_item : S → PortadaItem
  unfolding portada_url portada_image
  portada_item sel =
      let info = first_at dom (codes ".news-info") sel in
      let a = first_at dom (codes "h4 a") info in
      let media = first_at dom (codes "a.news-media") sel in
      record {
        title = trim_space (dom.text a);
        url = portada_url sel a;
        forum = text_at dom (codes ".news-cat") info;
        intro = text_at dom (codes ".news-intro") info;
        image = portada_image media;
        replies = first_text dom (codes "div") media;
      }

  -- The loop of FetchPortada: an item without title or URL, or with a URL seen before, is left out.
  unfoldable pub portada_from : List Text → List S → List PortadaItem
  portada_from seen [] = []
  portada_from seen (sel ∷ sels) =
      let item = portada_item sel in
      let skipped = portada_from seen sels in
      let rest = portada_from (item.url ∷ seen) sels in
      if is_empty item.title || is_empty item.url || is_listed item.url seen
      then skipped
      else item ∷ rest

  -- One link of a category; `none` where it leads to no forum.
  unfoldable pub forum_info : S → Option ForumInfo
  forum_info a =
      let slug = trim_byte b'/' (trim_prefix (attr_or dom href [] a) (codes "/foro/")) in
      if is_empty slug || contains slug (codes "/")
      then none
      else some (record {
        slug = slug;
        name = or_else (first_text dom (codes ".info-col strong") a) slug;
        description = first_text dom (codes ".info-col p.ddkb") a;
        icon = elim (dom.attr (codes "class") (dom.find (codes ".icon-col i.fid") a)) [
          | none ↦ []
          | some cls ↦ icon_class (fields cls)
        ];
      })

  -- A category without forums is left out.
  unfoldable pub forum_category : S → Option ForumCategory
  forum_category ul =
      let forums = gather forum_info (dom.nodes (dom.find (codes "li a.forum") ul)) in
      if is_none forums
      then none
      else some (record {
        name = trim_space (dom.text (dom.prev_filtered (codes "h2") ul));
        forums = forums;
      })

  row_author : S → Text
  row_author tr =
      or_else (trim_space (attr_or dom (codes "alt") [] (dom.find (codes "td.col-av img") tr)))
        (first_text dom (codes "td.col-av a[href^='/id/']") tr)

  -- One row of a subforum's table.
  unfoldable pub forum_thread : S → Option ForumThread
  unfolding row_author
  forum_thread tr =
      let a = first_at dom (codes "td.col-th .thread a.h, td.col-th .thread a.hb") tr in
      let title = trim_space (attr_or dom title_attr (dom.text a) a) in
      let rd = first_at dom (codes "td.thread-count .rd") tr in
      let pinned = not (is_missing dom (dom.find (codes ".tema-status .fa-thumb-tack") tr)) in
      if is_empty title
      then none
      else some (record {
        id = trim_prefix (attr_or dom (codes "id") [] a) (codes "a");
        title = title;
        url = mv_abs_url (attr_or dom href [] a);
        author = row_author tr;
        tag = text_at dom (codes "td.col-th .tag-group") tr;
        replies = first_text dom (codes "td.thread-count .num.reply") tr;
        views = first_text dom (codes "td.dtc .num") tr;
        last_activity = attr_or dom title_attr (trim_space (dom.text rd)) rd;
        last_time = time_of (attr_or dom (codes "data-time") [] rd);
        pinned = pinned;
        closed = dom.has_class (codes "locked") tr && not pinned;
        unread_count =
            or_else (text_at dom (codes ".unseen-num") tr)
              (or_else (text_at dom (codes ".sp.sp2") tr) (text_at dom (codes "a.sp") tr));
      })

  unfoldable pub links : List S → List Text
  links [] = []
  links (a ∷ as') = attr_or dom href [] a ∷ links as'

  -- The list of a page, from `page` as the caller gives it.
  unfoldable pub forum_threads : Text → ℤ → S → ForumThreadList
  forum_threads slug page doc =
      let current = if ltb_ℤ page (pos 1) then pos 1 else page in
      record {
        subforum = slug;
        current_page = current;
        total_pages =
            highest_page (codes "/foro/" ++ (slug ++ codes "/p"))
              (links (dom.nodes (dom.find (codes "a[href]") doc))) current;
        threads = gather forum_thread (dom.nodes (dom.find (codes "#temas tr") doc));
      }

  module _ (web : Web S) where
    unfoldable pub fetch_portada : Op (List PortadaItem)
    fetch_portada = when_logged_in op_failed (
        parsed web (codes "https://www.mediavida.com/")
          (λ doc. portada_from [] (dom.nodes (dom.find (codes ".news-item") doc))))

    unfoldable pub fetch_forum_index : Op (List ForumCategory)
    fetch_forum_index = when_logged_in op_failed (
        parsed web (codes "https://www.mediavida.com/foro")
          (λ doc. gather forum_category (dom.nodes (dom.find (codes "ul.forums") doc))))

    unfoldable pub fetch_forum_threads : Text → ℤ → Op ForumThreadList
    fetch_forum_threads slug page =
        let url = codes "https://www.mediavida.com/foro/" ++ slug in
        when_logged_in op_failed (
          parsed web (if ltb_ℤ (pos 1) page then url ++ (codes "/p" ++ print_int page) else url)
            (forum_threads slug page))
