-- ===== src/Parsers/Threads.antt =====
-- scraper.go: parseThreadList, FetchFavorites, FetchUserPosts and Search.
use mediavida.Base.{Bool, Text, codes, Option, none, some, List, [], ◌++◌, if◌then◌else◌, is_empty}
use mediavida.Base.Strings.{contains, trim_space}
use mediavida.Scraper.Pages.{ThreadListItem, SearchResult}
use mediavida.Scraper.Recovery.{Op, op_failed}
use mediavida.Parsers.{
  Dom, Web, Urls, gather, is_none, mv_abs_url, or_else, attr_or, text_at, first_at, parsed,
  when_logged_in,
}
use mediavida.Parsers.Texts.{extract_ddg_url}

-- Bold links (a.hb) mark threads with unread posts.
abbrev pub bold_or : Bool → Text → Text
bold_or bold unread = if is_empty unread then (if bold then codes "new" else []) else unread

module _ {S : Type 0} (dom : Dom S) where
  unread_link : S → Text
  unread_link sel = mv_abs_url (
      or_else (attr_or dom (codes "href") [] (dom.find (codes ".unseen-num") sel))
        (attr_or dom (codes "href") [] (dom.find (codes "a.sp") sel)))

  row_activity : S → Text
  row_activity sel =
      or_else (attr_or dom (codes "title") [] (first_at dom (codes "td.last-av .m_date") sel))
        (attr_or dom (codes "title") [] (first_at dom (codes "td.thread-count .rd") sel))

  -- One row of parseThreadList.
  unfoldable pub thread_row : S → Option ThreadListItem
  unfolding unread_link row_activity
  thread_row sel =
      let a = first_at dom (codes "td.col-th .thread a.h, td.col-th .thread a.hb") sel in
      let title = trim_space (attr_or dom (codes "title") (dom.text a) a) in
      if is_empty title
      then none
      else some (record {
        title = title;
        url = mv_abs_url (attr_or dom (codes "href") [] a);
        forum = attr_or dom (codes "title") [] (dom.find (codes "td.autor-avatar a.tooltip") sel);
        replies = text_at dom (codes "td.thread-count .num.reply") sel;
        last_activity = row_activity sel;
        unread_count = bold_or (dom.has_class (codes "hb") a) (
            or_else (text_at dom (codes ".unseen-num") sel)
              (or_else (text_at dom (codes ".sp.sp2") sel) (text_at dom (codes "a.sp") sel)));
        unread_url = unread_link sel;
      })

  unfoldable pub parse_thread_list : S → List ThreadListItem
  parse_thread_list doc = gather thread_row (dom.nodes (dom.find (codes "#temas tr") doc))

  -- One item of the list of favorites.
  unfoldable pub favorite_item : S → Option ThreadListItem
  unfolding unread_link
  favorite_item sel =
      let a = first_at dom (codes "div a.h, div a.hb") sel in
      let title = attr_or dom (codes "title") (trim_space (dom.text a)) a in
      if is_empty title
      then none
      else some (record {
        title = title;
        url = mv_abs_url (attr_or dom (codes "href") [] a);
        forum = [];
        replies = [];
        last_activity = [];
        unread_count = bold_or (dom.has_class (codes "hb") a) (
            or_else (text_at dom (codes ".unseen-num") sel) (
              or_else (text_at dom (codes ".sp.sp2") sel)
                (or_else (text_at dom (codes ".count-new") sel) (text_at dom (codes "a.sp") sel))));
        unread_url = unread_link sel;
      })

  -- The list of favorites, and the table where the page has no such list.
  unfoldable pub parse_favorites : S → List ThreadListItem
  parse_favorites doc =
      let items = gather favorite_item (dom.nodes (dom.find (codes "ul.content.threads li") doc)) in
      if is_none items then parse_thread_list doc else items

  -- One result of Search, advertisements left out.
  unfoldable pub search_result : Urls → S → Option SearchResult
  search_result urls sel =
      let a = first_at dom (codes "a.result__a") sel in
      let title = trim_space (dom.text a) in
      let href = extract_ddg_url urls (attr_or dom (codes "href") [] a) in
      if dom.has_class (codes "result--ad") sel
      then none
      else if is_empty title
      then none
      else if contains href (codes "mediavida.com")
      then some (record {
        title = title;
        url = href;
        forum = [];
        author = [];
        date = text_at dom (codes ".result__snippet") sel;
      })
      else none

  module _ (web : Web S) where
    unfoldable pub fetch_favorites : Op (List ThreadListItem)
    fetch_favorites =
        when_logged_in op_failed
          (parsed web (codes "https://www.mediavida.com/foro/favoritos") parse_favorites)

    unfoldable pub fetch_user_posts : Text → Op (List ThreadListItem)
    fetch_user_posts username = when_logged_in op_failed (
        parsed web (codes "https://www.mediavida.com/id/" ++ (username ++ codes "/posts"))
          parse_thread_list)

    -- Search asks another site, and needs no session.
    unfoldable pub search : Urls → Text → Op (List SearchResult)
    search urls query s = (
      parsed web
          (codes "https://html.duckduckgo.com/html/?q=site%3Amediavida.com%2Fforo+"
            ++ urls.query_escape query)
          (λ doc. gather (search_result urls) (dom.nodes (dom.find (codes ".result") doc))),
      s,
    )
