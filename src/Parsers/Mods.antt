-- ===== src/Parsers/Mods.antt =====
-- scraper.go: FetchModBubbles and FetchModReports.
use mediavida.Base.{
  Bool, true, false, Text, codes, Option, none, some, List, [], ◌∷◌, ◌++◌, ◌||◌, if◌then◌else◌,
  is_empty,
}
use mediavida.Base.Int.{pos}
use mediavida.Base.Strings.{contains, has_prefix, trim_space}
use mediavida.Scraper.Pages.{ModBubbles, ModReport}
use mediavida.Scraper.Recovery.{Op, op_ok, op_error, op_failed}
use mediavida.Parsers.{
  Dom, Web, Urls, gather, or_else, attr_or, text_at, first_at, first_text, parsed_200,
  when_logged_in,
}
use mediavida.Parsers.Texts.{extract_fid, extract_paren_count, from_last, collapse_whitespace}

module _ (urls : Urls) where
  -- One link of the dropdown menu, by its target and its text.
  unfoldable pub read_menu : Text → Text → Bool × ModBubbles → Bool × ModBubbles
  read_menu href text (found, mb) =
      if contains href (codes "/foro/reportes.php")
      then (
        true,
        record mb {
          forum_id = or_else (extract_fid urls href) mb.forum_id;
          reports = extract_paren_count text;
        },
      )
      else if contains href (codes "/mensajes/mod")
      then (
        true,
        record mb {
          forum_id = or_else mb.forum_id (extract_fid urls href);
          messages = extract_paren_count text;
        },
      )
      else (found, mb)

  unfoldable pub read_menus : List (Text × Text) → Bool × ModBubbles → Bool × ModBubbles
  read_menus [] r = r
  read_menus ((href, text) ∷ ls) r = read_menus ls (read_menu href text r)

module _ {S : Type 0} (dom : Dom S) where
  unfoldable pub menu_links : List S → List (Text × Text)
  menu_links [] = []
  menu_links (s ∷ ss) = (attr_or dom (codes "href") [] s, trim_space (dom.text s)) ∷ menu_links ss

  -- The counters of the menu; `none` for a forum that the user does not moderate.
  unfoldable pub parse_mod_bubbles : Urls → Text → S → Option ModBubbles
  parse_mod_bubbles urls slug doc =
      let (found, mb) =
        read_menus urls (menu_links (dom.nodes (dom.find (codes "ul.dropdown-menu a") doc)))
          (false, record { forum_slug = slug; forum_id = []; reports = pos 0; messages = pos 0 }) in
      if found then some mb else none

  since : Text → Text
  since light = elim (from_last (codes "hace ") light) [ none ↦ [] | some rest ↦ trim_space rest ]

  linked : S → Text
  linked s = elim (dom.attr (codes "href") s) [
    | none ↦ []
    | some u ↦ if has_prefix u (codes "http") then u else codes "https://www.mediavida.com" ++ u
  ]

  -- One report; `none` without the numbers of its thread and of its post.
  unfoldable pub mod_report : S → Option ModReport
  unfolding since linked
  mod_report sel =
      let form = dom.find (codes "form.repaction") sel in
      let tid =
        trim_space (attr_or dom (codes "value") [] (dom.find (codes "input[name='tid']") form)) in
      let num =
        trim_space (attr_or dom (codes "value") [] (dom.find (codes "input[name='num']") form)) in
      if is_empty tid || is_empty num
      then none
      else some (record {
        thread_id = tid;
        post_num = num;
        thread_title =
            or_else (first_text dom (codes ".c-main h4 a:not(.foroicon)") sel)
              (text_at dom (codes ".c-main h4") sel);
        post_url = linked (first_at dom (codes ".side-options a[href*='/foro/']") sel);
        post_author = text_at dom (codes ".side-options .autor") sel;
        post_body = collapse_whitespace (text_at dom (codes ".msg") sel);
        reason = first_text dom (codes ".c-side .logs li h5") sel;
        reporter = first_text dom (codes ".c-side .logs li .light a") sel;
        reported_ago = since (first_text dom (codes ".c-side .logs li .light") sel);
      })

  module _ (web : Web S) where
    unfoldable pub fetch_mod_bubbles : Urls → Text → Op (Option ModBubbles)
    fetch_mod_bubbles urls slug = when_logged_in op_failed (
        parsed_200 web op_failed (codes "https://www.mediavida.com/foro/" ++ slug)
          (λ doc. op_ok (parse_mod_bubbles urls slug doc)))

    unfoldable pub fetch_mod_reports : Text → Op (List ModReport)
    fetch_mod_reports fid = when_logged_in op_failed (
        if is_empty fid
        then op_error op_failed
        else parsed_200 web op_failed
            (codes "https://www.mediavida.com/foro/reportes.php?fid=" ++ fid)
            (λ doc.
              op_ok (gather mod_report (dom.nodes (dom.find (codes ".mod-panel .entry") doc)))))
