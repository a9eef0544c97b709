-- ===== src/Parsers/People.antt =====
-- scraper.go: FetchProfile, FetchMentions and FetchNotifications.
use mediavida.Base.{
  Bool, false, Text, codes, Option, none, some, List, [], ◌∷◌, ◌++◌, ◌&&◌, if◌then◌else◌, is_empty,
  same,
}
use mediavida.Base.Int.{ℤ, pos, int_key}
use mediavida.Base.Strings.{contains, has_prefix, trim_space}
use mediavida.Numbers.{atoi_value}
use mediavida.Scraper.Pages.{Profile, MentionItem, NotificationItem}
use mediavida.Scraper.Posting.{absolutize}
use mediavida.Scraper.Recovery.{Op, OpResult, op_ok, op_error, op_expired, op_failed}
use mediavida.Parsers.{
  Dom, Web, gather, mv_abs_url, or_else, attr_or, text_at, first_at, first_text, is_missing, parsed,
  parsed_200, when_logged_in,
}
use mediavida.Parsers.Texts.{trim_prefix, has_suffix, fields, join, leading_int}

abbrev is_zero : ℤ → Bool
is_zero n = same n (pos 0)

-- "Se registró el ", in UTF-8.
abbrev pub registered_on : Text
registered_on = codes "Se registr" ++ 195 ∷ 179 ∷ codes " el "

-- One title attribute of a profile. The first one that names a number which is not 0 counts.
unfoldable pub read_title : Text → Profile → Profile
read_title t p =
    if is_zero p.posts && has_suffix t (codes " posts")
    then record p { posts = leading_int t }
    else if is_zero p.threads && has_suffix t (codes " temas")
    then record p { threads = leading_int t }
    else if is_zero p.visits && has_suffix t (codes " visitas")
    then record p { visits = leading_int t }
    else if is_empty p.registered && has_prefix t registered_on
    then record p { registered = trim_prefix t registered_on }
    else p

unfoldable pub read_titles : List Text → Profile → Profile
read_titles [] p = p
read_titles (t ∷ ts) p = read_titles ts (read_title t p)

module _ {S : Type 0} (dom : Dom S) where
  titles : List S → List Text
  titles [] = []
  titles (s ∷ ss) = trim_space (attr_or dom (codes "title") [] s) ∷ titles ss

  url_attr : Text → S → Text
  url_attr name s = elim (dom.attr name s) [ none ↦ [] | some u ↦ mv_abs_url u ]

  -- The profile, where the page has its header; a page without one is that of the login.
  unfoldable pub parse_profile : Text → S → OpResult Profile
  unfolding titles url_attr
  parse_profile username doc =
      let cover = first_at dom (codes "#cover") doc in
      let seen : Profile = record {
        username = or_else (first_text dom (codes "h1") cover) username;
        avatar = url_attr (codes "src") (first_at dom (codes "img.avatar") doc);
        cover = url_attr (codes "data-bg") cover;
        rank = first_text dom (codes ".l2") cover;
        registered = [];
        posts = pos 0;
        threads = pos 0;
        visits = pos 0;
        bio = first_text dom (codes ".post-contents") doc;
        online = contains (dom.text (dom.find (codes ".user-meta") doc)) (codes "Online");
      } in
      if is_missing dom cover
      then op_error op_expired
      else op_ok (read_titles (titles (dom.nodes (dom.find (codes "[title]") doc))) seen)

  unfoldable pub mention_item : S → Option MentionItem
  mention_item sel =
      let link = first_at dom (codes ".post-meta h1 a") sel in
      let title = trim_space (dom.text link) in
      if is_empty title
      then none
      else some (record {
        thread_title = title;
        thread_url = mv_abs_url (attr_or dom (codes "href") [] link);
        author = attr_or dom (codes "data-autor") [] sel;
        post_num = atoi_value (attr_or dom (codes "data-num") (codes "0") sel);
        body = text_at dom (codes ".post-contents") sel;
        date = attr_or dom (codes "title") [] (first_at dom (codes ".post-meta .rd") sel);
      })

  unfoldable pub notification_item : S → Option NotificationItem
  notification_item li =
      let body = first_at dom (codes ".firma-body") li in
      let quote = first_at dom (codes "blockquote") body in
      let action = first_at dom (codes "a.action") quote in
      if is_missing dom quote
      then none
      else some (record {
        id = trim_prefix (attr_or dom (codes "id") [] li) (codes "f_");
        author = first_text dom (codes "a.autor") quote;
        avatar =
            absolutize (attr_or dom (codes "src") [] (first_at dom (codes ".firma-avatar img") li));
        text = join (codes " ") (fields (dom.text quote));
        target = trim_space (dom.text action);
        url = absolutize (attr_or dom (codes "href") [] action);
        time = first_text dom (codes "span.n") body;
        unseen = false;
      })

  module _ (web : Web S) where
    unfoldable pub fetch_profile : Text → Op Profile
    fetch_profile username = when_logged_in op_expired (
        parsed_200 web op_expired (codes "https://www.mediavida.com/id/" ++ username)
          (parse_profile username))

    unfoldable pub fetch_mentions : Text → Op (List MentionItem)
    fetch_mentions username = when_logged_in op_failed (
        parsed web (codes "https://www.mediavida.com/id/" ++ (username ++ codes "/menciones"))
          (λ doc. gather mention_item (dom.nodes (dom.find (codes "div.post") doc))))

    unfoldable pub fetch_notifications : Op (List NotificationItem)
    fetch_notifications = when_logged_in op_expired (
        parsed web (codes "https://www.mediavida.com/notificaciones")
          (λ doc. gather notification_item (dom.nodes (dom.find (codes "ul.notify > li[id]") doc))))
