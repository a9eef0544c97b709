-- ===== src/Parsers/Mail.antt =====
-- scraper.go: FetchInbox and FetchConversation.
use mediavida.Base.{
  Text, codes, Option, none, some, List, [], ◌∷◌, ◌++◌, ◌||◌, if◌then◌else◌, is_empty,
}
use mediavida.Base.Int.{ℤ, pos, leb_ℤ}
use mediavida.Base.Strings.{trim_space}
use mediavida.Scraper.Pages.{InboxItem, PrivateMessage, Conversation}
use mediavida.Scraper.Threads.{print_int}
use mediavida.Scraper.Recovery.{Op, op_ok, op_failed}
use mediavida.Parsers.{
  Dom, Web, gather, is_none, or_else, attr_or, text_at, first_at, first_text, is_missing,
  parsed_200, when_logged_in,
}
use mediavida.Parsers.Texts.{trim_prefix}

module _ {S : Type 0} (dom : Dom S) where
  unfoldable pub inbox_item : S → Option InboxItem
  inbox_item sel =
      let id =
        trim_prefix (attr_or dom (codes "href") [] (first_at dom (codes "a") sel))
          (codes "/mensajes/") in
      let author = text_at dom (codes "strong") sel in
      if is_empty id || is_empty author
      then none
      else some (record {
        id = id;
        author = author;
        date = text_at dom (codes "abbr") sel;
        short = text_at dom (codes "span.short") sel;
        unread = dom.has_class (codes "unread") sel;
      })

  or_selection : S → S → S
  or_selection a b = if is_missing dom a then b else a

  -- What stands beside a message: its author and its date.
  unfoldable pub message_meta : S → S
  unfolding or_selection
  message_meta sel = or_selection (dom.find (codes ".pm-info") (dom.parent sel)) (
      or_selection (dom.find (codes ".pm-info") (dom.closest (codes ".wrap") sel))
        (dom.find (codes ".post-meta") (dom.parent sel)))

  unfoldable pub own_author : S → Text
  own_author sel = first_text dom (codes ".autor") (message_meta sel)

  message_date : S → Text
  message_date sel =
      let rd = first_at dom (codes ".rd") (message_meta sel) in
      attr_or dom (codes "title") (trim_space (dom.text rd)) rd

  -- The messages, behind one of `last`: a message that names no author is by the last one named.
  unfoldable pub messages_from : Text → List S → List PrivateMessage
  unfolding message_date
  messages_from last [] = []
  messages_from last (sel ∷ sels) =
      let body = trim_space (dom.text sel) in
      let author = or_else (own_author sel) last in
      let skipped = messages_from last sels in
      let rest = messages_from author sels in
      if is_empty body
      then skipped
      else record { author = author; date = message_date sel; body = body } ∷ rest

  -- A message in the markup of a post of the forum.
  unfoldable pub classic_message : S → Option PrivateMessage
  classic_message sel =
      let body = text_at dom (codes ".post-contents") sel in
      if is_empty body
      then none
      else some (record {
        author =
            or_else (attr_or dom (codes "data-autor") [] sel)
              (text_at dom (codes ".post-meta .autor a") sel);
        date = trim_space (attr_or dom (codes "title") [] (dom.find (codes ".post-meta .rd") sel));
        body = body;
      })

  unfoldable pub parse_conversation : S → Conversation
  parse_conversation doc =
      let messages = messages_from [] (dom.nodes (dom.find (codes ".post-contents") doc)) in
      record {
        title = first_text dom (codes "h2") doc;
        messages =
            if is_none messages
            then gather classic_message (dom.nodes (dom.find (codes "div.post, div.cf.post") doc))
            else messages;
      }

  module _ (web : Web S) where
    unfoldable pub fetch_inbox : ℤ → Op (List InboxItem)
    fetch_inbox page = when_logged_in op_failed (
        parsed_200 web op_failed
          (codes "https://www.mediavida.com/mensajes/fly/"
            ++ print_int (if leb_ℤ page (pos 0) then pos 1 else page))
          (λ doc. op_ok (gather inbox_item (dom.nodes (dom.find (codes "li") doc)))))

    unfoldable pub fetch_conversation : Text → Op Conversation
    fetch_conversation id = when_logged_in op_failed (
        parsed_200 web op_failed (codes "https://www.mediavida.com/mensajes/" ++ id)
          (λ doc. op_ok (parse_conversation doc)))
