-- ===== src/Parsers/Posts.antt =====
-- scraper.go: parseMessages, which changes the document as it goes.
use mediavida.Base.{
  ℕ, Text, codes, Option, none, some, List, [], ◌∷◌, ◌&&◌, if◌then◌else◌, is_empty, same, text_key,
}
use mediavida.Base.Strings.{trim_space}
use mediavida.Numbers.{atoi_value}
use mediavida.Scraper.Threads.{ForumMessage, ThreadDoc}
use mediavida.Scraper.Posting.{absolutize}
use mediavida.Parsers.{Dom, attr_or, first_at}
use mediavida.Parsers.Forums.{time_of}

-- A document that SetAttr changes: what the selections answer in each of its states.
pub record Documents (D S : Type 0) : Type 0 where
  pub read : D → Dom S
  pub set_attr : Text → Text → S → D → D

module _ {D S : Type 0} (docs : Documents D S) where
  at : Text → Text → S → D → Text
  at name default s d = attr_or (docs.read d) name default s

  -- A lazy image gets the source that it waits for.
  unfoldable pub unlazy : S → D → D
  unfolding at
  unlazy img d =
      let ds = at (codes "data-src") [] img d in
      if is_empty ds then d else docs.set_attr (codes "src") ds img d

  unfoldable pub absolute_attr : Text → S → D → D
  unfolding at
  absolute_attr name s d = docs.set_attr name (absolutize (at name [] s d)) s d

  -- Each
  unfoldable pub each : (S → D → D) → List S → D → D
  each f [] d = d
  each f (s ∷ ss) d = each f ss (f s d)

  -- A query is answered before the loop over its nodes begins.
  unfoldable pub over : Text → S → (S → D → D) → D → D
  over q s f d = each f ((docs.read d).nodes ((docs.read d).find q s)) d

  -- The document once the body of a post stands on its own.
  unfoldable pub standalone : S → D → D
  standalone contents d = over (codes "a[href]") contents (absolute_attr (codes "href")) (
      over (codes "img[src]") contents (absolute_attr (codes "src"))
        (over (codes "img[data-src]") contents unlazy d))

  post_avatar : Dom S → S → Text
  post_avatar dom sel =
      let img = first_at dom (codes ".post-avatar img") sel in
      absolutize (attr_or dom (codes "data-src") (attr_or dom (codes "src") [] img) img)

  post_date : Dom S → S → Text
  post_date dom sel =
      let rd = first_at dom (codes ".post-meta .rd") sel in
      attr_or dom (codes "title") (trim_space (dom.text rd)) rd

  -- One post, and the document that it leaves; `none` for a post without a body.
  unfoldable pub parse_message : S → D → Option ForumMessage × D
  unfolding post_avatar post_date
  parse_message sel d =
      let before = docs.read d in
      let contents = first_at before (codes ".post-contents") sel in
      let body = trim_space (before.text contents) in
      let d' = standalone contents d in
      let dom = docs.read d' in
      let body_html = trim_space (dom.html contents) in
      let rd = first_at dom (codes ".post-meta .rd") sel in
      (
        if is_empty body && is_empty body_html
            then none
            else some (record {
              author = attr_or before (codes "data-autor") [] sel;
              body = body;
              body_html = body_html;
              avatar = post_avatar dom sel;
              date = post_date dom sel;
              time = time_of (attr_or dom (codes "data-time") [] rd);
              num = atoi_value (attr_or before (codes "data-num") [] sel);
              liked =
                  same
                    (attr_or dom (codes "data-undo") (codes "false")
                      (dom.find (codes "a.post-btn.masmola") sel))
                    (codes "true");
              replies =
                  atoi_value (attr_or dom (codes "rel") [] (first_at dom (codes "a.btnrep") sel));
            }),
        d',
      )

  unfoldable pub messages_of : List S → D → List ForumMessage × D
  messages_of [] d = ([], d)
  messages_of (s ∷ ss) d =
      let (m, d') = parse_message s d in
      let (ms, d'') = messages_of ss d' in (elim m [ none ↦ ms | some msg ↦ msg ∷ ms ], d'')

  -- parseMessages, in a document with this root.
  unfoldable pub parse_messages : S → D → List ForumMessage × D
  parse_messages root d =
      messages_of ((docs.read d).nodes ((docs.read d).find (codes ".cf.post") root)) d

  values_of : Dom S → Text → S → Text
  values_of dom q root = attr_or dom (codes "value") [] (dom.find q root)

  page_links : Dom S → List S → List Text
  page_links dom [] = []
  page_links dom (s ∷ ss) = dom.text s ∷ page_links dom ss

  -- What FetchThread and extractMetadata find in a page of a thread with this status; the messages
  -- are those that parseMessages reads after the links.
  unfoldable pub thread_doc : ℕ → S → D → ThreadDoc
  unfolding values_of page_links
  thread_doc status root d =
      let dom = docs.read d in
      record {
        status = status;
        tid = values_of dom (codes "#tid") root;
        token = values_of dom (codes "#token") root;
        fid = values_of dom (codes "#fid") root;
        pagina = values_of dom (codes "#pagina") root;
        side_pages = page_links dom (dom.nodes (dom.find (codes ".side-pages li a") root));
        messages = (parse_messages root d).0;
      }
