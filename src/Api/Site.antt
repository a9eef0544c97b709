-- ===== src/Api/Site.antt =====
-- The operations of scraper.go and forums.go on what Mediavida answers, as the routes call them.
use mediavida.Base.{ℕ, Text, codes, ◌++◌, Option, none, some}
use mediavida.Base.Int.{ℤ}
use mediavida.Scraper.{ForumScraper}
use mediavida.Scraper.Login.{
  LoginNet, Bubbles, BubblesAnswer, BubblesResult, bubbles, session_expired, fetch_failed,
  fetch_bubbles,
}
use mediavida.Scraper.Recovery.{OpResult, op_ok, op_error, op_expired, op_failed}
use mediavida.Scraper.Threads.{ThreadDoc, ThreadNet, fetch_thread}
use mediavida.Scraper.Posting.{
  PostRequest, PostNet, Posting, Decoders, like_message, post_reply, get_post_source,
  get_quoted_post, get_post_quoted, edit_message,
}
use mediavida.Scraper.Messages.{
  ConversationDoc, NewThreadDoc, send_private_message, fetch_new_thread_page, create_thread,
}
use mediavida.Parsers.{Dom, Web, Urls}
use mediavida.Parsers.Threads.{fetch_favorites, fetch_user_posts, search}
use mediavida.Parsers.Forums.{fetch_portada, fetch_forum_index, fetch_forum_threads}
use mediavida.Parsers.People.{fetch_profile, fetch_mentions, fetch_notifications}
use mediavida.Parsers.Mail.{fetch_inbox, fetch_conversation}
use mediavida.Parsers.Mods.{fetch_mod_bubbles, fetch_mod_reports}
use mediavida.Parsers.Posts.{Documents, thread_doc}
use mediavida.Parsers.Forms.{read_page, conversation_form, thread_form}
use mediavida.Poller.Moderation.{ModNet}
use mediavida.Api.{ForumOps}

-- What Mediavida answers at one time: its pages, in the documents `heap`; the posts; the bubbles.
pub record Site (D S : Type 0) : Type 0 where
  pub docs : Documents D S
  pub heap : D
  pub web : Web S
  pub urls : Urls
  pub set_pagina : Text → ℤ → Option Text
  pub decoders : Decoders
  pub login_net : LoginNet
  pub post : PostRequest → Option (ℕ × Text)
  pub bubbles_answer : Option BubblesAnswer

-- An operation without its account of the requests that it posts.
abbrev returned : {A : Type 0} → Posting A → OpResult A × ForumScraper
returned p = (p.0, p.1)

counted_bubbles : BubblesResult × ForumScraper → OpResult Bubbles × ForumScraper
counted_bubbles (bubbles b, s) = (op_ok b, s)
counted_bubbles (session_expired, s) = (op_error op_expired, s)
counted_bubbles (fetch_failed, s) = (op_error op_failed, s)

module _ {D S : Type 0} (site : Site D S) where
  abbrev pub dom : Dom S
  dom = site.docs.read site.heap

  unfoldable pub thread_page : Text → Option ThreadDoc
  thread_page url = elim (site.web url) [
    | none ↦ none
    | some p ↦ elim p.doc [
      | none ↦ none
      | some root ↦ some (thread_doc site.docs p.status root site.heap)
    ]
  ]

  abbrev pub thread_net : ThreadNet
  thread_net = record {
    login_net = site.login_net;
    get = thread_page;
    set_pagina = site.set_pagina;
  }

  abbrev pub post_net : PostNet
  post_net = record { threads = thread_net; post = site.post }

  form_of : Text → Option NewThreadDoc
  form_of subforum =
      read_page site.web (thread_form dom)
        (codes "https://www.mediavida.com/foro/" ++ (subforum ++ codes "/nuevo-hilo"))

  conversation_of : Text → Option ConversationDoc
  conversation_of id =
      read_page site.web (conversation_form dom) (codes "https://www.mediavida.com/mensajes/" ++ id)

  unfoldable pub site_ops : ForumOps
  unfolding counted_bubbles form_of conversation_of
  site_ops = record {
    fetch_portada = fetch_portada dom site.web;
    fetch_forum_index = fetch_forum_index dom site.web;
    fetch_forum_threads = fetch_forum_threads dom site.web;
    fetch_thread = fetch_thread thread_net;
    like_message = λ num want s. returned (like_message post_net num want s);
    post_reply = λ text num want s. returned (post_reply post_net num want text s);
    get_post_source = λ num want s. returned (get_post_source post_net num want s);
    get_quoted_post = λ num want s. returned (get_quoted_post post_net num want site.decoders s);
    get_post_quoted = λ num want s. returned (get_post_quoted post_net num want site.decoders s);
    edit_message =
        λ num text want s. returned (edit_message post_net num want site.decoders text s);
    create_thread = λ subforum title text tag fav s.
        returned (create_thread post_net subforum title text tag fav (form_of subforum) s);
    fetch_new_thread_page = λ subforum s. (fetch_new_thread_page (form_of subforum) s, s);
    search = search dom site.web site.urls;
    fetch_inbox = fetch_inbox dom site.web;
    fetch_conversation = fetch_conversation dom site.web;
    send_private_message =
        λ id text s. returned (send_private_message post_net (conversation_of id) id text s);
    fetch_favorites = fetch_favorites dom site.web;
    fetch_user_posts = fetch_user_posts dom site.web;
    fetch_mentions = fetch_mentions dom site.web;
    fetch_profile = fetch_profile dom site.web;
    fetch_notifications = fetch_notifications dom site.web;
    fetch_bubbles = λ s. counted_bubbles (fetch_bubbles site.bubbles_answer s);
    fetch_mod_bubbles = fetch_mod_bubbles dom site.web site.urls;
  }

  answered : {A : Type 0} → OpResult A → Option A
  answered (op_ok a) = some a
  answered (op_error e) = none

  -- What checkMod gets with the scraper of a session.
  unfoldable pub mod_net : ForumScraper → ModNet
  unfolding answered
  mod_net s = record {
    mod_bubbles = λ slug. answered (fetch_mod_bubbles dom site.web site.urls slug s).0;
    mod_reports = λ fid. answered (fetch_mod_reports dom site.web fid s).0;
  }
