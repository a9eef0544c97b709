-- ===== src/Examples/ThreadRuns.antt =====
-- The thread of a scraper, and what it posts, at concrete inputs.
use mediavida.Base.{◌≡◌, ◌≢◌, ◌≤◌, length, refl, Text, codes, none, some, [], arith, All, text_key}
use mediavida.Base.Int.{ℤ, pos}
use mediavida.Scraper.{ForumScraper}
use mediavida.Scraper.Recovery.{api_result, with_relogin}
use mediavida.Scraper.Threads.{ThreadDoc, ThreadPage, thread_page_url, ensure_thread}
use mediavida.Scraper.Posting.{
  Decoders, PostNet, on_thread, on_open, reply_open, do_post, post_reply, edit_message,
  like_message,
}
use mediavida.Scraper.OpenThread.{Targets}
use mediavida.Scraper.PostingLaws.{writes-tid, post_reply-old_thread}
use mediavida.Scraper.OnceLaws.{run, with_relogin-post_reply}
use mediavida.Examples.{packages, forum, offline, one_session}

abbrev page : ThreadDoc
page = record {
  status = 200;
  tid = codes "13";
  token = codes "abc";
  fid = codes "9";
  pagina = codes "1";
  side_pages = [];
  messages = [];
}

abbrev reader : ThreadDoc → PostNet
reader d = record {
  threads = record {
    login_net = offline.login_net;
    get = λ url. some d;
    set_pagina = λ url n. none;
  };
  post = λ r. some (200, codes "{}");
}

abbrev other_thread : ForumScraper
other_thread = record forum {
  thread_id = codes "7";
  csrf_token = codes "abc";
  forum_id = codes "9";
  page_num = codes "1";
  thread_url = codes "/foro/cine/otro-7";
}

abbrev wanted : Text
wanted = codes "/foro/cine/hilo-13"

abbrev decoders : Decoders
decoders = record {
  quote = λ t. none;
  quoted = λ t. none;
  status = λ t. some (pos 1);
  image = λ t. none;
  rewritten = λ f t. none;
  text = λ t. none;
}

names_13 :
    (n : ℤ) (d : ThreadDoc)
    → (reader page).threads.get (thread_page_url (reader page).threads wanted n) ≡ some d
    → d.tid ≡ codes "13"
names_13 n d e = ground (arith, e)

writes-tid_example :
    All
      (Targets (codes "13"))
      (post_reply (reader page) (pos 0) wanted (codes "hola") other_thread).2
    × All
        (Targets (codes "13"))
        (edit_message (reader page) (pos 0) wanted decoders (codes "hola") other_thread).2
    × All (Targets (codes "13")) (like_message (reader page) (pos 0) wanted other_thread).2
writes-tid_example =
    writes-tid (reader page) wanted (codes "13") (pos 0) (codes "hola") decoders other_thread
      (ground arith) (ground arith) names_13 (λ e. ground (arith, e))

abbrev anonymous : ThreadDoc
anonymous = record page { tid = []; token = [] }

post_reply-old_thread_example :
    (length (post_reply (reader anonymous) (pos 0) wanted (codes "hola") other_thread).2 ≡ 1)
    × All
        (Targets (codes "7"))
        (post_reply (reader anonymous) (pos 0) wanted (codes "hola") other_thread).2
    × ((post_reply (reader anonymous) (pos 0) wanted (codes "hola") other_thread).1.thread_url
        ≡ wanted)
post_reply-old_thread_example =
    post_reply-old_thread (reader anonymous) wanted other_thread anonymous (pos 0) (codes "hola")
      refl (ground arith) (ground arith) (ground arith) (ground arith) (ground arith) refl refl refl

posted : (post_reply (reader page) (pos 0) [] (codes "hola") other_thread).2 ≢ []
unfolding post_reply on_thread ensure_thread on_open reply_open do_post
posted = ground arith

with_relogin-post_reply_example :
    (length (post_reply (reader page) (pos 0) [] (codes "hola") other_thread).2 ≤ 1)
    × (length (post_reply (reader page) (pos 0) [] (codes "hola") other_thread).2 ≡ 1)
    × (with_relogin packages offline
          (run (post_reply (reader page) (pos 0) [] (codes "hola")))
          (run (post_reply (reader page) (pos 0) [] (codes "hola")))
          other_thread
          one_session
        ≡ (
          api_result (post_reply (reader page) (pos 0) [] (codes "hola") other_thread).0,
          (post_reply (reader page) (pos 0) [] (codes "hola") other_thread).1,
          one_session,
        ))
with_relogin-post_reply_example =
    with_relogin-post_reply packages offline (reader page) (reader page) (pos 0) [] (codes "hola")
      (run (post_reply (reader page) (pos 0) [] (codes "hola"))) other_thread other_thread
      one_session posted

abbrev read_page : ThreadPage
read_page = record { messages = []; current_page = pos 1; total_pages = pos 1 }
