-- ===== src/Scraper/PostingLaws.antt =====
-- scraper.go: the thread that a post lands in.
use mathlib.Core.Path.{subst}
use mediavida.Base.{◌≡◌, ◌≢◌, sym, ap, ◌∙◌, true, length, Text, some, [], arith, text_key, All}
use mediavida.Base.Int.{ℤ, pos}
use mediavida.Scraper.{ForumScraper}
use mediavida.Scraper.Threads.{
  ThreadDoc, thread_page_url, extract_metadata, ensure_thread, synced, fetch_thread, from_first,
  first_page, open_page, count_pages, target_page, read_target,
}
use mediavida.Scraper.Posting.{
  PostNet, Posting, like_message, edit_message, post_reply, Decoders, on_thread, on_open,
  reply_open, do_post,
}
use mediavida.Scraper.OpenThread.{Targets, reply_open-tid, reply-tid, edit-tid, like-tid}

module _ (net : PostNet) (want tid : Text) where
  metadata-tid :
      (d : ThreadDoc) (s : ForumScraper)
      → tid ≢ []
      → d.tid ≡ tid
      → (extract_metadata d s).thread_id ≡ tid
  unfolding extract_metadata
  metadata-tid d s filled e = ground (arith, e, filled)

  -- Suppose that every page of the wanted thread that Mediavida answers names the thread, and that
  -- the scraper, if it has that thread's URL open, has it open by its identifier. Then whatever
  -- PostReply, EditMessage and LikeMessage post for that URL goes to that thread, whatever thread was
  -- open before, and whatever else the requests answer.
  pub writes-tid :
      (num : ℤ) (text : Text) (js : Decoders) (s : ForumScraper)
      → want ≢ []
      → tid ≢ []
      → ((n : ℤ) (d : ThreadDoc)
          → net.threads.get (thread_page_url net.threads want n) ≡ some d
          → d.tid ≡ tid)
      → (s.thread_url ≡ want → s.thread_id ≡ tid)
      → All (Targets tid) (post_reply net num want text s).2
        × All (Targets tid) (edit_message net num want js text s).2
        × All (Targets tid) (like_message net num want s).2
  writes-tid num text js s w filled names b =
      let Start : ForumScraper → Type 0 = λ s. Unit {0} in
      let opens =
        λ (n : ℤ) (d : ThreadDoc) (o : ForumScraper)
            (e : net.threads.get (thread_page_url net.threads want n) ≡ some d) (u : Unit {0}).
          metadata-tid d o filled (names n d e) in
      (
        reply-tid net want tid Start (λ o e. tt) opens num text s tt tt w b,
        edit-tid net want tid Start (λ o e. tt) opens num text js s tt tt w b,
        like-tid net want tid Start (λ o e. tt) opens num s (λ o. tt) w b,
      )

module _ (net : PostNet) (want : Text) (s : ForumScraper) (d : ThreadDoc) where
  abbrev adrift : ForumScraper
  adrift = record (extract_metadata d s) { thread_url = want }

  ensure_thread-adrift :
      s.logged_in ≡ true
      → want ≢ []
      → s.thread_url ≢ want
      → net.threads.get (thread_page_url net.threads want (pos 1)) ≡ some d
      → d.side_pages ≡ []
      → ensure_thread net.threads want s ≡ (true, adrift)
  unfolding ensure_thread synced fetch_thread from_first first_page open_page count_pages
      target_page read_target
  ensure_thread-adrift l w o g e = rw l (rw g (rw e (ground (arith, w, o))))

  reply_open-adrift :
      (num : ℤ) (text : Text)
      → s.csrf_token ≢ []
      → s.thread_id ≢ []
      → s.forum_id ≢ []
      → d.tid ≡ []
      → (length (reply_open net num want text adrift).2 ≡ 1)
        × All (Targets s.thread_id) (reply_open net num want text adrift).2
        × ((reply_open net num want text adrift).1.thread_url ≡ want)
  unfolding reply_open do_post extract_metadata
  reply_open-adrift num text c t f n = (
    ground (arith, c, t, f, n),
    reply_open-tid net want s.thread_id num text adrift (ground (arith, n)),
    ground arith,
  )

  post_reply-on_open :
      (num : ℤ) (text : Text)
      → s.logged_in ≡ true
      → post_reply net num want text s
        ≡ on_open (reply_open net num want text) (ensure_thread net.threads want s)
  unfolding post_reply on_thread
  post_reply-on_open num text l = ground (arith, l)

  -- PostReply of a scraper that is logged in and has a thread open, with its forum and its token, for the URL of another thread whose
  -- only page, as Mediavida answers it, names no thread, posts one request all the same: it goes to the
  -- thread that was open before, and the scraper takes the wanted URL for open from then on.
  pub post_reply-old_thread :
      (num : ℤ) (text : Text)
      → s.logged_in ≡ true
      → s.csrf_token ≢ []
      → s.thread_id ≢ []
      → s.forum_id ≢ []
      → want ≢ []
      → s.thread_url ≢ want
      → net.threads.get (thread_page_url net.threads want (pos 1)) ≡ some d
      → d.side_pages ≡ []
      → d.tid ≡ []
      → (length (post_reply net num want text s).2 ≡ 1)
        × All (Targets s.thread_id) (post_reply net num want text s).2
        × ((post_reply net num want text s).1.thread_url ≡ want)
  unfolding on_open
  post_reply-old_thread num text l c t f w o g e n =
      let Posts : Posting (Unit {0}) → Type 0 =
        λ r. (length r.2 ≡ 1) × All (Targets s.thread_id) r.2 × (r.1.thread_url ≡ want) in
      subst Posts
        (sym (
          post_reply-on_open num text l
          ∙ ap (on_open (reply_open net num want text)) (ensure_thread-adrift l w o g e)))
        (reply_open-adrift num text c t f n)
