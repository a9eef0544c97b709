-- ===== src/Scraper/OnceLaws.antt =====
-- scraper.go and api.go: withRelogin around PostReply.
use mathlib.Core.Path.{subst}
use mediavida.Base.{
  ℕ, ◌≤◌, length, ◌∷◌, ◌≡◌, ◌≢◌, refl, ◌∙◌, ◌||◌, Bool, true, false, Text, Option, none, some, List,
  [], arith, if◌then◌else◌, is_empty, text_key, Bool-cases, inl, inr,
}
use mediavida.Base.Int.{ℤ, pos}
use mediavida.Store.{Db}
use mediavida.Scraper.{ForumScraper, Packages}
use mediavida.Scraper.Recovery.{
  ReloginNet, OpResult, op_ok, op_error, op_failed, op_expired, Op, api_result, with_relogin,
  is_plain_failure,
}
use mediavida.Scraper.Threads.{
  ThreadNet, ThreadDoc, ThreadPage, ForumMessage, thread_page_url, extract_metadata, count_pages,
  target_page, is_first, fetch_page, at_page, read_target, open_page, first_page, from_first,
  fetch_thread, synced, ensure_thread,
}
use mediavida.Scraper.Posting.{
  PostNet, Posting, fails, do_post, on_open, on_thread, reply_open, post_reply,
}

-- The operation that withRelogin runs, without its account of the requests.
abbrev pub run : {A : Type 0} → (ForumScraper → Posting A) → Op A
run f s = ((f s).0, (f s).1)

module _ (net : ThreadNet) where
  fetch_page-logged_in :
      (url : Text) (s : ForumScraper) → (fetch_page net url s).1.logged_in ≡ s.logged_in
  unfolding fetch_page extract_metadata
  fetch_page-logged_in url s = ground arith

  at_page-logged_in :
      (t total : ℤ) (r : OpResult (List ForumMessage) × ForumScraper)
      → (at_page net t total r).1.logged_in ≡ r.1.logged_in
  unfolding at_page
  at_page-logged_in t total (op_ok ms, s) = refl
  at_page-logged_in t total (op_error e, s) = refl

  read_target-logged_in :
      (url : Text) (t total : ℤ) (d : ThreadDoc) (s : ForumScraper) (b : Bool)
      → (read_target net url t total d s b).1.logged_in ≡ s.logged_in
  unfolding read_target
  read_target-logged_in url t total d s true = refl
  read_target-logged_in url t total d s false =
      at_page-logged_in t total (fetch_page net (thread_page_url net url t) s)
      ∙ fetch_page-logged_in (thread_page_url net url t) s

  first_page-logged_in :
      (url : Text) (page : ℤ) (o : Option ThreadDoc) (s : ForumScraper)
      → (first_page net url page o s).1.logged_in ≡ s.logged_in
  unfolding first_page open_page extract_metadata
  first_page-logged_in url page none s = refl
  first_page-logged_in url page (some d) s =
      read_target-logged_in url (target_page page (count_pages d.side_pages (pos 1)))
        (count_pages d.side_pages (pos 1)) d (record (extract_metadata d s) { thread_url = url })
        (is_first (target_page page (count_pages d.side_pages (pos 1))))

  fetch_thread-logged_in :
      (url : Text) (page : ℤ) (s : ForumScraper)
      → s.logged_in ≡ true
      → (fetch_thread net url page s).1.logged_in ≡ true
  unfolding fetch_thread from_first
  fetch_thread-logged_in url page s h =
      ground (arith, h, first_page-logged_in url page (net.get (thread_page_url net url (pos 1))) s)

  synced-scraper : (r : OpResult ThreadPage × ForumScraper) → (synced r).1 ≡ r.1
  unfolding synced
  synced-scraper (op_ok p, s) = refl
  synced-scraper (op_error e, s) = refl

  ensure_thread-logged_in :
      (want : Text) (s : ForumScraper)
      → s.logged_in ≡ true
      → (ensure_thread net want s).1.logged_in ≡ true
  unfolding ensure_thread
  ensure_thread-logged_in want s h = ground (
    arith,
    h,
    fetch_thread-logged_in want (pos 0) s h,
    synced-scraper (fetch_thread net want (pos 0) s),
  )

-- The operation left the scraper logged in, and its error, if it has one, is no expired session.
Final : {A : Type 0} → Posting A → Type 0
Final (r, s, posts) = (s.logged_in ≡ true) × ¬ (r ≡ op_error op_expired)

fails-Final : (A : Type 0) (s : ForumScraper) → s.logged_in ≡ true → Final {A = A} (fails s)
unfolding Final
fails-Final A s h = (h, (λ e. ground (arith, e)))

Final-if :
    {A : Type 0} (b : Bool) (x y : Posting A) → Final x → Final y → Final (if b then x else y)
Final-if true x y p q = p
Final-if false x y p q = q

answer-Final :
    {A : Type 0} (o : Option (ℕ × Text)) (read : ℕ → Text → OpResult A)
    → ((status : ℕ) (body : Text) → ¬ (read status body ≡ op_error op_expired))
    → ¬ (
        elim o [ none ↦ op_error op_failed | some (status, body) ↦ read status body ]
        ≡ op_error op_expired)
answer-Final none read n e = ground (arith, e)
answer-Final (some (status, body)) read n e = n status body e

module _ (net : PostNet) (num : ℤ) (want text : Text) where
  reply_open-Final :
      (s : ForumScraper) → s.logged_in ≡ true → Final (reply_open net num want text s)
  unfolding reply_open do_post Final
  reply_open-Final s h =
      Final-if (is_empty s.csrf_token || is_empty s.thread_id || is_empty s.forum_id) (fails s) _
        (fails-Final (Unit {0}) s h)
        (h, answer-Final (net.post _) _ (λ status body e. ground (arith, e)))

  on_open-Final :
      (r : Bool × ForumScraper)
      → r.1.logged_in ≡ true
      → Final (on_open (reply_open net num want text) r)
  unfolding on_open
  on_open-Final (true, s) h = reply_open-Final s h
  on_open-Final (false, s) h = fails-Final (Unit {0}) s h

  post_reply-Final :
      (s : ForumScraper)
      → (post_reply net num want text s).2 ≢ []
      → Final (post_reply net num want text s)
  unfolding post_reply on_thread
  post_reply-Final s n = elim (Bool-cases s.logged_in) [
    | inl e ↦ subst Final (ground (arith, e)) (
        on_open-Final (ensure_thread net.threads want s)
          (ensure_thread-logged_in net.threads want s e))
    | inr e ↦ ground (arith, e, n)
  ]

on_open-post_reply-le :
    (net : PostNet) (num : ℤ) (want text : Text) (r : Bool × ForumScraper)
    → length (on_open (reply_open net num want text) r).2 ≤ 1
unfolding on_open reply_open do_post fails
on_open-post_reply-le net num want text (true, s) = ground arith
on_open-post_reply-le net num want text (false, s) = ground arith

-- One run of PostReply posts one request at most.
length-post_reply :
    (net : PostNet) (num : ℤ) (want text : Text) (s : ForumScraper)
    → length (post_reply net num want text s).2 ≤ 1
unfolding post_reply on_thread fails
length-post_reply net num want text s =
    ground (arith, on_open-post_reply-le net num want text (ensure_thread net.threads want s))

one_of : {A : Type 0} (l : List A) → length l ≤ 1 → l ≢ [] → length l ≡ 1
one_of [] h n = absurd (n refl)
one_of (a ∷ l) h n = ground (arith, h)

-- Each run of PostReply posts one request at most, whatever it meets. When the first run under
-- withRelogin has posted something, that is one request, and withRelogin ends with the result of that run,
-- without a re-login and without a second run, so that a reply goes out at most once.
pub with_relogin-post_reply :
    (std : Packages) (rnet : ReloginNet) (net again : PostNet) (num : ℤ) (want text : Text)
    (second : Op (Unit {0})) (s o : ForumScraper) (db : Db)
    → (post_reply net num want text s).2 ≢ []
    → (length (post_reply again num want text o).2 ≤ 1)
      × (length (post_reply net num want text s).2 ≡ 1)
      × (with_relogin std rnet (run (post_reply net num want text)) second s db
          ≡ (api_result (post_reply net num want text s).0, (post_reply net num want text s).1, db))
unfolding with_relogin api_result Final is_plain_failure
with_relogin-post_reply std rnet net again num want text second s o db n = (
  length-post_reply again num want text o,
  one_of (post_reply net num want text s).2 (length-post_reply net num want text s) n,
  plain (post_reply net num want text s) (post_reply-Final net num want text s n),
)
  where
    plain :
        (p : Posting (Unit {0}))
        → Final p
        → with_relogin std rnet (λ o. (p.0, p.1)) second s db ≡ (api_result p.0, p.1, db)
    plain (op_ok u, o, posts) f = refl
    plain (op_error op_expired, o, posts) f = elim (f.1 refl) [ ]
    plain (op_error op_failed, o, posts) f = ground (arith, f.0)
