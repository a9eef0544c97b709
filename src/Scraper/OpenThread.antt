-- ===== src/Scraper/OpenThread.antt =====
-- scraper.go: ensureThread leaves the wanted thread open, and the operations behind it post there.
use native.Mathlib.Decide.{ℕ_discrete}
use mediavida.Base.{
  ◌≡◌, ◌≢◌, refl, sym, ap, ◌∙◌, Bool, true, false, Text, codes, Option, none, some, List, [], ◌||◌,
  arith, if◌then◌else◌, is_empty, text_key, Bool-cases, inl, inr, All,
}
use mediavida.Base.Int.{ℤ, pos}
use mediavida.Base.Keys.{text_discrete}
use mediavida.Base.Maps.{lookup}
use mediavida.Scraper.{ForumScraper}
use mediavida.Scraper.Login.{Outcome, done, error, LoginNet, login, verified, login_posted}
use mediavida.Scraper.Recovery.{OpResult, op_ok, op_error}
use mediavida.Scraper.Threads.{
  ThreadDoc, ThreadPage, ForumMessage, thread_page_url, extract_metadata, count_pages, target_page,
  is_first, fetch_page, at_page, read_target, open_page, first_page, from_first, after_log_in,
  fetch_thread, synced, ensure_thread,
}
use mediavida.Scraper.Posting.{
  PostRequest, PostNet, Posting, do_post, on_open, on_thread, like_open, like_after, like_message,
  edit_open, edit_message, reply_open, post_reply, Decoders,
}

-- The POST names this thread.
abbrev pub Targets : Text → PostRequest → Type 0
Targets tid r = lookup (codes "tid") r.form ≡ some tid

pub login-thread :
    (net : LoginNet) (s : ForumScraper)
    → ((login net s).1.thread_id ≡ s.thread_id) × ((login net s).1.thread_url ≡ s.thread_url)
unfolding login login_posted verified
login-thread net s = (ground arith, ground arith)

All-if :
    {A : Type 0} (P : PostRequest → Type 0) (b : Bool) (x y : Posting A)
    → All P x.2
    → All P y.2
    → All P (if b then x else y).2
All-if P true x y p q = p
All-if P false x y p q = q

-- A thread `tid`, and a condition `Start` on scrapers under which each page of the wanted URL leaves
-- that thread open.
module _ (net : PostNet) (want tid : Text) where
  pub reply_open-tid :
      (num : ℤ) (text : Text) (s : ForumScraper)
      → s.thread_id ≡ tid
      → All (Targets tid) (reply_open net num want text s).2
  unfolding reply_open do_post lookup text_discrete ℕ_discrete
  reply_open-tid num text s h =
      All-if (Targets tid) (is_empty s.csrf_token || is_empty s.thread_id || is_empty s.forum_id) _
        _ tt (ap some h, tt)

module _ (net : PostNet) (want tid : Text) (Start : ForumScraper → Type 0)
    (again : (s : ForumScraper) → s.thread_id ≡ tid → Start s)
    (opens : (n : ℤ) (d : ThreadDoc) (s : ForumScraper)
      → net.threads.get (thread_page_url net.threads want n) ≡ some d
      → Start s
      → (extract_metadata d s).thread_id ≡ tid) where
  -- If the scraper's thread is the wanted one by its URL, it is by its identifier.
  abbrev pub Belongs : ForumScraper → Type 0
  Belongs s = s.thread_url ≡ want → s.thread_id ≡ tid

  page-tid :
      (n : ℤ) (o : Option ThreadDoc) (s : ForumScraper)
      → net.threads.get (thread_page_url net.threads want n) ≡ o
      → s.thread_id ≡ tid
      → (fetch_page net.threads (thread_page_url net.threads want n) s).1.thread_id ≡ tid
  unfolding fetch_page
  page-tid n none s e h = ground (arith, e, h)
  page-tid n (some d) s e h = ground (arith, e, h, opens n d s e (again s h))

  at_page-scraper :
      (t total : ℤ) (r : OpResult (List ForumMessage) × ForumScraper)
      → (at_page net.threads t total r).1 ≡ r.1
  unfolding at_page
  at_page-scraper t total (op_ok ms, s) = refl
  at_page-scraper t total (op_error e, s) = refl

  read_target-tid :
      (t total : ℤ) (d : ThreadDoc) (s : ForumScraper) (b : Bool)
      → s.thread_id ≡ tid
      → (read_target net.threads want t total d s b).1.thread_id ≡ tid
  unfolding read_target
  read_target-tid t total d s true h = h
  read_target-tid t total d s false h =
      ap (λ (x : ForumScraper). x.thread_id)
        (at_page-scraper t total (fetch_page net.threads (thread_page_url net.threads want t) s))
      ∙ page-tid t (net.threads.get (thread_page_url net.threads want t)) s refl h

  first_page-tid :
      (page : ℤ) (o : Option ThreadDoc) (s : ForumScraper)
      → Start s
      → net.threads.get (thread_page_url net.threads want (pos 1)) ≡ o
      → (synced (first_page net.threads want page o s)).0 ≡ true
      → (first_page net.threads want page o s).1.thread_id ≡ tid
  unfolding first_page open_page synced
  first_page-tid page none s st e h = ground (arith, h)
  first_page-tid page (some d) s st e h =
      read_target-tid (target_page page (count_pages d.side_pages (pos 1)))
        (count_pages d.side_pages (pos 1)) d (record (extract_metadata d s) { thread_url = want })
        (is_first (target_page page (count_pages d.side_pages (pos 1)))) (opens (pos 1) d s e st)

  after_log_in-tid :
      (r : Outcome × ForumScraper)
      → Start r.1
      → (synced (after_log_in net.threads want (pos 0) r)).0 ≡ true
      → (after_log_in net.threads want (pos 0) r).1.thread_id ≡ tid
  unfolding after_log_in from_first synced
  after_log_in-tid (error e, s) st h = ground (arith, h)
  after_log_in-tid (done, s) st h =
      first_page-tid (pos 0) (net.threads.get (thread_page_url net.threads want (pos 1))) s st refl
        h

  fetch_thread-tid :
      (s : ForumScraper)
      → Start s
      → Start (login net.threads.login_net s).1
      → (synced (fetch_thread net.threads want (pos 0) s)).0 ≡ true
      → (fetch_thread net.threads want (pos 0) s).1.thread_id ≡ tid
  unfolding fetch_thread from_first
  fetch_thread-tid s st sl h = elim (Bool-cases s.logged_in) [
    | inl e ↦ ground (
      arith,
      e,
      h,
      first_page-tid (pos 0) (net.threads.get (thread_page_url net.threads want (pos 1))) s st refl,
    )
    | inr e ↦ ground (arith, e, h, after_log_in-tid (login net.threads.login_net s) sl)
  ]

  synced-scraper : (r : OpResult ThreadPage × ForumScraper) → (synced r).1 ≡ r.1
  unfolding synced
  synced-scraper (op_ok p, s) = refl
  synced-scraper (op_error e, s) = refl

  ensure_thread-tid :
      (s : ForumScraper)
      → Start s
      → Start (login net.threads.login_net s).1
      → want ≢ []
      → Belongs s
      → (ensure_thread net.threads want s).0 ≡ true
      → (ensure_thread net.threads want s).1.thread_id ≡ tid
  unfolding ensure_thread
  ensure_thread-tid s st sl w b h = ground (
    arith,
    w,
    b,
    h,
    fetch_thread-tid s st sl,
    synced-scraper (fetch_thread net.threads want (pos 0) s),
  )

  -- What an operation posts behind ensureThread goes to the wanted thread, if it goes to the open one.
  on_open-tid :
      {A : Type 0} (k : ForumScraper → Posting A) (r : Bool × ForumScraper)
      → ((s : ForumScraper) → s.thread_id ≡ tid → All (Targets tid) (k s).2)
      → (r.0 ≡ true → r.1.thread_id ≡ tid)
      → All (Targets tid) (on_open k r).2
  unfolding on_open
  on_open-tid k (true, s) to h = to s (h refl)
  on_open-tid k (false, s) to h = tt

  on_thread-tid :
      {A : Type 0} (k : ForumScraper → Posting A) (s : ForumScraper)
      → ((o : ForumScraper) → o.thread_id ≡ tid → All (Targets tid) (k o).2)
      → Start s
      → Start (login net.threads.login_net s).1
      → want ≢ []
      → Belongs s
      → All (Targets tid) (on_thread net want k s).2
  unfolding on_thread
  on_thread-tid k s to st sl w b =
      on_open-tid k (ensure_thread net.threads want s) to (ensure_thread-tid s st sl w b)

  edit_open-tid :
      (num : ℤ) (js : Decoders) (text : Text) (s : ForumScraper)
      → s.thread_id ≡ tid
      → All (Targets tid) (edit_open net num want js text s).2
  unfolding edit_open do_post lookup text_discrete ℕ_discrete
  edit_open-tid num js text s h =
      All-if (Targets tid) (is_empty s.thread_id || is_empty s.csrf_token) _ _ tt (ap some h, tt)

  like_open-tid :
      (num : ℤ) (s : ForumScraper)
      → s.thread_id ≡ tid
      → All (Targets tid) (like_open net num want s).2
  unfolding like_open do_post lookup text_discrete ℕ_discrete
  like_open-tid num s h =
      All-if (Targets tid) (is_empty s.thread_id || is_empty s.csrf_token) _ _ tt (ap some h, tt)

  pub reply-tid :
      (num : ℤ) (text : Text) (s : ForumScraper)
      → Start s
      → Start (login net.threads.login_net s).1
      → want ≢ []
      → Belongs s
      → All (Targets tid) (post_reply net num want text s).2
  unfolding post_reply
  reply-tid num text s st sl w b =
      All-if (Targets tid) s.logged_in _ _
        (on_thread-tid (reply_open net num want text) s (reply_open-tid net want tid num text) st sl
          w b)
        tt

  pub edit-tid :
      (num : ℤ) (text : Text) (js : Decoders) (s : ForumScraper)
      → Start s
      → Start (login net.threads.login_net s).1
      → want ≢ []
      → Belongs s
      → All (Targets tid) (edit_message net num want js text s).2
  unfolding edit_message
  edit-tid num text js s st sl w b =
      All-if (Targets tid) s.logged_in _ _
        (on_thread-tid (edit_open net num want js text) s (edit_open-tid num js text) st sl w b) tt

  like_after-tid :
      (num : ℤ) (r : Outcome × ForumScraper)
      → Start r.1
      → Start (login net.threads.login_net r.1).1
      → want ≢ []
      → Belongs r.1
      → All (Targets tid) (like_after net num want r).2
  unfolding like_after
  like_after-tid num (done, s) st sl w b =
      on_thread-tid (like_open net num want) s (like_open-tid num) st sl w b
  like_after-tid num (error e, s) st sl w b = tt

  login-Belongs : (l : LoginNet) (s : ForumScraper) → Belongs s → Belongs (login l s).1
  login-Belongs l s b u = (login-thread l s).0 ∙ b (sym (login-thread l s).1 ∙ u)

  pub like-tid :
      (num : ℤ) (s : ForumScraper)
      → ((o : ForumScraper) → Start o)
      → want ≢ []
      → Belongs s
      → All (Targets tid) (like_message net num want s).2
  unfolding like_message
  like-tid num s st w b =
      All-if (Targets tid) s.logged_in _ _
        (on_thread-tid (like_open net num want) s (like_open-tid num) (st s) (st _) w b)
        (like_after-tid num (login net.threads.login_net s) (st _) (st _) w
          (login-Belongs net.threads.login_net s b))
