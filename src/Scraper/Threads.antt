-- ===== src/Scraper/Threads.antt =====
-- scraper.go: the thread that a scraper has open, and FetchThread. What goquery finds in a page is a
-- parameter.
use mediavida.Base.{
  ℕ, suc, Bool, true, false, Text, codes, Option, none, some, List, [], ◌∷◌, ◌++◌, ◌||◌,
  if◌then◌else◌, is_empty, ◌==◌, same, text_key,
}
use mediavida.Base.Int.{ℤ, pos, negsuc, leb_ℤ, ltb_ℤ}
use mediavida.Base.Strings.{contains, cut}
use mediavida.Numbers.{atoi, itoa}
use mediavida.Scraper.{ForumScraper}
use mediavida.Scraper.Login.{Outcome, done, error, LoginNet, login}
use mediavida.Scraper.Recovery.{OpResult, op_ok, op_error, op_failed}

pub record ForumMessage : Type 0 where
  pub author : Text
  pub body : Text
  pub body_html : Text
  pub avatar : Text
  pub date : Text
  pub time : ℤ
  pub num : ℤ
  pub liked : Bool
  pub replies : ℤ

pub record ThreadPage : Type 0 where
  pub messages : List ForumMessage
  pub current_page : ℤ
  pub total_pages : ℤ

-- A page of a thread: its HTTP status, the values of its hidden inputs, the texts of the links to
-- its pages, and its messages.
pub record ThreadDoc : Type 0 where
  pub status : ℕ
  pub tid : Text
  pub token : Text
  pub fid : Text
  pub pagina : Text
  pub side_pages : List Text
  pub messages : List ForumMessage

-- The answers to the requests of one operation: those of a log-in, each page by its URL (`none`: the
-- request or the parse fails), and the URL that net/url makes of one whose query sets "pagina"
-- (`none`: it does not parse).
pub record ThreadNet : Type 0 where
  pub login_net : LoginNet
  pub get : Text → Option ThreadDoc
  pub set_pagina : Text → ℤ → Option Text

-- strconv.Itoa
unfoldable pub print_int : ℤ → Text
print_int (pos n) = itoa n
print_int (negsuc n) = b'-' ∷ itoa (suc n)

unfoldable pub drop_fragment : Text → Text
drop_fragment url = elim (cut b'#' url) [ none ↦ url | some p ↦ p.0 ]

pretty_page_url : Text → ℤ → Text
pretty_page_url url page = if leb_ℤ page (pos 1) then url else url ++ b'/' ∷ print_int page

module _ (net : ThreadNet) where
  -- threadPageURL
  unfoldable pub thread_page_url : Text → ℤ → Text
  unfolding pretty_page_url
  thread_page_url url0 page =
      let url = drop_fragment url0 in
      if contains url (codes "tema.php") || contains url (codes "tid=")
      then elim (net.set_pagina url page) [ none ↦ pretty_page_url url page | some u ↦ u ]
      else pretty_page_url url page

-- The new value where the page has one.
abbrev pub or_old : Text → Text → Text
or_old new old = if is_empty new then old else new

-- extractMetadata
unfoldable pub extract_metadata : ThreadDoc → ForumScraper → ForumScraper
extract_metadata d s = record s {
  thread_id = or_old d.tid s.thread_id;
  csrf_token = or_old d.token s.csrf_token;
  forum_id = or_old d.fid s.forum_id;
  page_num = or_old d.pagina s.page_num;
}

-- The highest page that the links name, and at least `total`.
unfoldable pub count_pages : List Text → ℤ → ℤ
count_pages [] total = total
count_pages (t ∷ ts) total = elim (atoi t) [
  | none ↦ count_pages ts total
  | some n ↦ count_pages ts (if ltb_ℤ total n then n else total)
]

-- The page to read: the last one by default, and none behind it.
unfoldable pub target_page : ℤ → ℤ → ℤ
target_page page total =
    let target = if leb_ℤ page (pos 0) then total else page in
    if ltb_ℤ total target then total else target

abbrev pub is_first : ℤ → Bool
is_first (pos n) = n == 1
is_first (negsuc n) = false

unfoldable pub synced : OpResult ThreadPage × ForumScraper → Bool × ForumScraper
synced (op_ok p, s) = (true, s)
synced (op_error e, s) = (false, s)

module _ (net : ThreadNet) where
  -- fetchPage
  unfoldable pub fetch_page : Text → ForumScraper → OpResult (List ForumMessage) × ForumScraper
  fetch_page url s = elim (net.get url) [
    | none ↦ (op_error op_failed, s)
    | some d ↦
        if d.status == 404
        then (op_error op_failed, s)
        else (op_ok d.messages, extract_metadata d s)
  ]

  unfoldable pub at_page :
      ℤ → ℤ → OpResult (List ForumMessage) × ForumScraper → OpResult ThreadPage × ForumScraper
  at_page target total (op_error e, s) = (op_error op_failed, s)
  at_page target total (op_ok ms, s) =
      (op_ok (record { messages = ms; current_page = target; total_pages = total }), s)

  -- The messages of the target page: those of the first page, or another one is fetched.
  unfoldable pub read_target :
      Text → ℤ → ℤ → ThreadDoc → ForumScraper → Bool → OpResult ThreadPage × ForumScraper
  read_target url target total d s true =
      (op_ok (record { messages = d.messages; current_page = pos 1; total_pages = total }), s)
  read_target url target total d s false =
      at_page target total (fetch_page (thread_page_url net url target) s)

  -- The part of FetchThread behind its first page; `s` has that page's metadata and the URL.
  unfoldable pub open_page :
      Text → ℤ → ThreadDoc → ForumScraper → OpResult ThreadPage × ForumScraper
  open_page url page d s =
      let total = count_pages d.side_pages (pos 1) in
      let target = target_page page total in read_target url target total d s (is_first target)

  unfoldable pub first_page :
      Text → ℤ → Option ThreadDoc → ForumScraper → OpResult ThreadPage × ForumScraper
  first_page url page none s = (op_error op_failed, s)
  first_page url page (some d) s =
      open_page url page d (record (extract_metadata d s) { thread_url = url })

  unfoldable pub from_first : Text → ℤ → ForumScraper → OpResult ThreadPage × ForumScraper
  from_first url page s = first_page url page (net.get (thread_page_url net url (pos 1))) s

  unfoldable pub after_log_in :
      Text → ℤ → Outcome × ForumScraper → OpResult ThreadPage × ForumScraper
  after_log_in url page (error e, s) = (op_error op_failed, s)
  after_log_in url page (done, s) = from_first url page s

  -- FetchThread
  unfoldable pub fetch_thread : Text → ℤ → ForumScraper → OpResult ThreadPage × ForumScraper
  fetch_thread url page s =
      if s.logged_in then from_first url page s else after_log_in url page (login net.login_net s)

  -- ensureThread: whether it returns nil.
  unfoldable pub ensure_thread : Text → ForumScraper → Bool × ForumScraper
  ensure_thread want s =
      if is_empty want || same s.thread_url want
      then (true, s)
      else synced (fetch_thread want (pos 0) s)
