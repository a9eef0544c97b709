-- ===== src/Scraper/Cookies.antt =====
-- scraper.go: which cookies are saved, when, and how a scraper comes back from a durable record.
use mediavida.Base.{
  ℕ, ◌+◌, ◌*◌, Bool, true, false, Text, codes, Option, none, some, List, [], ◌∷◌, ◌++◌, map, ◌&&◌,
  ◌||◌, not, if◌then◌else◌, ltb, same, text_key, is_empty,
}
use mediavida.Base.Int.{pos, int_key}
use mediavida.Base.Strings.{to_lower, contains, equal_fold}
use mediavida.Base.Sort.{sort_strings}
use mediavida.Store.{SessionRecord, Db, Reply, ok, failed}
use mediavida.Store.Sessions.{put_session, get_session, delete_session}
use mediavida.Scraper.{Cookie, SavedSession, ForumScraper, Packages}

unfoldable pub is_auth_cookie : Text → Bool
is_auth_cookie name =
    if same name (codes "sess")
      || same name (codes "_t")
      || same name (codes "remember")
      || same name (codes "mvauth")
      || same name (codes "auth")
    then true
    else (let lower = to_lower name in
        contains lower (codes "sess") || contains lower (codes "remember"))

-- name=value of the auth cookies, in the order of the jar.
unfoldable pub auth_pairs : List Cookie → List Text
auth_pairs [] = []
auth_pairs (c ∷ cs) =
    let rest = auth_pairs cs in
    if is_auth_cookie c.name then (c.name ++ b'=' ∷ c.value) ∷ rest else rest

-- strings.Join with a zero byte between the parts.
unfoldable pub join_zero : List Text → Text
join_zero [] = []
join_zero (p ∷ []) = p
join_zero (p ∷ q ∷ ps) = p ++ 0 ∷ join_zero (q ∷ ps)

-- 30 days in seconds.
abbrev pub month : ℕ
month = 30 * 24 * 3600

-- A cookie as SaveSession writes it.
unfoldable pub saved_cookie : ℕ → Cookie → Cookie
saved_cookie now c = record c {
  domain = codes "www.mediavida.com";
  path = codes "/";
  expires = elim c.expires [
    | none ↦ if same c.max_age (pos 0) then some (now + month) else none
    | some t ↦ some t
  ];
}

-- sc.Expires.Before(time.Now()) of a cookie with an expiry.
unfoldable pub is_stale : ℕ → Cookie → Bool
is_stale now c = elim c.expires [ none ↦ false | some t ↦ ltb t now ]

unfoldable pub live_cookies : ℕ → List Cookie → List Cookie
live_cookies now [] = []
live_cookies now (c ∷ cs) =
    let rest = live_cookies now cs in if is_stale now c then rest else c ∷ rest

-- NewForumScraper
unfoldable pub new_scraper : Text → Text → Text → ForumScraper
new_scraper user pass client_id = record {
  user = user;
  pass = pass;
  client_id = client_id;
  logged_in = false;
  totp_secret = [];
  jar = [];
  last_cookie_fingerprint = [];
  last_save_time = 0;
  csrf_token = [];
  thread_id = [];
  forum_id = [];
  page_num = [];
  thread_url = [];
}

-- MatchesCredentials
unfoldable pub matches_credentials : Text → Text → ForumScraper → Bool
matches_credentials user pass s =
    not (is_empty s.pass) && same s.pass pass && equal_fold s.user user

-- The credentials of a record: those in the saved session first, else the columns.
unfoldable pub with_credentials : SavedSession → SessionRecord → ForumScraper → ForumScraper
with_credentials sess rec s =
    if not (is_empty sess.user)
    then record s { user = sess.user; pass = sess.pass }
    else if not (is_empty rec.user)
    then record s { user = rec.user; pass = rec.pass }
    else s

module _ (std : Packages) where
  unfoldable pub auth_cookie_fingerprint : List Cookie → Text
  auth_cookie_fingerprint cookies = std.sha256_hex (join_zero (sort_strings (auth_pairs cookies)))

  unfoldable pub session_record : ℕ → ForumScraper → SessionRecord
  session_record now s = record {
    client_id = s.client_id;
    user = s.user;
    pass = s.pass;
    cookies =
        std.marshal
          (record { user = s.user; pass = s.pass; cookies = map (saved_cookie now) s.jar });
  }

  stored : ℕ → ForumScraper → Reply (Unit {0}) × Db → ForumScraper × Db
  stored now s (ok u, db) = (
    record s { last_cookie_fingerprint = auth_cookie_fingerprint s.jar; last_save_time = now },
    db,
  )
  stored now s (failed, db) = (s, db)

  -- SaveSession: `up` says whether SQLite answers the write.
  unfoldable pub save_session : Bool → ℕ → ForumScraper → Db → ForumScraper × Db
  unfolding stored
  save_session up now s db =
      let fp = auth_cookie_fingerprint s.jar in
      if same fp s.last_cookie_fingerprint && not (is_empty s.last_cookie_fingerprint)
      then (s, db)
      else stored now s (put_session up (session_record now s) now db)

  installed : List Cookie → ForumScraper → Bool × ForumScraper
  installed [] s = (false, s)
  installed (c ∷ cs) s = (
    true,
    record s {
      jar = std.set_cookies (c ∷ cs) s.jar;
      last_cookie_fingerprint = auth_cookie_fingerprint (c ∷ cs);
      logged_in = true;
    },
  )

  loaded : ℕ → SessionRecord → Option SavedSession → ForumScraper → Bool × ForumScraper
  loaded now rec none s = (false, s)
  loaded now rec (some sess) s = elim sess.cookies [
    | [] ↦ (false, s)
    | c ∷ cs ↦ installed (live_cookies now (c ∷ cs)) (with_credentials sess rec s)
  ]

  -- loadFromRecord
  unfoldable pub load_from_record : ℕ → SessionRecord → ForumScraper → Bool × ForumScraper
  unfolding loaded installed
  load_from_record now rec s = loaded now rec (std.unmarshal rec.cookies) s

  unfoldable pub load_session : Bool → ℕ → ForumScraper → Db → Bool × ForumScraper
  load_session up now s db = elim (get_session up s.client_id db) [
    | failed ↦ (false, s)
    | ok none ↦ (false, s)
    | ok (some rec) ↦ load_from_record now rec s
  ]

-- ClearSession: the record goes if SQLite answers; the login state and the jar go always.
unfoldable pub clear_session : Bool → ForumScraper → Db → ForumScraper × Db
clear_session up s db = (
  record s { logged_in = false; last_cookie_fingerprint = []; jar = [] },
  (delete_session up s.client_id db).1,
)

-- A cookie as the app puts it into its embedded browser.
pub record WebCookie : Type 0 where
  pub name : Text
  pub value : Text
  pub domain : Text
  pub path : Text
  pub secure : Bool

-- WebCookies: the jar gives back only names and values.
unfoldable pub web_cookies : ForumScraper → List WebCookie
web_cookies s =
    map
      (λ (c : Cookie). record {
        name = c.name;
        value = c.value;
        domain = codes ".mediavida.com";
        path = codes "/";
        secure = true;
      })
      s.jar
