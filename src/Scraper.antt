-- ===== src/Scraper.antt =====
-- scraper.go: the logged-in side of `ForumScraper`. The page parsers are not modelled.
pub mod Cookies
pub mod Login
pub mod Recovery
pub mod Laws
pub mod Roundtrip
pub mod Pages
pub mod Threads
pub mod Totp
pub mod TotpLaws
pub mod Posting
pub mod Messages
pub mod ThreadLaws
pub mod OpenThread
pub mod PostingLaws
pub mod OnceLaws
use mediavida.Base.{ℕ, Bool, Text, List, Option}
use mediavida.Base.Int.{ℤ}

-- http.Cookie and savedCookie, which have the same fields. `none` is the zero time.
pub record Cookie : Type 0 where
  pub name : Text
  pub value : Text
  pub domain : Text
  pub path : Text
  pub expires : Option ℕ
  pub max_age : ℤ
  pub secure : Bool
  pub http_only : Bool

pub record SavedSession : Type 0 where
  pub user : Text
  pub pass : Text
  pub cookies : List Cookie

-- `jar` is what the cookie jar answers for www.mediavida.com.
pub record ForumScraper : Type 0 where
  pub user : Text
  pub pass : Text
  pub client_id : Text
  pub logged_in : Bool
  pub totp_secret : Text
  pub jar : List Cookie
  pub last_cookie_fingerprint : Text
  pub last_save_time : ℕ
  pub csrf_token : Text
  pub thread_id : Text
  pub forum_id : Text
  pub page_num : Text
  pub thread_url : Text

-- The packages that the scraper calls: encoding/json at `savedSession`, crypto/sha256 in hex, and
-- net/http/cookiejar: the jar after SetCookies, from the new cookies and the old jar.
pub record Packages : Type 0 where
  pub marshal : SavedSession → Text
  pub unmarshal : Text → Option SavedSession
  pub sha256_hex : Text → Text
  pub set_cookies : List Cookie → List Cookie → List Cookie
