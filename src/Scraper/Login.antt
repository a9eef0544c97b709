-- ===== src/Scraper/Login.antt =====
-- scraper.go: Login, SubmitGuard, ValidateSession, RefreshSession and FetchBubbles, over what the
-- requests of one call answer.
use mediavida.Base.{
  ℕ, Bool, true, false, Text, codes, Option, none, some, List, [], ◌∷◌, ◌++◌, ◌&&◌, not,
  if◌then◌else◌, ltb, ◌==◌, same, text_key,
}
use mediavida.Base.Int.{ℤ, pos}
use mediavida.Base.Strings.{contains, has_prefix, trim_space}
use mediavida.Scraper.{Cookie, ForumScraper}

pub data LoginError : Type 0 where
  guard_required : Text → LoginError
  no_csrf_token no_session_cookie request_failed invalid_code invalid_totp_secret : LoginError

pub data Outcome : Type 0 where
  done : Outcome
  error : LoginError → Outcome

-- The answers to the requests of one Login. `page`: `none` if GET /login fails, else the value of
-- #_token if the page has one. `post`: status and Location. `follow`, `home`: whether the GET of
-- the redirect and of the home page succeed. `cookies`: the jar in the end.
pub record LoginNet : Type 0 where
  pub page : Option (Option Text)
  pub post : Option (ℕ × Text)
  pub follow : Bool
  pub home : Bool
  pub cookies : List Cookie

-- Whether some cookie is not `_l`.
unfoldable pub has_session : List Cookie → Bool
has_session [] = false
has_session (c ∷ cs) = let rest = has_session cs in if same c.name (codes "_l") then rest else true

unfoldable pub verified : LoginError → Bool → List Cookie → ForumScraper → Outcome × ForumScraper
verified e home cookies s =
    if home
    then (if has_session cookies then (done, record s { logged_in = true }) else (error e, s))
    else (error request_failed, s)

abbrev pub site : Text
site = codes "https://www.mediavida.com"

unfoldable pub guard_url : Text → Text
guard_url loc = if has_prefix loc (codes "http") then loc else site ++ loc

unfoldable pub login_posted : LoginNet → ℕ → Text → ForumScraper → Outcome × ForumScraper
login_posted net status loc s =
    let check = verified no_session_cookie net.home net.cookies s in
    if status == 302
    then (if contains loc (codes "/login/guard/")
        then (error (guard_required (guard_url loc)), s)
        else if net.follow
        then check
        else (error request_failed, s))
    else check

-- Whatever the end, the jar is the one that the requests left.
unfoldable pub login : LoginNet → ForumScraper → Outcome × ForumScraper
login net s0 =
    let s : ForumScraper = record s0 { jar = net.cookies } in
    elim net.page [
      | none ↦ (error request_failed, s)
      | some none ↦ (error no_csrf_token, s)
      | some (some token) ↦ elim net.post [
        | none ↦ (error request_failed, s)
        | some (status, loc) ↦ login_posted net status loc s
      ]
    ]

-- The answers to the POST of a code and to the GET of the home page behind it.
pub record GuardNet : Type 0 where
  pub post : Bool
  pub home : Bool
  pub cookies : List Cookie

unfoldable pub submit_guard : GuardNet → ForumScraper → Outcome × ForumScraper
submit_guard net s0 =
    let s : ForumScraper = record s0 { jar = net.cookies } in
    if net.post then verified invalid_code net.home net.cookies s else (error request_failed, s)

-- The answer to GET /login behind its redirects: status, final path, whether the body is read and
-- parsed, whether it has the form, and how many logout links.
pub record LoginPage : Type 0 where
  pub status : ℕ
  pub path : Text
  pub readable : Bool
  pub has_form : Bool
  pub logout_links : ℕ

unfoldable pub validate_session : Option LoginPage → Bool
validate_session none = false
validate_session (some p) =
    if p.status == 200
    then (if same p.path (codes "/login")
        then p.readable && not p.has_form && ltb 0 p.logout_links
        else true)
    else false

-- RefreshSession: whether it returns nil. `home` is the status of the home page, if it answers.
unfoldable pub refresh_session : Option ℕ → ForumScraper → Bool
refresh_session home s = s.logged_in && elim home [ none ↦ false | some status ↦ status == 200 ]

pub record Bubbles : Type 0 where
  pub messages : ℤ
  pub notifications : ℤ
  pub favorites : ℤ

-- The JSON of a body at the two types that FetchBubbles tries, one after the other.
pub data BubblesJson : Type 0 where
  object : Bubbles → BubblesJson
  numbers : List ℤ → BubblesJson
  neither : BubblesJson

-- status, body and what encoding/json makes of the body; `none` if the request or the read fails.
pub record BubblesAnswer : Type 0 where
  pub status : ℕ
  pub body : Text
  pub json : BubblesJson

pub data BubblesResult : Type 0 where
  bubbles : Bubbles → BubblesResult
  session_expired fetch_failed : BubblesResult

-- len(trimmed) == 0 || trimmed[0] == '<'
unfoldable pub is_html : Text → Bool
is_html [] = true
is_html (c ∷ s) = c == b'<'

abbrev pub no_bubbles : Bubbles
no_bubbles = record { messages = pos 0; notifications = pos 0; favorites = pos 0 }

unfoldable pub decoded : BubblesJson → ForumScraper → BubblesResult × ForumScraper
decoded (object b) s = (bubbles b, s)
decoded (numbers []) s = (session_expired, record s { logged_in = false })
decoded (numbers (m ∷ [])) s = (bubbles no_bubbles, s)
decoded (numbers (m ∷ n ∷ [])) s = (bubbles no_bubbles, s)
decoded (numbers (m ∷ n ∷ f ∷ rest)) s =
    (bubbles (record { messages = m; notifications = n; favorites = f }), s)
decoded neither s = (fetch_failed, s)

unfoldable pub fetch_bubbles : Option BubblesAnswer → ForumScraper → BubblesResult × ForumScraper
fetch_bubbles answer s =
    if s.logged_in
    then elim answer [
      | none ↦ (fetch_failed, s)
      | some a ↦
          if a.status == 200
          then (if is_html (trim_space a.body)
              then (session_expired, record s { logged_in = false })
              else decoded a.json s)
          else (fetch_failed, s)
    ]
    else (fetch_failed, s)
