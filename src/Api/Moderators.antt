-- ===== src/Api/Moderators.antt =====
-- api.go: the subscriptions of moderators.
use mediavida.Base.{Text, Option, none, some, if◌then◌else◌, is_empty}
use mediavida.Base.Strings.{trim_space}
use mediavida.Stores.ModForums.{ModForums, get_forums, add_forum, remove_forum}
use mediavida.Scraper.{ForumScraper, Packages}
use mediavida.Scraper.Recovery.{
  ApiResult, api_ok, api_error, reauth_required, relogin_transient, with_relogin,
}
use mediavida.Scraper.Pages.{ModBubbles}
use mediavida.Sessions.{Server}
use mediavida.Auth.Gate.{Required, scraper, status_401, status_503, require_authenticated}
use mediavida.Api.Dto.{no_body, mod_forums, mod_forums_added}
use mediavida.Api.Routes.{Response, success, problem, RouteEnv, put_scraper}

-- The server, and the cache of subscriptions beside it.
abbrev pub Subscribed : Type 0
Subscribed = Response × ModForums × Server

module _ (std : Packages) (env : RouteEnv) (client_id : Text) where
  unfoldable pub mod_passed :
      (ForumScraper → ModForums → Server → Subscribed) → ModForums → Required × Server → Subscribed
  mod_passed k m (scraper s, sv) = k s m sv
  mod_passed k m (status_401, sv) = (problem 401, m, sv)
  mod_passed k m (status_503, sv) = (problem 503, m, sv)

  unfoldable pub mod_authenticated :
      (ForumScraper → ModForums → Server → Subscribed) → ModForums → Server → Subscribed
  mod_authenticated k m sv = mod_passed k m (require_authenticated std env.gate client_id sv)

  -- GET /mod/forums
  unfoldable pub get_mod_forums : ModForums → Server → Subscribed
  get_mod_forums =
      mod_authenticated (λ s m sv. (success (mod_forums s.user (get_forums s.user m)), m, sv))

  unfoldable pub subscribe : Text → ForumScraper → ModForums → Server → Subscribed
  subscribe slug s m sv =
      let (added, m', db') = add_forum env.up s.user slug m sv.db in
      (success (mod_forums_added s.user (get_forums s.user m') added), m', record sv { db = db' })

  -- Only the forum's counters show that the user moderates it.
  unfoldable pub as_moderator :
      Text → ModForums → Server → ApiResult (Option ModBubbles) × ForumScraper → Subscribed
  as_moderator slug m sv (api_ok none, s) = (problem 403, m, sv)
  as_moderator slug m sv (api_ok (some mb), s) = subscribe slug s m sv
  as_moderator slug m sv (api_error e, s) = (problem 502, m, sv)
  as_moderator slug m sv (reauth_required e, s) = (problem 401, m, sv)
  as_moderator slug m sv (relogin_transient e, s) = (problem 503, m, sv)

  unfoldable pub check_moderator : Text → ForumScraper → ModForums → Server → Subscribed
  check_moderator slug s m sv =
      let (r, s', db') =
        with_relogin std env.net (env.first.fetch_mod_bubbles slug)
          (env.second.fetch_mod_bubbles slug) s sv.db in
      as_moderator slug m (put_scraper client_id s' (record sv { db = db' })) (r, s')

  unfoldable pub post_forum : Option Text → ForumScraper → ModForums → Server → Subscribed
  post_forum none s m sv = (problem 400, m, sv)
  post_forum (some subforum) s m sv =
      if is_empty (trim_space subforum)
      then (problem 400, m, sv)
      else check_moderator (trim_space subforum) s m sv

  -- POST /mod/forums
  unfoldable pub post_mod_forums : Option Text → ModForums → Server → Subscribed
  post_mod_forums body = mod_authenticated (post_forum body)

  unfoldable pub delete_forum : Text → ForumScraper → ModForums → Server → Subscribed
  delete_forum slug s m sv =
      if is_empty slug
      then (problem 400, m, sv)
      else (let (changed, m', db') = remove_forum env.up s.user slug m sv.db in
          (record { status = 204; body = no_body }, m', record sv { db = db' }))

  -- DELETE /mod/forums/{subforum}
  unfoldable pub delete_mod_forums : Text → ModForums → Server → Subscribed
  delete_mod_forums slug = mod_authenticated (delete_forum slug)
