-- ===== src/Api/FeedLaws.antt =====
-- api.go: what the feed of notifications marks, what the shared cache answers, and who subscribes.
use mediavida.Base.{
  ℕ, suc, ◌+◌, ◌-◌, ◌≤◌, ◌≡◌, ◌≢◌, refl, ap, ◌∙◌, Text, Option, none, some, List, [], ◌∷◌, arith,
  if◌then◌else◌, length, leb, text_key,
}
use mediavida.Base.Int.{pos}
use mediavida.Base.Maps.{lookup-insert_self}
use mediavida.Cache.{Entries, cache_get, cache_set, first_look, is_past}
use mediavida.Stores.ModForums.{ModForums}
use mediavida.Scraper.{ForumScraper, Packages}
use mediavida.Scraper.Recovery.{
  Op, ApiResult, api_ok, api_error, reauth_required, relogin_transient, with_relogin,
}
use mediavida.Scraper.Pages.{NotificationItem}
use mediavida.Scraper.Pages.{ModBubbles}
use mediavida.Sessions.{Server}
use mediavida.Auth.Gate.{scraper, require_authenticated}
use mediavida.Api.{ForumOps}
use mediavida.Api.Dto.{Body, raw}
use mediavida.Api.Routes.{success, RouteEnv, shared, on_required, on_look}
use mediavida.Api.Notices.{mark_unseen, at_most}
use mediavida.Api.Moderators.{check_moderator, as_moderator}

-- How many items are marked as unseen.
unfoldable pub unseen_count : List NotificationItem → ℕ
unseen_count [] = 0
unseen_count (it ∷ items) = let rest = unseen_count items in if it.unseen then suc rest else rest

count_from :
    (n i : ℕ) (items : List NotificationItem)
    → unseen_count (mark_unseen (pos n) i items)
      ≡ (if leb n i then 0 else if leb (i + length items) n then length items else n - i)
unfolding unseen_count mark_unseen
count_from n i [] = ground arith
count_from n i (it ∷ items) = ground (arith, count_from n (suc i) items)

-- GET /notifications marks as many of the items as its answer says are unread, for every number of
-- unread ones, which may be more than there are items.
pub unseen_count-mark_unseen :
    (n : ℕ) (items : List NotificationItem)
    → pos (unseen_count (mark_unseen (at_most (length items) (pos n)) 0 items))
      ≡ at_most (length items) (pos n)
unseen_count-mark_unseen n items =
    ground (arith, count_from n 0 items, count_from (length items) 0 items)

cache_get_hit :
    (key text : Text) (ttl now later : ℕ) (c : Entries)
    → later ≤ now + ttl
    → cache_get key later (cache_set ttl key text now c) later (cache_set ttl key text now c)
      ≡ (some text, cache_set ttl key text now c)
unfolding cache_get first_look cache_set is_past
cache_get_hit key text ttl now later c h =
    ground (arith, h, lookup-insert_self key (record { val = text; expiry = now + ttl }) c)

-- A page that one client's request has put into the shared cache is the answer to every client that
-- passes the gate until its time to live is over, and no request goes to Mediavida for it.
shared-cache_set :
    (std : Packages) (env : RouteEnv) (id : Text) {A : Type 0} (key text : Text) (ttl now : ℕ)
    (marshal : Body → Option Text) (op : ForumOps → Op A) (body : A → Body) (c : Entries)
    (s : ForumScraper) (sv sv' : Server)
    → require_authenticated std env.gate id sv ≡ (scraper s, sv')
    → env.now ≤ now + ttl
    → shared std env id key ttl marshal op body (cache_set ttl key text now c) sv
      ≡ (success (raw text), cache_set ttl key text now c, sv')
unfolding shared on_required on_look
shared-cache_set std env id key text ttl now marshal op body c s sv sv' e h =
    ap (on_required std env id key ttl marshal op body (cache_set ttl key text now c)) e
    ∙ ap (λ l. on_look std env id key ttl marshal op body l s sv')
        (cache_get_hit key text ttl now env.now c h)

module _ (std : Packages) (env : RouteEnv) (id slug : Text) where
  moderator_only :
      (m : ModForums) (sv : Server) (r : ApiResult (Option ModBubbles) × ForumScraper)
      → ((mb : ModBubbles) → r.0 ≢ api_ok (some mb))
      → ((as_moderator std env id slug m sv r).1 ≡ m)
        × ((as_moderator std env id slug m sv r).0.status ≢ 200)
  unfolding as_moderator
  moderator_only m sv (api_ok none, s) n = (refl, (λ e. ground (arith, e)))
  moderator_only m sv (api_ok (some mb), s) n = elim (n mb refl) [ ]
  moderator_only m sv (api_error e, s) n = (refl, (λ e. ground (arith, e)))
  moderator_only m sv (reauth_required e, s) n = (refl, (λ e. ground (arith, e)))
  moderator_only m sv (relogin_transient e, s) n = (refl, (λ e. ground (arith, e)))

  -- POST /mod/forums subscribes nobody who does not moderate the forum: when Mediavida shows the user
  -- no counters of a moderator there, or cannot be asked, even after a re-login, the subscriptions
  -- stay as they are and the answer is no 200.
  check_moderator-only :
      (s : ForumScraper) (m : ModForums) (sv : Server)
      → ((mb : ModBubbles)
          → (with_relogin std env.net
              (env.first.fetch_mod_bubbles slug)
              (env.second.fetch_mod_bubbles slug)
              s
              sv.db).0
            ≢ api_ok (some mb))
      → ((check_moderator std env id slug s m sv).1 ≡ m)
        × ((check_moderator std env id slug s m sv).0.status ≢ 200)
  unfolding check_moderator
  check_moderator-only s m sv n = moderator_only m _ _ n
