-- ===== src/Api/Notices.antt =====
-- api.go: notifications, bubbles, pushes, the event stream's gate and webhooks.
use mediavida.Base.{
  ℕ, suc, Text, codes, Option, none, some, List, [], ◌∷◌, if◌then◌else◌, is_empty, length,
}
use mediavida.Base.Int.{ℤ, pos, ltb_ℤ}
use mediavida.Base.Strings.{trim_space}
use mediavida.Store.{Reply, ok, failed}
use mediavida.Stores.Pending
use mediavida.Stores.Webhooks
use mediavida.Stores.FcmTokens
use mediavida.Scraper.{Packages}
use mediavida.Scraper.Cookies.{web_cookies}
use mediavida.Scraper.Login.{Bubbles}
use mediavida.Scraper.Recovery.{OpResult, op_ok, op_error}
use mediavida.Scraper.Pages.{NotificationItem}
use mediavida.Sessions.{Session, is_authenticated, Server}
use mediavida.Sessions.Restore.{lookup_session}
use mediavida.Api.Dto.{
  no_body, status_body, mv_cookies, notifications, counters, webhook, notifications_dto,
}
use mediavida.Api.Routes.{
  Response, success, problem, RouteEnv, Handler, authenticated, fetching, saving, reject,
  put_scraper,
}
use mediavida.Api.Writing.{decoded}

-- items[i].Unseen = i < unread, from index `i` on.
unfoldable pub mark_unseen : ℤ → ℕ → List NotificationItem → List NotificationItem
mark_unseen unread i [] = []
mark_unseen unread i (it ∷ items) =
    record it { unseen = ltb_ℤ (pos i) unread } ∷ mark_unseen unread (suc i) items

-- The larger of the pending count and the counter of the bubbles, if these were fetched.
unfoldable pub unread_count : ℕ → OpResult Bubbles → ℤ
unread_count pending (op_error e) = pos pending
unread_count pending (op_ok b) =
    if ltb_ℤ (pos pending) b.notifications then b.notifications else pos pending

abbrev pub at_most : ℕ → ℤ → ℤ
at_most n k = if ltb_ℤ (pos n) k then pos n else k

module _ (std : Packages) (env : RouteEnv) (client_id : Text) where
  -- The rest of GET /notifications behind the fetch.
  unfoldable pub seen_feed : ℤ → List NotificationItem → Handler
  seen_feed unread items s sv =
      let shown = at_most (length items) unread in
      saving std env client_id (notifications shown (notifications_dto (mark_unseen shown 0 items)))
        s (record sv { db = Pending.clear env.up client_id sv.db })

  -- GET /notifications: the bubbles are fetched without a re-login.
  unfoldable pub get_notifications : Server → Response × Server
  get_notifications = authenticated std env client_id (λ s sv.
      let (b, s') = env.first.fetch_bubbles s in
      fetching std env client_id (λ o. o.fetch_notifications)
        (seen_feed (unread_count (Pending.count env.up client_id sv.db) b)) s'
        (put_scraper client_id s' sv))

  -- GET /bubbles
  unfoldable pub get_bubbles : Server → Response × Server
  get_bubbles = authenticated std env client_id (
      fetching std env client_id (λ o. o.fetch_bubbles)
        (λ b s sv. (
          success (
              counters b.messages (unread_count (Pending.count env.up client_id sv.db) (op_ok b))
                b.favorites),
          sv,
        )))

  -- POST /push/register; these two routes have no gate but the token's.
  unfoldable pub post_push : Option Text → Server → Response × Server
  post_push none sv = (problem 400, sv)
  post_push (some token) sv = if is_empty (trim_space token) then (problem 400, sv) else (
    success (status_body (codes "registered")),
    record sv { db = FcmTokens.add env.up client_id (trim_space token) sv.db },
  )

  -- DELETE /push/register
  unfoldable pub delete_push : Option Text → Server → Response × Server
  delete_push none sv = (problem 400, sv)
  delete_push (some token) sv = (
    success (status_body (codes "unregistered")),
    record sv { db = FcmTokens.remove env.up client_id (trim_space token) sv.db },
  )

  -- GET /auth/mv-cookies
  unfoldable pub get_mv_cookies : Server → Response × Server
  get_mv_cookies =
      authenticated std env client_id (λ s sv. (success (mv_cookies (web_cookies s)), sv))

  -- GET /webhook
  unfoldable pub get_webhook : Server → Response × Server
  get_webhook =
      authenticated std env client_id
        (λ s sv. (success (webhook s.user (Webhooks.get env.up s.user sv.db)), sv))

  -- PUT /webhook
  unfoldable pub put_webhook : Option Text → Server → Response × Server
  put_webhook body = authenticated std env client_id (
      decoded std env client_id body (λ url.
        if is_empty url then reject std env client_id 400 else (λ s sv.
          (success (webhook s.user url), record sv { db = Webhooks.set env.up s.user url sv.db }))))

  -- DELETE /webhook
  unfoldable pub delete_webhook : Server → Response × Server
  delete_webhook = authenticated std env client_id (λ s sv. (
    record { status = 204; body = no_body },
    record sv { db = Webhooks.remove env.up s.user sv.db },
  ))

  -- GET /events: a 200 stands for the stream of the hub.
  unfoldable pub stream_of : Reply (Option Session) × Server → Response × Server
  stream_of (failed, sv) = (problem 503, sv)
  stream_of (ok none, sv) = (problem 401, sv)
  stream_of (ok (some s), sv) =
      (if is_authenticated s.status then success no_body else problem 401, sv)

  unfoldable pub get_events : Server → Response × Server
  get_events sv = stream_of (lookup_session std env.gate client_id sv)
