-- ===== src/Stores/Webhooks.antt =====
-- webhook.go: WebhookStore. Each call says first whether SQLite answers.
use mediavida.Base.{
  Bool, Text, codes, Option, none, some, [], ◌++◌, if◌then◌else◌, is_empty, not, text_key,
}
use mediavida.Base.Int.{ℤ}
use mediavida.Base.Maps.{lookup}
use mediavida.Store.{Db, ok, failed}
use mediavida.Store.Notifs.{set_webhook, remove_webhook, all_webhooks}
use mediavida.Scraper.Login.{Bubbles}

unfoldable pub set : Bool → Text → Text → Db → Db
set up username url db = (set_webhook up username url db).1

unfoldable pub remove : Bool → Text → Db → Db
remove up username db = (remove_webhook up username db).1

-- Get: "" for an error, and for a user without a webhook.
unfoldable pub get : Bool → Text → Db → Text
get up username db = elim (all_webhooks up db) [
  | failed ↦ []
  | ok all ↦ elim (lookup username all) [ none ↦ [] | some url ↦ url ]
]

unfoldable pub has : Bool → Text → Db → Bool
has up username db = not (is_empty (get up username db))

pub record WebhookPayload : Type 0 where
  pub username : Text
  pub messages : ℤ
  pub notifications : ℤ
  pub favorites : ℤ

-- Send: the POST that it makes, if there is a webhook.
unfoldable pub send : Bool → Text → Bubbles → Db → Option (Text × WebhookPayload)
send up username b db =
    let url = get up username db in
    if is_empty url
    then none
    else some (
      url,
      record {
        username = username;
        messages = b.messages;
        notifications = b.notifications;
        favorites = b.favorites;
      },
    )

unfoldable pub format_status : Bool → Text → Db → Text
format_status up username db =
    let url = get up username db in
    if is_empty url
    then codes "No webhook configured for " ++ username
    else codes "Webhook for " ++ username ++ codes ": " ++ url
