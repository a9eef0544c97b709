-- ===== src/Activity/Ntfy.antt =====
-- ntfy.go: the publisher of pushes to an ntfy server.
use mediavida.Base.{
  ℕ, ◌≡◌, Text, codes, Option, none, some, List, [], ◌∷◌, ◌++◌, if◌then◌else◌, is_empty, same,
  text_key, length, length-map, map, ◌∙◌, ◌||◌,
}
use mediavida.Base.Maps.{lookup}
use mediavida.Telegram.{take}
use mediavida.Scraper.{Packages}
use mediavida.Scraper.Login.{Bubbles}
use mediavida.Activity.{ThreadActivity, MentionActivity}
use mediavida.Activity.Pushes.{PushMsg, build_activity_pushes, rises, build_activity_pushes-rises}

pub record NtfyPublisher : Type 0 where
  pub base_url : Text
  pub token : Text

-- NewNtfyPublisher, from NTFY_URL and NTFY_TOKEN.
unfoldable pub new_ntfy_publisher : Text → Text → Option NtfyPublisher
new_ntfy_publisher url token =
    if is_empty url || is_empty token then none else some (record { base_url = url; token = token })

-- An empty `click` is left out of the JSON.
pub record NtfyMessage : Type 0 where
  pub topic : Text
  pub title : Text
  pub message : Text
  pub priority : ℕ
  pub tags : List Text
  pub click : Text

-- A POST that publish makes: its URL, its Authorization header and its body.
pub record NtfyPost : Type 0 where
  pub url : Text
  pub authorization : Text
  pub body : Text

unfoldable pub ntfy_topic : Packages → Text → Text
ntfy_topic std client_id = codes "mv_" ++ take 32 (std.sha256_hex client_id)

unfoldable pub ntfy_priority : Text → ℕ
ntfy_priority kind = if same kind (codes "favorite") then 3 else 4

unfoldable pub ntfy_tag : Text → Text
ntfy_tag kind =
    if same kind (codes "favorite")
    then codes "star"
    else (if same kind (codes "pm") then codes "envelope" else codes "bell")

-- p.data[key]: the empty text for a missing key.
unfoldable pub data_at : Text → PushMsg → Text
data_at key p = elim (lookup key p.data_fields) [ none ↦ [] | some v ↦ v ]

-- One turn of the loop of NotifyBubbleIncrease.
unfoldable pub ntfy_message : Text → PushMsg → NtfyMessage
ntfy_message topic p = record {
  topic = topic;
  title = p.title;
  message = p.body;
  priority = ntfy_priority (data_at (codes "type") p);
  tags = ntfy_tag (data_at (codes "type") p) ∷ [];
  click = data_at (codes "url") p;
}

-- `marshal` is encoding/json at `ntfyMessage`. Its result and that of the POST are only logged.
module _ (std : Packages) (marshal : NtfyMessage → Text) where
  unfoldable pub publish : NtfyPublisher → NtfyMessage → NtfyPost
  publish n msg = record {
    url = n.base_url;
    authorization = codes "Bearer " ++ n.token;
    body = marshal msg;
  }

  -- NotifyBubbleIncrease: the posts, in their order; a nil pointer is `none`.
  unfoldable pub notify_bubble_increase :
      Option NtfyPublisher
      → Text
      → Option Bubbles
      → Option Bubbles
      → List ThreadActivity
      → List MentionActivity
      → List NtfyPost
  notify_bubble_increase (some n) client_id (some prev) (some current) fav mentions =
      map (λ p. publish n (ntfy_message (ntfy_topic std client_id) p))
        (build_activity_pushes prev current fav mentions)
  notify_bubble_increase _ client_id _ _ fav mentions = []

  -- Without enrichment a device gets one post for each of its three counters that rose: none for a
  -- counter that went down.
  pub notify_bubble_increase-rises :
      (n : NtfyPublisher) (client_id : Text) (prev current : Bubbles)
      → length (notify_bubble_increase (some n) client_id (some prev) (some current) [] [])
        ≡ rises prev current
  unfolding notify_bubble_increase
  notify_bubble_increase-rises n client_id prev current =
      length-map (λ p. publish n (ntfy_message (ntfy_topic std client_id) p))
        (build_activity_pushes prev current [] [])
      ∙ build_activity_pushes-rises prev current
