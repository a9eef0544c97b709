-- ===== src/Activity/Fanout.antt =====
-- fcm.go: the message of a push, and the fan-out of the pushes of one rise over a client's tokens.
use mediavida.Base.{
  ℕ, ◌*◌, ◌≡◌, ◌∙◌, Bool, true, false, Text, codes, Option, none, some, List, [], ◌∷◌, ◌++◌, arith,
  ◌&&◌, ◌||◌, not, if◌then◌else◌, ltb, is_empty, same, text_key, length, length-append, length-map,
  map,
}
use mediavida.Base.Rows.{select, select-delete}
use mediavida.Store.{Db}
use mediavida.Store.Tokens.{pair_key, remove_fcm_token}
use mediavida.Stores.FcmTokens as FcmTokens
use mediavida.Scraper.Login.{Bubbles}
use mediavida.Activity.{ThreadActivity, MentionActivity}
use mediavida.Activity.Pushes.{PushMsg, build_activity_pushes, dedup_tokens}
use mediavida.Activity.Sending.{Response, send_one}

-- The JSON of a message, as far as it depends on the push; a push without a tag has none.
pub record FcmMessage : Type 0 where
  pub token : Text
  pub title : Text
  pub body : Text
  pub message_data : List (Text × Text)
  pub android_priority : Text
  pub android_tag : Option Text
  pub apns_headers : List (Text × Text)

-- The message that sendOne posts.
unfoldable pub fcm_message : Text → PushMsg → FcmMessage
fcm_message token msg = record {
  token = token;
  title = msg.title;
  body = msg.body;
  message_data = msg.data_fields;
  android_priority = codes "high";
  android_tag = if is_empty msg.tag then none else some msg.tag;
  apns_headers =
      (codes "apns-priority", codes "10")
      ∷ (if is_empty msg.tag then [] else (codes "apns-collapse-id", msg.tag) ∷ []);
}

-- NewFCMSender: the project, where both variables are set and the JSON is that of an account.
unfoldable pub new_fcm_sender : Text → Text → Bool → Option Text
new_fcm_sender sa_json project_id parses =
    if is_empty sa_json || is_empty project_id || not parses then none else some project_id

-- HasTokens; `none` is the nil sender.
unfoldable pub has_tokens : Bool → Option Text → Text → Db → Bool
has_tokens up none client_id db = false
has_tokens up (some project) client_id db = ltb 0 (length (FcmTokens.get up client_id db))

-- The jobs, in the order in which the channel gets them.
unfoldable pub fan_out : List PushMsg → List Text → List (Text × PushMsg)
fan_out [] tokens = []
fan_out (p ∷ ps) tokens = map (λ t. (t, p)) tokens ++ fan_out ps tokens

-- NotifyBubbleIncrease: the jobs that its workers share; a nil pointer is `none`.
unfoldable pub fcm_jobs :
    Bool
    → Option Text
    → Text
    → Option Bubbles
    → Option Bubbles
    → List ThreadActivity
    → List MentionActivity
    → Db
    → List (Text × PushMsg)
fcm_jobs up (some project) client_id (some prev) (some current) fav mentions db =
    fan_out (build_activity_pushes prev current fav mentions)
      (dedup_tokens (FcmTokens.get up client_id db))
fcm_jobs up _ client_id _ _ fav mentions db = []

-- What the sends of these jobs leave of the table, in the order in which they end; `pick` is
-- rand.Int63n, and `net` answers the attempts of each job.
unfoldable pub run_jobs :
    (ℕ → ℕ) → (Text × PushMsg → ℕ → Response) → Text → List (Text × PushMsg) → Db → Db
run_jobs pick net client_id [] db = db
run_jobs pick net client_id (j ∷ js) db =
    run_jobs pick net client_id js
      (if (send_one pick (net j)).1 then FcmTokens.remove true client_id j.0 db else db)

-- Whether some job of the token ends with it pruned.
unfoldable pub is_pruned :
    (ℕ → ℕ) → (Text × PushMsg → ℕ → Response) → Text → List (Text × PushMsg) → Bool
is_pruned pick net token [] = false
is_pruned pick net token (j ∷ js) =
    (same j.0 token && (send_one pick (net j)).1) || is_pruned pick net token js

-- Whether the table has the token for the client.
abbrev pub is_registered : Text → Text → Db → Bool
is_registered client_id token db = elim (select (λ r. r) (client_id, token) db.fcm_tokens) [
  | none ↦ false
  | some r ↦ true
]

-- As many messages are sent as there are pushes and tokens to pair.
length-fan_out :
    (ps : List PushMsg) (tokens : List Text)
    → length (fan_out ps tokens) ≡ length ps * length tokens
unfolding fan_out
length-fan_out [] tokens = omega arith
length-fan_out (p ∷ ps) tokens =
    length-append (map (λ t. (t, p)) tokens) (fan_out ps tokens)
    ∙ grind (arith, length-map {B = Text × PushMsg} (λ t. (t, p)) tokens, length-fan_out ps tokens)

is_registered-remove :
    (owner client_id gone token : Text) (db : Db)
    → is_registered client_id token (FcmTokens.remove true owner gone db)
      ≡ (is_registered client_id token db && not (same owner client_id && same gone token))
unfolding FcmTokens.remove remove_fcm_token
is_registered-remove owner client_id gone token db =
    ground (arith, select-delete (λ r. r) (owner, gone) (client_id, token) db.fcm_tokens)

module _ (pick : ℕ → ℕ) (net : Text × PushMsg → ℕ → Response) (owner : Text) where
  -- In whatever order the sends end, while the store takes the removals, a token is registered
  -- afterwards exactly when it was and, if it is the client's own, no send to it ended with it
  -- pruned.
  pub run_jobs-is_registered :
      (js : List (Text × PushMsg)) (client_id token : Text) (db : Db)
      → is_registered client_id token (run_jobs pick net owner js db) ≡ (
          is_registered client_id token db
          && not (same owner client_id && is_pruned pick net token js))
  unfolding run_jobs is_pruned
  run_jobs-is_registered [] client_id token db = ground arith
  run_jobs-is_registered (j ∷ js) client_id token db = ground (
    arith,
    run_jobs-is_registered js client_id token
        (if (send_one pick (net j)).1 then FcmTokens.remove true owner j.0 db else db),
    is_registered-remove owner client_id j.0 token db,
  )
