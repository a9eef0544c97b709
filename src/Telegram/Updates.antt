-- ===== src/Telegram/Updates.antt =====
-- telegram.go: Start, fetchBotUsername and pollUpdates.
use mediavida.Base.{Text, Option, none, some, List, [], ◌∷◌, ◌++◌, if◌then◌else◌}
use mediavida.Base.Int.{ℤ, pos, leb_ℤ, add_int}
use mediavida.Telegram.{
  TelegramUser, TelegramMessage, TelegramBot, Sent, Ran, ran, panicked, bind_ran, handle_message,
}

pub record TelegramUpdate : Type 0 where
  pub update_id : ℤ
  pub message : Option TelegramMessage

-- What a call of the Bot API comes to: no HTTP answer, a body that does not decode, one with
-- "ok": false, or its result.
pub data TelegramResponse (A : Type 0) : Type 0 where
  no_answer undecoded not_ok : TelegramResponse A
  result : A → TelegramResponse A

-- fetchBotUsername: the name that getMe answers; `none` is an error.
unfoldable pub fetch_bot_username : TelegramResponse TelegramUser → Option Text
fetch_bot_username (result u) = some u.username
fetch_bot_username r = none

-- Start: whether it launches the poller, and the bot that polls; a nil bot is `none`.
unfoldable pub start : TelegramResponse TelegramUser → Option TelegramBot → Option TelegramBot
start r none = none
start r (some tb) = elim (fetch_bot_username r) [
  | none ↦ none
  | some name ↦ some (record tb { bot_name = name })
]

-- What pollUpdates keeps, and the messages sent so far.
pub record Poll : Type 0 where
  pub offset : ℤ
  pub bot : TelegramBot
  pub sent : List Sent

unfoldable pub next_offset : ℤ → ℤ → ℤ
next_offset id offset = if leb_ℤ offset id then add_int id (pos 1) else offset

unfoldable pub handled : ℤ → List Sent → Ran (TelegramBot × List Sent) → Ran Poll
handled offset sent panicked = panicked
handled offset sent (ran (tb, out)) = ran (record { offset = offset; bot = tb; sent = sent ++ out })

-- One turn of the loop over tr.Result.
unfoldable pub handle_update : TelegramUpdate → Poll → Ran Poll
unfolding handled
handle_update upd p = elim upd.message [
  | none ↦ ran (record p { offset = next_offset upd.update_id p.offset })
  | some msg ↦ handled (next_offset upd.update_id p.offset) p.sent (handle_message msg p.bot)
]

unfoldable pub handle_updates : List TelegramUpdate → Poll → Ran Poll
handle_updates [] p = ran p
handle_updates (u ∷ us) p = bind_ran (handle_update u p) (handle_updates us)

-- One turn of pollUpdates, from what getUpdates answers.
unfoldable pub poll_once : TelegramResponse (List TelegramUpdate) → Poll → Ran Poll
poll_once (result us) p = handle_updates us p
poll_once r p = ran p

-- pollUpdates until it is stopped.
unfoldable pub poll_updates : List (TelegramResponse (List TelegramUpdate)) → Poll → Ran Poll
poll_updates [] p = ran p
poll_updates (r ∷ rs) p = bind_ran (poll_once r p) (poll_updates rs)
