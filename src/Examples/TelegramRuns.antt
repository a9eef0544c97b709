-- ===== src/Examples/TelegramRuns.antt =====
-- The Telegram bot at concrete inputs: one admin, one message that mentions the bot.
use mediavida.Base.Rows.{where_rows}
use native.Mathlib.Decide.{ℕ_discrete}
use mediavida.Base.{◌≡◌, refl, ◌⊎◌, false, codes, none, some, [], ◌∷◌, ◌++◌, arith, if◌then◌else◌}
use mediavida.Base.Int.{pos, ℤ_discrete, int_key}
use mediavida.Base.Keys.{text_key, text_discrete}
use mediavida.Base.Maps.{lookup, insert}
use mediavida.Base.Strings.{to_lower}
use mediavida.Telegram.{
  handle_message, mentions_bot, any_mentions, marked, is_beyond, slice, add_chat, TelegramMessage,
  TelegramBot, ran, chats_of, is_in, welcome,
}
use mediavida.Telegram.Chats.{send_mod_alert}
use mediavida.Telegram.Updates.{TelegramUpdate, Poll, handle_updates, handle_update, next_offset}
use mediavida.Telegram.Laws.{IsRegistered}
use mediavida.Telegram.Alerts.{times}
use mediavida.Telegram.Reached.{
  Any, RegistersIn, handle_updates-IsRegistered, handle_updates-alert_once,
}
use mediavida.Telegram.PollLaws.{unconfirmed, handle_updates-unconfirmed}

abbrev mention : TelegramMessage
mention = record {
  message_id = pos 1;
  from = some (record { id = pos 7; username = codes "jairo"; is_bot = false });
  chat = record { id = pos 55; kind = codes "group"; title = codes "mods" };
  text = codes "hola @mv_bot";
  entities = record { kind = codes "mention"; offset = pos 5; length = pos 7 } ∷ [];
}

abbrev update : TelegramUpdate
update = record { update_id = pos 9; message = some mention }

abbrev later_update : TelegramUpdate
later_update = record { update_id = pos 12; message = none }

abbrev pub bot : TelegramBot
bot = record {
  token = codes "t";
  bot_name = codes "mv_bot";
  admins = (pos 7, codes "jairo") ∷ [];
  chats = [];
}

abbrev poll : Poll
poll = record { offset = pos 0; bot = bot; sent = [] }

abbrev pub polled : Poll
polled = record {
  offset = pos 10;
  bot = record bot { chats = (codes "jairo", pos 55 ∷ []) ∷ [] };
  sent = (pos 55, welcome (codes "jairo")) ∷ [];
}

one_update : handle_updates (update ∷ []) poll ≡ ran polled
unfolding handle_updates handle_update handle_message mentions_bot any_mentions marked is_beyond
    slice to_lower next_offset lookup insert welcome is_in add_chat chats_of text_discrete
    ℤ_discrete ℕ_discrete
one_update = refl

handle_updates-IsRegistered_example :
    IsRegistered (codes "jairo") (pos 55) bot
    ⊎ Any (RegistersIn (codes "jairo") (pos 55) bot) (update ∷ [])
unfolding chats_of is_in lookup text_discrete ℤ_discrete ℕ_discrete
handle_updates-IsRegistered_example =
    handle_updates-IsRegistered (codes "jairo") (pos 55) (update ∷ []) poll polled one_update refl

handle_updates-alert_once_example :
    times (pos 55) (send_mod_alert (codes "jairo") (codes "aviso") (some polled.bot))
    ≡ (if is_in (pos 55) (chats_of (codes "jairo") polled.bot.chats) then 1 else 0)
unfolding chats_of lookup
handle_updates-alert_once_example =
    handle_updates-alert_once (update ∷ []) poll polled (codes "jairo") (codes "aviso") (pos 55)
      one_update (λ user. tt)

handle_updates-unconfirmed_example :
    unconfirmed polled.offset ((update ∷ []) ++ later_update ∷ []) ≡ later_update ∷ []
unfolding where_rows
handle_updates-unconfirmed_example =
    handle_updates-unconfirmed (update ∷ []) poll polled (later_update ∷ []) one_update
      (omega arith, tt) (((omega arith, tt), omega arith, omega arith), tt)
