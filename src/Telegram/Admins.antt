-- ===== src/Telegram/Admins.antt =====
-- telegram.go: parseTelegramAdmins and NewTelegramBot.
use mediavida.Base.{Text, Option, none, some, List, [], ◌∷◌, if◌then◌else◌, is_empty}
use mediavida.Base.Int.{ℤ, int_key}
use mediavida.Base.Maps.{Map, insert}
use mediavida.Base.Strings.{trim_space, split, cut}
use mediavida.Numbers.{atoi}
use mediavida.Telegram.{TelegramBot}

-- The admin that one pair of TELEGRAM_ADMINS names, if the loop does not skip it.
unfoldable pub admin_of : Text → Option (ℤ × Text)
admin_of pair =
    let p = trim_space pair in
    if is_empty p then none else elim (cut b':' p) [
      | none ↦ none
      | some (id, user) ↦ elim (atoi (trim_space id)) [
        | none ↦ none
        | some tg_id ↦ if is_empty (trim_space user) then none else some (tg_id, trim_space user)
      ]
    ]

unfoldable pub add_admins : List Text → Map ℤ Text → Map ℤ Text
add_admins [] out = out
add_admins (pair ∷ pairs) out = elim (admin_of pair) [
  | none ↦ add_admins pairs out
  | some (id, user) ↦ add_admins pairs (insert id user out)
]

unfoldable pub parse_telegram_admins : Text → Map ℤ Text
parse_telegram_admins raw = add_admins (split b',' raw) []

-- NewTelegramBot before loadChats, from TELEGRAM_BOT_TOKEN and TELEGRAM_ADMINS; `none` is nil.
unfoldable pub new_telegram_bot : Text → Text → Option TelegramBot
new_telegram_bot token admins =
    if is_empty token
    then none
    else some
        (record { token = token; bot_name = []; admins = parse_telegram_admins admins; chats = [] })
