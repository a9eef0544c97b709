-- ===== src/Telegram/Total.antt =====
-- telegram.go: the slice of mentionsBot does not panic on what Telegram documents.
use mediavida.Base.{ℕ, ◌+◌, ◌^◌, ◌≡◌, ◌<◌, some, All, text_key}
use mediavida.Base.Int.{pos}
use mediavida.Telegram.{TelegramMessageEntity, TelegramMessage}
use mediavida.Telegram.Updates.{TelegramUpdate}

-- The length is not negative, and the sum with the offset fits an int.
abbrev pub IsSound : TelegramMessageEntity → Type 0
IsSound e = (o l : ℕ) × (e.offset ≡ pos o) × (e.length ≡ pos l) × (o + l < 2 ^ 63)

abbrev pub IsSoundUpdate : TelegramUpdate → Type 0
IsSoundUpdate u = (msg : TelegramMessage) → u.message ≡ some msg → All IsSound msg.entities
