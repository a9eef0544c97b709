-- ===== src/Telegram/Laws.antt =====
-- telegram.go: who registers a chat, and who gets an alert.
use mediavida.Base.{
  ◌≡◌, refl, ap, ◌∙◌, ◌↔◌, ◌⊎◌, inl, inr, Bool, true, false, Text, Option, none, some, List, arith,
  if◌then◌else◌, same, text_key, Option-cases,
}
use mathlib.Core.Path.{subst}
use mediavida.Base.Int.{ℤ, int_key}
use mediavida.Base.Maps.{lookup, lookup-insert}
use mediavida.Telegram.{
  TelegramUser, TelegramMessage, TelegramBot, Sent, Ran, ran, panicked, mentions_bot, is_in,
  add_chat, chats_of, register, answer_mention, handle_from, handle_message,
}

-- The chat `id` is registered for `user`.
abbrev pub IsRegistered : Text → ℤ → TelegramBot → Type 0
IsRegistered user id tb = is_in id (chats_of user tb.chats) ≡ true

-- The message is one of an admin of `user`, mentions the bot, and stands in the chat `id`.
abbrev pub Registers : Text → ℤ → TelegramMessage → TelegramBot → Type 0
Registers user id msg tb =
    (u : TelegramUser) × (msg.from ≡ some u)
    × (mentions_bot msg tb ≡ ran true)
    × (lookup u.id tb.admins ≡ some user)
    × (msg.chat.id ≡ id)

chats_of-register :
    (c id : ℤ) (user u : Text) (tb : TelegramBot)
    → is_in c (chats_of u (register id user tb).0.chats) ≡ (
        if same user u
        then (if same c id then true else is_in c (chats_of u tb.chats))
        else is_in c (chats_of u tb.chats))
unfolding register chats_of is_in add_chat
chats_of-register c id user u tb =
    ground (arith, lookup-insert user u (add_chat id (chats_of user tb.chats)) tb.chats)

-- Who is registered behind `register`: the new chat, and whoever was before.
chats_of-register→ :
    (c id : ℤ) (a user : Text) (tb : TelegramBot)
    → IsRegistered user c (register id a tb).0
    → IsRegistered user c tb ⊎ ((a ≡ user) × (id ≡ c))
chats_of-register→ c id a user tb h = ground (arith, h, chats_of-register c id a user tb)

chats_of-register← :
    (c id : ℤ) (a user : Text) (tb : TelegramBot)
    → IsRegistered user c tb ⊎ ((a ≡ user) × (id ≡ c))
    → IsRegistered user c (register id a tb).0
chats_of-register← c id a user tb h = ground (arith, h, chats_of-register c id a user tb)

pub ran_fst :
    (p : TelegramBot × List Sent) (tb : TelegramBot) (sent : List Sent)
    → ran p ≡ ran (tb, sent)
    → p.0 ≡ tb
ran_fst p tb sent h = ground (arith, h)

module _ (msg : TelegramMessage) (tb : TelegramBot) (user : Text) (id : ℤ) where
  mention-IsRegistered :
      (u : TelegramUser)
      → msg.from ≡ some u
      → mentions_bot msg tb ≡ ran true
      → (o : Option Text) → lookup u.id tb.admins ≡ o
      → IsRegistered user id (answer_mention msg o tb).0
        ↔ (IsRegistered user id tb ⊎ Registers user id msg tb)
  unfolding answer_mention
  mention-IsRegistered u f m none e =
      (inl, elim [ inl h ↦ h | inr (v, f', m', l, c) ↦ ground (arith, e, f, f', l) ])
  mention-IsRegistered u f m (some a) e = (
    (λ h. elim (chats_of-register→ id msg.chat.id a user tb h) [
      | inl h ↦ inl h
      | inr (a≡, c) ↦ inr (u, f, m, e ∙ ap some a≡, c)
    ]),
    elim [
      | inl h ↦ chats_of-register← id msg.chat.id a user tb (inl h)
      | inr (v, f', m', l, c) ↦
          chats_of-register← id msg.chat.id a user tb (inr (ground (arith, e, f, f', l), c))
    ],
  )

  from-IsRegistered :
      (u : TelegramUser)
      → msg.from ≡ some u
      → (m : Ran Bool) → mentions_bot msg tb ≡ m
      → (tb' : TelegramBot) (sent : List Sent) → handle_from msg u m tb ≡ ran (tb', sent)
      → IsRegistered user id tb' ↔ (IsRegistered user id tb ⊎ Registers user id msg tb)
  unfolding handle_from
  from-IsRegistered u f panicked e tb' sent h = ground (arith, h)
  from-IsRegistered u f (ran false) e tb' sent h = (
    (λ r. inl (ground (arith, h, r))),
    elim [ inl r ↦ ground (arith, h, r) | inr (v, f', m', l, c) ↦ ground (arith, e, m') ],
  )
  from-IsRegistered u f (ran true) e tb' sent h =
      subst (λ t. IsRegistered user id t ↔ (IsRegistered user id tb ⊎ Registers user id msg tb))
        (ran_fst (answer_mention msg (lookup u.id tb.admins) tb) tb' sent h)
        (mention-IsRegistered u f e (lookup u.id tb.admins) refl)

  -- After a message, a chat is registered for a user if and only if it was before, or the message
  -- is from an admin of that user, mentions the bot and stands in that chat.
  pub handle_message-IsRegistered :
      (tb' : TelegramBot) (sent : List Sent)
      → handle_message msg tb ≡ ran (tb', sent)
      → IsRegistered user id tb' ↔ (IsRegistered user id tb ⊎ Registers user id msg tb)
  unfolding handle_message
  handle_message-IsRegistered tb' sent h = elim (Option-cases msg.from) [
    | inl e ↦ (
      (λ r. inl (ground (arith, e, h, r))),
      elim [ inl r ↦ ground (arith, e, h, r) | inr (v, f', m', l, c) ↦ ground (arith, e, f') ],
    )
    | inr (u, e) ↦ from-IsRegistered u e (mentions_bot msg tb) refl tb' sent (ground (arith, e, h))
  ]
