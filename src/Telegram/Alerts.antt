-- ===== src/Telegram/Alerts.antt =====
-- telegram.go: the chats of a user are a set, and an alert goes once to each of them.
use mathlib.Core.Path.{subst}
use mediavida.Base.{
  ℕ, suc, ◌≡◌, refl, sym, inl, inr, Bool, true, false, Text, Option, none, some, List, [], ◌∷◌, map,
  arith, if◌then◌else◌, same, text_key, Option-cases,
}
use mediavida.Base.Int.{ℤ, int_key}
use mediavida.Base.Maps.{lookup, lookup-insert}
use mediavida.Telegram.{
  TelegramMessage, TelegramUser, TelegramBot, Sent, Ran, ran, panicked, is_in, add_chat, chats_of,
  register, answer_mention, handle_from, handle_message, mentions_bot,
}
use mediavida.Telegram.Chats.{send_mod_alert}
use mediavida.Telegram.Laws.{ran_fst}

-- How many of the messages go to a chat.
unfoldable pub times : ℤ → List Sent → ℕ
times id [] = 0
times id ((c, text) ∷ sent) = let rest = times id sent in if same id c then suc rest else rest

-- No member of the list stands in it again behind itself.
abbrev pub IsDistinct : List ℤ → Type 0
IsDistinct [] = Unit {0}
IsDistinct (c ∷ cs) = (is_in c cs ≡ false) × IsDistinct cs

abbrev pub AreSets : TelegramBot → Type 0
AreSets tb = (user : Text) → IsDistinct (chats_of user tb.chats)

add_chat-IsDistinct : (id : ℤ) (set : List ℤ) → IsDistinct set → IsDistinct (add_chat id set)
unfolding add_chat
add_chat-IsDistinct id set d = ground (arith, d)

times-map :
    (id : ℤ) (text : Text) (set : List ℤ)
    → IsDistinct set
    → times id (map (λ c. (c, text)) set) ≡ (if is_in id set then 1 else 0)
unfolding times is_in
times-map id text [] d = refl
times-map id text (c ∷ cs) (n, d) = ground (arith, n, times-map id text cs d)

-- An alert of a user goes once to each chat that is registered for the user, and to no other chat,
-- when the chats of the user have no duplicates.
pub send_mod_alert-once :
    (tb : TelegramBot) (user text : Text) (id : ℤ)
    → AreSets tb
    → times id (send_mod_alert user text (some tb))
      ≡ (if is_in id (chats_of user tb.chats) then 1 else 0)
unfolding send_mod_alert
send_mod_alert-once tb user text id d = times-map id text (chats_of user tb.chats) (d user)

IsDistinct-if :
    (b : Bool) (set : List ℤ) (o : Option (List ℤ))
    → IsDistinct set
    → IsDistinct (elim o [ none ↦ [] | some cs ↦ cs ])
    → IsDistinct (elim (if b then some set else o) [ none ↦ [] | some cs ↦ cs ])
IsDistinct-if true set o d e = d
IsDistinct-if false set o d e = e

register-AreSets :
    (id : ℤ) (a : Text) (tb : TelegramBot) → AreSets tb → AreSets (register id a tb).0
unfolding register chats_of
register-AreSets id a tb d user =
    subst (λ o. IsDistinct (elim o [ none ↦ [] | some set ↦ set ]))
      (sym (lookup-insert a user (add_chat id (chats_of a tb.chats)) tb.chats))
      (IsDistinct-if (same a user) (add_chat id (chats_of a tb.chats)) (lookup user tb.chats)
        (add_chat-IsDistinct id (chats_of a tb.chats) (d a)) (d user))

answer_mention-AreSets :
    (msg : TelegramMessage) (o : Option Text) (tb : TelegramBot)
    → AreSets tb
    → AreSets (answer_mention msg o tb).0
unfolding answer_mention
answer_mention-AreSets msg none tb d = d
answer_mention-AreSets msg (some a) tb d = register-AreSets msg.chat.id a tb d

handle_from-AreSets :
    (msg : TelegramMessage) (u : TelegramUser) (m : Ran Bool) (tb tb' : TelegramBot)
    (sent : List Sent)
    → AreSets tb
    → handle_from msg u m tb ≡ ran (tb', sent)
    → AreSets tb'
unfolding handle_from
handle_from-AreSets msg u panicked tb tb' sent d h = ground (arith, h)
handle_from-AreSets msg u (ran false) tb tb' sent d h =
    subst AreSets (ran_fst (tb, []) tb' sent h) d
handle_from-AreSets msg u (ran true) tb tb' sent d h =
    subst AreSets (ran_fst (answer_mention msg (lookup u.id tb.admins) tb) tb' sent h)
      (answer_mention-AreSets msg (lookup u.id tb.admins) tb d)

pub handle_message-AreSets :
    (msg : TelegramMessage) (tb tb' : TelegramBot) (sent : List Sent)
    → AreSets tb
    → handle_message msg tb ≡ ran (tb', sent)
    → AreSets tb'
unfolding handle_message
handle_message-AreSets msg tb tb' sent d h = elim (Option-cases msg.from) [
  | inl e ↦ subst AreSets (ran_fst (tb, []) tb' sent (ground (arith, e, h))) d
  | inr (u, e) ↦
      handle_from-AreSets msg u (mentions_bot msg tb) tb tb' sent d (ground (arith, e, h))
]
