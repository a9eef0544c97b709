-- ===== src/Telegram/Reached.antt =====
-- telegram.go: what a whole run of pollUpdates leaves.
use mathlib.Core.Path.{subst}
use mediavida.Base.{
  ◌≡◌, refl, sym, ap, ◌∙◌, ◌⊎◌, inl, inr, Text, some, List, [], ◌∷◌, ◌++◌, arith, Option-cases,
  if◌then◌else◌,
}
use mediavida.Base.Int.{ℤ}
use mediavida.Telegram.{
  TelegramMessage, TelegramBot, Sent, Ran, ran, panicked, Ran-cases, is_in, chats_of, bind_ran,
  bind_ran-bind_ran, bind_ran-ap, register, answer_mention, handle_from, mentions_bot,
  handle_message,
}
use mediavida.Telegram.Updates.{
  TelegramUpdate, TelegramResponse, no_answer, undecoded, not_ok, result, Poll, next_offset,
  handled, handle_update, handle_updates, poll_once, poll_updates,
}
use mediavida.Telegram.Laws.{IsRegistered, Registers, handle_message-IsRegistered}
use mediavida.Telegram.Alerts.{AreSets, times, send_mod_alert-once, handle_message-AreSets}
use mediavida.Telegram.Chats.{send_mod_alert}

-- Every update that the run has been answered.
abbrev pub updates_of : List (TelegramResponse (List TelegramUpdate)) → List TelegramUpdate
updates_of [] = []
updates_of (result us ∷ rs) = us ++ updates_of rs
updates_of (no_answer ∷ rs) = updates_of rs
updates_of (undecoded ∷ rs) = updates_of rs
updates_of (not_ok ∷ rs) = updates_of rs

handle_updates-append :
    (us vs : List TelegramUpdate) (p : Poll)
    → handle_updates (us ++ vs) p ≡ bind_ran (handle_updates us p) (handle_updates vs)
unfolding handle_updates
handle_updates-append [] vs p = refl
handle_updates-append (u ∷ us) vs p =
    bind_ran-ap (handle_update u p) (handle_updates (us ++ vs))
      (λ q. bind_ran (handle_updates us q) (handle_updates vs)) (handle_updates-append us vs)
    ∙ sym (bind_ran-bind_ran (handle_update u p) (handle_updates us) (handle_updates vs))

-- A run handles the updates of all its answers, in their order: answers that carry none change
-- nothing.
pub poll_updates-updates_of :
    (rs : List (TelegramResponse (List TelegramUpdate))) (p : Poll)
    → poll_updates rs p ≡ handle_updates (updates_of rs) p
unfolding poll_updates poll_once handle_updates
poll_updates-updates_of [] p = refl
poll_updates-updates_of (no_answer ∷ rs) p = poll_updates-updates_of rs p
poll_updates-updates_of (undecoded ∷ rs) p = poll_updates-updates_of rs p
poll_updates-updates_of (not_ok ∷ rs) p = poll_updates-updates_of rs p
poll_updates-updates_of (result us ∷ rs) p =
    bind_ran-ap (handle_updates us p) (poll_updates rs) (handle_updates (updates_of rs))
      (poll_updates-updates_of rs)
    ∙ sym (handle_updates-append us (updates_of rs) p)

-- What of a bot no message changes.
abbrev SameRules : TelegramBot → TelegramBot → Type 0
SameRules tb tb' = (tb'.admins ≡ tb.admins) × (tb'.bot_name ≡ tb.bot_name)

handle_message-SameRules :
    (msg : TelegramMessage) (tb tb' : TelegramBot) (sent : List Sent)
    → handle_message msg tb ≡ ran (tb', sent)
    → SameRules tb tb'
unfolding handle_message answer_mention handle_from register
handle_message-SameRules msg tb tb' sent h = ground (arith, h)

Registers-SameRules :
    (user : Text) (id : ℤ) (msg : TelegramMessage) (tb tb' : TelegramBot)
    → SameRules tb tb'
    → Registers user id msg tb'
    → Registers user id msg tb
unfolding mentions_bot
Registers-SameRules user id msg tb tb' (a, n) (u, f, m, l, c) =
    (u, f, rw (sym n) m, rw (sym a) l, c)

-- The update carries a message that registers the chat.
abbrev pub RegistersIn : Text → ℤ → TelegramBot → TelegramUpdate → Type 0
RegistersIn user id tb u =
    (msg : TelegramMessage) × (u.message ≡ some msg) × Registers user id msg tb

abbrev pub Any : (TelegramUpdate → Type 0) → List TelegramUpdate → Type 0
Any P [] = ⊥
Any P (u ∷ us) = P u ⊎ Any P us

Any-SameRules :
    (user : Text) (id : ℤ) (tb tb' : TelegramBot)
    → SameRules tb tb'
    → (us : List TelegramUpdate) → Any (RegistersIn user id tb') us
    → Any (RegistersIn user id tb) us
Any-SameRules user id tb tb' s [] a = elim a [ ]
Any-SameRules user id tb tb' s (u ∷ us) (inl (msg, e, r)) =
    inl (msg, e, Registers-SameRules user id msg tb tb' s r)
Any-SameRules user id tb tb' s (u ∷ us) (inr a) = inr (Any-SameRules user id tb tb' s us a)

-- The bot behind one message, if there was one.
data Behind (tb : TelegramBot) (u : TelegramUpdate) (tb' : TelegramBot) : Type 0 where
  no_message : tb' ≡ tb → Behind tb u tb'
  a_message :
      (msg : TelegramMessage) (sent : List Sent)
      → u.message ≡ some msg
      → handle_message msg tb ≡ ran (tb', sent)
      → Behind tb u tb'

handled-Behind :
    (offset : ℤ) (sent : List Sent) (p q : Poll) (u : TelegramUpdate) (msg : TelegramMessage)
    → u.message ≡ some msg
    → (r : Ran (TelegramBot × List Sent)) → handle_message msg p.bot ≡ r
    → handled offset sent r ≡ ran q
    → Behind p.bot u q.bot
unfolding handled
handled-Behind offset sent p q u msg m panicked e h = ground (arith, h)
handled-Behind offset sent p q u msg m (ran (tb, out)) e h =
    a_message msg out m (ground (arith, e, h))

handle_update-Behind :
    (u : TelegramUpdate) (p q : Poll) → handle_update u p ≡ ran q → Behind p.bot u q.bot
unfolding handle_update
handle_update-Behind u p q h = elim (Option-cases u.message) [
  | inl e ↦ no_message (ground (arith, e, h))
  | inr (msg, e) ↦
      handled-Behind (next_offset u.update_id p.offset) p.sent p q u msg e
        (handle_message msg p.bot) refl (ground (arith, e, h))
]

Behind-SameRules : {tb tb' : TelegramBot} {u : TelegramUpdate} → Behind tb u tb' → SameRules tb tb'
Behind-SameRules (no_message e) = (ap (λ t. t.admins) e, ap (λ t. t.bot_name) e)
Behind-SameRules (a_message msg sent m h) = handle_message-SameRules msg _ _ sent h

same_bot : (p p' : Poll) → ran p ≡ ran p' → p.bot ≡ p'.bot
same_bot p p' h = ground (arith, h)

module _ (user : Text) (id : ℤ) where
  Behind-IsRegistered :
      {tb tb' : TelegramBot} {u : TelegramUpdate}
      → Behind tb u tb'
      → IsRegistered user id tb'
      → IsRegistered user id tb ⊎ RegistersIn user id tb u
  Behind-IsRegistered (no_message e) r = inl (subst (IsRegistered user id) e r)
  Behind-IsRegistered {tb} {tb'} (a_message msg sent m h) r =
      elim ((handle_message-IsRegistered msg tb user id tb' sent h).0 r) [
        | inl k ↦ inl k
        | inr k ↦ inr (msg, m, k)
      ]

  -- After any updates that pollUpdates handles without a panic, a chat is registered for a user only
  -- if it was before, or one of the updates is a message of an admin of that user that mentions the
  -- bot in that chat.
  pub handle_updates-IsRegistered :
      (us : List TelegramUpdate) (p p' : Poll)
      → handle_updates us p ≡ ran p'
      → IsRegistered user id p'.bot
      → IsRegistered user id p.bot ⊎ Any (RegistersIn user id p.bot) us
  unfolding handle_updates
  handle_updates-IsRegistered [] p p' h r =
      inl (subst (IsRegistered user id) (same_bot p' p (sym h)) r)
  handle_updates-IsRegistered (u ∷ us) p p' h r = elim (Ran-cases (handle_update u p)) [
    | inl e ↦ ground (arith, e, h)
    | inr (q, e) ↦
        let step = handle_update-Behind u p q e in
        elim (handle_updates-IsRegistered us q p' (ground (arith, e, h)) r) [
          | inl k ↦ elim (Behind-IsRegistered step k) [ inl x ↦ inl x | inr x ↦ inr (inl x) ]
          | inr a ↦ inr (inr (Any-SameRules user id p.bot q.bot (Behind-SameRules step) us a))
        ]
  ]

Behind-AreSets :
    {tb tb' : TelegramBot} {u : TelegramUpdate} → Behind tb u tb' → AreSets tb → AreSets tb'
Behind-AreSets (no_message e) d = subst AreSets (sym e) d
Behind-AreSets (a_message msg sent m h) d = handle_message-AreSets msg _ _ sent d h

-- The chats of every user stay without duplicates while pollUpdates runs.
pub handle_updates-AreSets :
    (us : List TelegramUpdate) (p p' : Poll)
    → handle_updates us p ≡ ran p'
    → AreSets p.bot
    → AreSets p'.bot
unfolding handle_updates
handle_updates-AreSets [] p p' h d = subst AreSets (same_bot p p' h) d
handle_updates-AreSets (u ∷ us) p p' h d = elim (Ran-cases (handle_update u p)) [
  | inl e ↦ ground (arith, e, h)
  | inr (q, e) ↦
      handle_updates-AreSets us q p' (ground (arith, e, h))
        (Behind-AreSets (handle_update-Behind u p q e) d)
]

-- When the chats of every user are without duplicates, and pollUpdates has handled any updates, an
-- alert of a user goes once to each chat that is registered for the user by then, and to no other.
pub handle_updates-alert_once :
    (us : List TelegramUpdate) (p p' : Poll) (user text : Text) (id : ℤ)
    → handle_updates us p ≡ ran p'
    → AreSets p.bot
    → times id (send_mod_alert user text (some p'.bot))
      ≡ (if is_in id (chats_of user p'.bot.chats) then 1 else 0)
handle_updates-alert_once us p p' user text id h d =
    send_mod_alert-once p'.bot user text id (handle_updates-AreSets us p p' h d)
