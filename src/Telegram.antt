-- ===== src/Telegram.antt =====
-- telegram.go: the bot's state, the messages that it reads, and what a message does.
pub mod Admins
pub mod Updates
pub mod Chats
pub mod Laws
pub mod PollLaws
pub mod Alerts
pub mod Reached
pub mod Total
use mediavida.Base.{
  ℕ, zero, suc, ◌+◌, ◌≡◌, refl, ◌⊎◌, inl, inr, Bool, true, false, Text, codes, Option, none, some,
  List, [], ◌∷◌, ◌++◌, if◌then◌else◌, ◌&&◌, is_empty, same, leb, length, text_key,
}
use mediavida.Base.Int.{ℤ, pos, negsuc, add_int, int_key}
use mediavida.Base.Maps.{Map, lookup, insert}
use mediavida.Base.Strings.{to_lower}

pub record TelegramUser : Type 0 where
  pub id : ℤ
  pub username : Text
  pub is_bot : Bool

pub record TelegramChat : Type 0 where
  pub id : ℤ
  pub kind : Text
  pub title : Text

pub record TelegramMessageEntity : Type 0 where
  pub kind : Text
  pub offset : ℤ
  pub length : ℤ

pub record TelegramMessage : Type 0 where
  pub message_id : ℤ
  pub from : Option TelegramUser
  pub chat : TelegramChat
  pub text : Text
  pub entities : List TelegramMessageEntity

-- A set of chats is the list of its members. The lock and the HTTP client are not modelled.
pub record TelegramBot : Type 0 where
  pub token : Text
  pub bot_name : Text
  pub admins : Map ℤ Text
  pub chats : Map Text (List ℤ)

-- What a run of Go code comes to: a value, or a panic.
pub data Ran {ℓ} (A : Type ℓ) : Type ℓ where
  ran : A → Ran A
  panicked : Ran A

pub Ran-cases {ℓ} : {A : Type ℓ} (r : Ran A) → (r ≡ panicked) ⊎ ((a : A) × (r ≡ ran a))
Ran-cases panicked = inl refl
Ran-cases (ran a) = inr (a, refl)

-- Go code behind other code.
abbrev pub bind_ran {ℓ} : {A B : Type ℓ} → Ran A → (A → Ran B) → Ran B
bind_ran panicked f = panicked
bind_ran (ran a) f = f a

pub bind_ran-bind_ran {ℓ} :
    {A B C : Type ℓ} (r : Ran A) (f : A → Ran B) (g : B → Ran C)
    → bind_ran (bind_ran r f) g ≡ bind_ran r (λ a. bind_ran (f a) g)
bind_ran-bind_ran panicked f g = refl
bind_ran-bind_ran (ran a) f g = refl

pub bind_ran-ap {ℓ} :
    {A B : Type ℓ} (r : Ran A) (f g : A → Ran B)
    → ((a : A) → f a ≡ g a)
    → bind_ran r f ≡ bind_ran r g
bind_ran-ap panicked f g e = refl
bind_ran-ap (ran a) f g e = e a

-- A call of sendMessage: its chat and its text.
abbrev pub Sent : Type 0
Sent = ℤ × Text

unfoldable pub take : ℕ → Text → Text
take n [] = []
take n (c ∷ s) = elim n [ zero ↦ [] | suc n ↦ c ∷ take n s ]

unfoldable pub drop : ℕ → Text → Text
drop n [] = []
drop n (c ∷ s) = elim n [ zero ↦ c ∷ s | suc n ↦ drop n s ]

-- s[lo:hi]: a panic for bounds out of order, and for an upper bound past the end.
unfoldable pub slice : ℕ → ℤ → Text → Ran Text
unfolding take drop
slice lo (negsuc hi) s = panicked
slice lo (pos hi) s = if leb lo hi && leb hi (length s) then ran (drop lo (take hi s)) else panicked

-- e.Offset+e.Length > len(msg.Text)
unfoldable pub is_beyond : ℤ → Text → Bool
is_beyond (negsuc n) s = false
is_beyond (pos n) s = if leb n (length s) then false else true

-- The bytes that one entity of type "mention" marks; `none` where the loop skips the entity.
unfoldable pub marked : Text → TelegramMessageEntity → Option (Ran Text)
unfolding add_int
marked text e =
    if same e.kind (codes "mention")
    then elim e.offset [
      | negsuc n ↦ none
      | pos lo ↦
          if is_beyond (add_int (pos lo) e.length) text
          then none
          else some (slice lo (add_int (pos lo) e.length) text)
    ]
    else none

unfoldable pub any_mentions : Text → Text → List TelegramMessageEntity → Ran Bool
any_mentions needle text [] = ran false
any_mentions needle text (e ∷ es) =
    let rest = any_mentions needle text es in
    elim (marked text e) [
      | none ↦ rest
      | some panicked ↦ panicked
      | some (ran m) ↦ if same (to_lower m) needle then ran true else rest
    ]

unfoldable pub mentions_bot : TelegramMessage → TelegramBot → Ran Bool
mentions_bot msg tb =
    if is_empty tb.bot_name
    then ran false
    else any_mentions (b'@' ∷ to_lower tb.bot_name) msg.text msg.entities

unfoldable pub is_in : ℤ → List ℤ → Bool
is_in id [] = false
is_in id (c ∷ cs) = let rest = is_in id cs in if same id c then true else rest

-- set[id] = struct{}{}
unfoldable pub add_chat : ℤ → List ℤ → List ℤ
add_chat id set = if is_in id set then set else id ∷ set

-- tb.chats[user], nil for a missing key.
unfoldable pub chats_of : Text → Map Text (List ℤ) → List ℤ
chats_of user chats = elim (lookup user chats) [ none ↦ [] | some set ↦ set ]

abbrev pub refused : Text
refused = codes "No tienes permiso para usar este bot."

unfoldable pub known : Text → Text
known user =
    codes "Este chat ya estaba registrado para notificaciones de mod de " ++ user ++ codes "."

unfoldable pub welcome : Text → Text
welcome user =
    codes "Listo. Enviar"
    ++ 195 ∷ 169 ∷ codes " aqu"
    ++ 195 ∷ 173 ∷ codes " las notificaciones de mod de "
    ++ user
    ++ codes "."

-- The part of handleMessage behind the check of the sender: the chat is registered for the user.
unfoldable pub register : ℤ → Text → TelegramBot → TelegramBot × List Sent
register id user tb =
    let set = chats_of user tb.chats in
    (
      record tb { chats = insert user (add_chat id set) tb.chats },
      (id, if is_in id set then known user else welcome user) ∷ [],
    )

-- The answer to a mention, from what tb.admins has for the sender.
answer_mention : TelegramMessage → Option Text → TelegramBot → TelegramBot × List Sent
unfolding register
answer_mention msg none tb = (tb, (msg.chat.id, refused) ∷ [])
answer_mention msg (some user) tb = register msg.chat.id user tb

handle_from :
    TelegramMessage → TelegramUser → Ran Bool → TelegramBot → Ran (TelegramBot × List Sent)
unfolding answer_mention
handle_from msg u panicked tb = panicked
handle_from msg u (ran false) tb = ran (tb, [])
handle_from msg u (ran true) tb = ran (answer_mention msg (lookup u.id tb.admins) tb)

-- handleMessage: the bot after it, and the messages that it sends.
unfoldable pub handle_message : TelegramMessage → TelegramBot → Ran (TelegramBot × List Sent)
unfolding handle_from
handle_message msg tb = elim msg.from [
  | none ↦ ran (tb, [])
  | some u ↦ handle_from msg u (mentions_bot msg tb) tb
]
