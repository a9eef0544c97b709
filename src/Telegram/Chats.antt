-- ===== src/Telegram/Chats.antt =====
-- telegram.go: loadChats, saveChats and SendModAlert.
use mediavida.Base.{
  ◌≡◌, refl, Text, Option, none, some, List, [], ◌∷◌, map, arith, text_key, Bool, true, same,
  if◌then◌else◌, ap, ◌∙◌, sym,
}
use mathlib.Core.Path.{subst}
use mediavida.Base.Int.{ℤ, int_key}
use mediavida.Base.Maps.{Map, lookup, insert, lookup-insert}
use mediavida.Telegram.{TelegramBot, Sent, chats_of, is_in, add_chat}

-- encoding/json at map[string][]int64.
pub record ChatsJson : Type 0 where
  pub marshal : Map Text (List ℤ) → Text
  pub unmarshal : Text → Option (Map Text (List ℤ))

unfoldable pub set_of : List ℤ → List ℤ
set_of [] = []
set_of (id ∷ ids) = add_chat id (set_of ids)

unfoldable pub restore_chats : Map Text (List ℤ) → Map Text (List ℤ) → Map Text (List ℤ)
restore_chats [] chats = chats
restore_chats ((user, ids) ∷ m) chats = insert user (set_of ids) (restore_chats m chats)

abbrev loaded : TelegramBot → Option (Map Text (List ℤ)) → TelegramBot
loaded tb none = tb
loaded tb (some m) = record tb { chats = restore_chats m tb.chats }

-- loadChats; the file is `none` when it cannot be read.
unfoldable pub load_chats : ChatsJson → Option Text → TelegramBot → TelegramBot
load_chats json none tb = tb
load_chats json (some text) tb = loaded tb (json.unmarshal text)

-- saveChats: what it writes to the file.
unfoldable pub save_chats : ChatsJson → TelegramBot → Text
save_chats json tb = json.marshal tb.chats

-- SendModAlert: the messages that it sends; the bot is `none` when it is nil.
unfoldable pub send_mod_alert : Text → Text → Option TelegramBot → List Sent
send_mod_alert user text none = []
send_mod_alert user text (some tb) = map (λ id. (id, text)) (chats_of user tb.chats)

is_in-add_chat :
    (a b : ℤ) (set : List ℤ) → is_in b (add_chat a set) ≡ (if same b a then true else is_in b set)
unfolding is_in add_chat
is_in-add_chat a b set = ground arith

is_in-set_of : (id : ℤ) (ids : List ℤ) → is_in id (set_of ids) ≡ is_in id ids
unfolding is_in set_of
is_in-set_of id [] = refl
is_in-set_of id (c ∷ ids) = ground (arith, is_in-add_chat c id (set_of ids), is_in-set_of id ids)

lookup-restore_chats :
    (user : Text) (m chats : Map Text (List ℤ))
    → lookup user (restore_chats m chats)
      ≡ elim (lookup user m) [ none ↦ lookup user chats | some ids ↦ some (set_of ids) ]
unfolding lookup restore_chats
lookup-restore_chats user [] chats = refl
lookup-restore_chats user ((u, ids) ∷ m) chats = ground (
  arith,
  lookup-insert u user (set_of ids) (restore_chats m chats),
  lookup-restore_chats user m chats,
)

-- Whether `id` is in the set that a look-up answers.
abbrev members : ℤ → Option (List ℤ) → Bool
members id o = is_in id (elim o [ none ↦ [] | some set ↦ set ])

members-set_of :
    (id : ℤ) (o : Option (List ℤ))
    → members id (elim o [ none ↦ none | some ids ↦ some (set_of ids) ]) ≡ members id o
members-set_of id none = refl
members-set_of id (some ids) = is_in-set_of id ids

is_in-restore_chats :
    (user : Text) (id : ℤ) (m : Map Text (List ℤ))
    → is_in id (chats_of user (restore_chats m [])) ≡ is_in id (chats_of user m)
unfolding chats_of lookup
is_in-restore_chats user id m =
    ap (members id) (lookup-restore_chats user m []) ∙ members-set_of id (lookup user m)

-- A bot that starts anew and loads what a bot has saved knows the same chats of every user, if
-- encoding/json reads what it has written of the chats of that bot back as a map with the same
-- entries.
pub load_chats-save_chats :
    (json : ChatsJson) (old new : TelegramBot) (m : Map Text (List ℤ))
    → json.unmarshal (json.marshal old.chats) ≡ some m
    → ((u : Text) → lookup u m ≡ lookup u old.chats)
    → new.chats ≡ []
    → (user : Text) (id : ℤ)
    → is_in id (chats_of user (load_chats json (some (save_chats json old)) new).chats)
      ≡ is_in id (chats_of user old.chats)
unfolding load_chats save_chats chats_of
load_chats-save_chats json old new m u same_entries e user id =
    subst (λ o. is_in id (chats_of user (loaded new o).chats) ≡ is_in id (chats_of user old.chats))
      (sym u) (rw e (is_in-restore_chats user id m ∙ ap (members id) (same_entries user)))
