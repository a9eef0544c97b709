-- ===== src/Examples/Json.antt =====
-- Packages whose unmarshal reads back what its marshal wrote, and a save that is loaded again.
use mediavida.Base.{
  ℕ, zero, suc, ◌≡◌, refl, Bool, true, false, Text, codes, Option, none, some, List, [], ◌∷◌, ◌++◌,
  arith, length, ap,
}
use native.Mathlib.Decide.{ℕ_discrete}
use mediavida.Base.Keys.{text_discrete}
use mediavida.Base.Int.{ℤ, pos, negsuc}
use mediavida.Base.Sort.{sort_strings, place}
use mediavida.Scraper.{Cookie, SavedSession, ForumScraper, Packages}
use mediavida.Scraper.Cookies.{
  auth_cookie_fingerprint, new_scraper, saved_cookie, save_session, load_session, auth_pairs,
  is_auth_cookie, join_zero,
}
use mediavida.Scraper.Roundtrip.{written, load_session-save_session}
use mediavida.Base.Maps.{Map}
use mediavida.Telegram.{chats_of, is_in}
use mediavida.Telegram.Chats.{ChatsJson, load_chats, save_chats, load_chats-save_chats}
use mediavida.Examples.{forum, sid, one_session}
use mediavida.Examples.TelegramRuns.{bot, polled}

put : Text → Text → Text
put t rest = length t ∷ (t ++ rest)

split : ℕ → Text → Option (Text × Text)
split zero s = some ([], s)
split (suc n) [] = none
split (suc n) (c ∷ s) = elim (split n s) [ none ↦ none | some p ↦ some (c ∷ p.0, p.1) ]

split-append : (t rest : Text) → split (length t) (t ++ rest) ≡ some (t, rest)
unfolding split
split-append [] rest = refl
split-append (c ∷ t) rest = ground (arith, split-append t rest)

get : Text → Option (Text × Text)
get [] = none
get (n ∷ s) = split n s

put_all : List Text → Text
put_all [] = []
put_all (t ∷ ts) = put t (put_all ts)

get_all : ℕ → Text → Option (List Text)
get_all zero s = some []
get_all (suc n) s = elim (get s) [
  | none ↦ none
  | some p ↦ elim (get_all n p.1) [ none ↦ none | some ts ↦ some (p.0 ∷ ts) ]
]

get_all-put_all : (ts : List Text) → get_all (length ts) (put_all ts) ≡ some ts
unfolding get_all put_all get put
get_all-put_all [] = refl
get_all-put_all (t ∷ ts) = ground (arith, split-append t (put_all ts), get_all-put_all ts)

bit : Bool → ℕ
bit true = 1
bit false = 0

flags : Text → Bool × Bool
flags (suc a ∷ suc b ∷ []) = (true, true)
flags (suc a ∷ zero ∷ []) = (true, false)
flags (zero ∷ suc b ∷ []) = (false, true)
flags _ = (false, false)

expiry : Option ℕ → Text
expiry none = []
expiry (some n) = n ∷ []

expiry_of : Text → Option ℕ
expiry_of [] = none
expiry_of (n ∷ s) = some n

age : ℤ → Text
age (pos n) = 0 ∷ n ∷ []
age (negsuc n) = 1 ∷ n ∷ []

age_of : Text → ℤ
age_of (suc a ∷ n ∷ []) = negsuc n
age_of (zero ∷ n ∷ []) = pos n
age_of _ = pos 0

parts : List Cookie → List Text
parts [] = []
parts (c ∷ cs) =
    c.name
    ∷ c.value
    ∷ c.domain
    ∷ c.path
    ∷ expiry c.expires
    ∷ age c.max_age
    ∷ (bit c.secure ∷ bit c.http_only ∷ [])
    ∷ parts cs

cookies_of : List Text → List Cookie
cookies_of (n ∷ v ∷ d ∷ p ∷ e ∷ a ∷ f ∷ ts) =
    record {
      name = n;
      value = v;
      domain = d;
      path = p;
      expires = expiry_of e;
      max_age = age_of a;
      secure = (flags f).0;
      http_only = (flags f).1;
    }
    ∷ cookies_of ts
cookies_of _ = []

expiry_of-expiry : (o : Option ℕ) → expiry_of (expiry o) ≡ o
unfolding expiry_of expiry
expiry_of-expiry none = refl
expiry_of-expiry (some n) = refl

age_of-age : (z : ℤ) → age_of (age z) ≡ z
unfolding age_of age
age_of-age (pos n) = refl
age_of-age (negsuc n) = refl

flags-bit : (a b : Bool) → flags (bit a ∷ bit b ∷ []) ≡ (a, b)
unfolding flags bit
flags-bit true true = refl
flags-bit true false = refl
flags-bit false true = refl
flags-bit false false = refl

cookies_of-parts : (cs : List Cookie) → cookies_of (parts cs) ≡ cs
unfolding cookies_of parts
cookies_of-parts [] = refl
cookies_of-parts (c ∷ cs) =
    rw
      (
        expiry_of-expiry c.expires,
        age_of-age c.max_age,
        flags-bit c.secure c.http_only,
        cookies_of-parts cs,
      )
      refl

read_session : List Text → Option SavedSession
read_session (u ∷ p ∷ ts) = some (record { user = u; pass = p; cookies = cookies_of ts })
read_session _ = none

read : Text → Option SavedSession
read [] = none
read (n ∷ s) = elim (get_all n s) [ none ↦ none | some ts ↦ read_session ts ]

write : SavedSession → Text
write s = let ts = s.user ∷ s.pass ∷ parts s.cookies in length ts ∷ put_all ts

read-write : (s : SavedSession) → read (write s) ≡ some s
unfolding read write read_session
read-write s =
    ground (arith, get_all-put_all (s.user ∷ s.pass ∷ parts s.cookies), cookies_of-parts s.cookies)

-- A jar that gives back names and values only.
stripped : List Cookie → List Cookie
stripped [] = []
stripped (c ∷ cs) =
    record c {
      domain = [];
      path = [];
      expires = none;
      max_age = pos 0;
      secure = false;
      http_only = false;
    }
    ∷ stripped cs

abbrev json : Packages
json = record {
  marshal = write;
  unmarshal = read;
  sha256_hex = λ t. t;
  set_cookies = λ cs jar. stripped cs;
}

abbrev auth_forum : ForumScraper
auth_forum = record forum {
  jar = record sid { name = codes "sess"; secure = false; http_only = false } ∷ [];
}

load_session-save_session_example :
    load_session json true 1000
      (new_scraper [] [] auth_forum.client_id)
      (save_session json true 100 auth_forum one_session).1
    ≡ (
      true,
      record (new_scraper [] [] auth_forum.client_id) {
        user = auth_forum.user;
        pass = auth_forum.pass;
        jar = auth_forum.jar;
        last_cookie_fingerprint = auth_cookie_fingerprint json auth_forum.jar;
        logged_in = true;
      },
    )
unfolding auth_cookie_fingerprint auth_pairs is_auth_cookie join_zero sort_strings place
    text_discrete ℕ_discrete stripped saved_cookie
load_session-save_session_example =
    load_session-save_session json 100 1000 auth_forum one_session
      (read-write (written 100 auth_forum)) refl (ground arith) (ground arith) (ground arith)
      ((refl, refl), tt) (omega arith)

ids_text : List ℤ → Text
ids_text [] = []
ids_text (pos n ∷ ids) = 0 ∷ n ∷ ids_text ids
ids_text (negsuc n ∷ ids) = 1 ∷ n ∷ ids_text ids

ids_of : Text → List ℤ
ids_of (zero ∷ n ∷ s) = pos n ∷ ids_of s
ids_of (suc a ∷ n ∷ s) = negsuc n ∷ ids_of s
ids_of _ = []

ids_of-ids_text : (ids : List ℤ) → ids_of (ids_text ids) ≡ ids
unfolding ids_of ids_text
ids_of-ids_text [] = refl
ids_of-ids_text (pos n ∷ ids) = ap (λ l. pos n ∷ l) (ids_of-ids_text ids)
ids_of-ids_text (negsuc n ∷ ids) = ap (λ l. negsuc n ∷ l) (ids_of-ids_text ids)

chat_parts : Map Text (List ℤ) → List Text
chat_parts [] = []
chat_parts ((user, ids) ∷ m) = user ∷ ids_text ids ∷ chat_parts m

chats_from : List Text → Map Text (List ℤ)
chats_from (user ∷ ids ∷ ts) = (user, ids_of ids) ∷ chats_from ts
chats_from _ = []

chats_from-chat_parts : (m : Map Text (List ℤ)) → chats_from (chat_parts m) ≡ m
unfolding chats_from chat_parts
chats_from-chat_parts [] = refl
chats_from-chat_parts ((user, ids) ∷ m) = rw (ids_of-ids_text ids, chats_from-chat_parts m) refl

write_chats : Map Text (List ℤ) → Text
write_chats m = length (chat_parts m) ∷ put_all (chat_parts m)

read_chats : Text → Option (Map Text (List ℤ))
read_chats [] = none
read_chats (n ∷ s) = elim (get_all n s) [ none ↦ none | some ts ↦ some (chats_from ts) ]

read_chats-write_chats : (m : Map Text (List ℤ)) → read_chats (write_chats m) ≡ some m
unfolding read_chats write_chats
read_chats-write_chats m = ground (arith, get_all-put_all (chat_parts m), chats_from-chat_parts m)

abbrev chats_json : ChatsJson
chats_json = record { marshal = write_chats; unmarshal = read_chats }

load_chats-save_chats_example :
    is_in (pos 55) (
      chats_of
        (codes "jairo")
        (load_chats chats_json (some (save_chats chats_json polled.bot)) bot).chats)
    ≡ is_in (pos 55) (chats_of (codes "jairo") polled.bot.chats)
load_chats-save_chats_example =
    load_chats-save_chats chats_json polled.bot bot polled.bot.chats
      (read_chats-write_chats polled.bot.chats) (λ u. refl) refl (codes "jairo") (pos 55)
