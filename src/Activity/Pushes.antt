-- ===== src/Activity/Pushes.antt =====
-- fcm.go: the notifications that a rise of the counters gives; ntfy.go: plural.
use mediavida.Base.{
  ℕ, ◌+◌, ◌≡◌, Bool, false, Text, codes, List, [], ◌∷◌, ◌++◌, map, arith, if◌then◌else◌, ◌||◌,
  length, same, text_key,
}
use mediavida.Base.Int.{ℤ, pos, negsuc, ltb_ℤ, int_key}
use mediavida.Numbers.{itoa}
use mediavida.Activity.{ThreadActivity, MentionActivity, fav_body, mention_body}
use mediavida.Scraper.Login.{Bubbles}

pub record PushMsg : Type 0 where
  pub title : Text
  pub body : Text
  pub tag : Text
  pub data_fields : List (Text × Text)

itoa_ℤ : ℤ → Text
itoa_ℤ (pos n) = itoa n
itoa_ℤ (negsuc n) = b'-' ∷ itoa (n + 1)

-- plural: the two formats are given by what stands before and behind their %d.
unfoldable pub plural : ℤ → Text × Text → Text × Text → Text
unfolding itoa_ℤ
plural n one many =
    if same n (pos 1) then one.0 ++ (itoa_ℤ n ++ one.1) else many.0 ++ (itoa_ℤ n ++ many.1)

mention_push : MentionActivity → PushMsg
mention_push m =
    let tag = b'n' ∷ m.key in
    record {
      title = codes "Avisos";
      body = mention_body m;
      tag = tag;
      data_fields =
          (codes "type", codes "mention")
          ∷ (codes "url", m.url)
          ∷ (codes "thread", m.key)
          ∷ (codes "tag", tag)
          ∷ [];
    }

count_mentions : Bubbles → PushMsg
count_mentions b = record {
  title = codes "Mediavida";
  body =
      plural b.notifications (codes "Tienes ", codes " aviso nuevo")
        (codes "Tienes ", codes " avisos nuevos");
  tag = codes "avisos";
  data_fields = (codes "type", codes "mention") ∷ (codes "tag", codes "avisos") ∷ [];
}

message_push : Bubbles → PushMsg
message_push b = record {
  title = codes "Mensajes privados";
  body =
      plural b.messages (codes "Tienes ", codes " mensaje privado nuevo")
        (codes "Tienes ", codes " mensajes privados nuevos");
  tag = codes "mensajes";
  data_fields = (codes "type", codes "pm") ∷ [];
}

fav_push : ThreadActivity → PushMsg
fav_push t =
    let tag = b'f' ∷ t.key in
    record {
      title = codes "Favoritos";
      body = fav_body t.count t.title;
      tag = tag;
      data_fields =
          (codes "type", codes "favorite")
          ∷ (codes "url", t.url)
          ∷ (codes "thread", t.key)
          ∷ (codes "tag", tag)
          ∷ [];
    }

count_favs : Bubbles → PushMsg
count_favs b = record {
  title = codes "Favoritos";
  body =
      plural b.favorites (codes "Actividad nueva en ", codes " hilo favorito")
        (codes "Actividad nueva en ", codes " hilos favoritos");
  tag = codes "favoritos";
  data_fields = (codes "type", codes "favorite") ∷ (codes "tag", codes "favoritos") ∷ [];
}

-- One push per item, or the count-only one when there is none and the counter rose.
unfoldable pub each_or : {A : Type 0} → (A → PushMsg) → List A → Bool → PushMsg → List PushMsg
each_or f [] rose m = if rose then m ∷ [] else []
each_or f (x ∷ xs) rose m = map f (x ∷ xs)

unfoldable pub build_activity_pushes :
    Bubbles → Bubbles → List ThreadActivity → List MentionActivity → List PushMsg
unfolding each_or mention_push count_mentions message_push fav_push count_favs
build_activity_pushes prev current fav mentions =
    each_or mention_push mentions (ltb_ℤ prev.notifications current.notifications)
      (count_mentions current)
    ++ ((if ltb_ℤ prev.messages current.messages then message_push current ∷ [] else [])
        ++ each_or fav_push fav (ltb_ℤ prev.favorites current.favorites) (count_favs current))

-- How many of the three counters rose.
unfoldable pub rises : Bubbles → Bubbles → ℕ
rises prev current =
    (if ltb_ℤ prev.notifications current.notifications then 1 else 0)
    + ((if ltb_ℤ prev.messages current.messages then 1 else 0)
        + (if ltb_ℤ prev.favorites current.favorites then 1 else 0))

-- Without enrichment there is one push for each of the three counters that rose, and no other.
pub build_activity_pushes-rises :
    (prev current : Bubbles)
    → length (build_activity_pushes prev current [] []) ≡ rises prev current
unfolding build_activity_pushes rises
build_activity_pushes-rises prev current = ground arith

-- dedupTokens: `seen` holds the tokens already kept.
member : Text → List Text → Bool
member t [] = false
member t (s ∷ ts) = same s t || member t ts

dedup_from : List Text → List Text → List Text
unfolding member
dedup_from seen [] = []
dedup_from seen (t ∷ ts) =
    let rest = dedup_from seen ts in
    let fresh = dedup_from (t ∷ seen) ts in if member t seen then rest else t ∷ fresh

-- A list of one token comes back as it is; so does it from the loop.
unfoldable pub dedup_tokens : List Text → List Text
unfolding dedup_from
dedup_tokens ts = dedup_from [] ts
