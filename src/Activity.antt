-- ===== src/Activity.antt =====
-- activity.go: the key of a thread, the unread badge, and the texts of the pushes.
pub mod Keys
pub mod Pushes
pub mod Sending
pub mod Ntfy
pub mod Fanout
use mediavida.Base.{
  ℕ, ◌*◌, Bool, true, false, Text, codes, Option, none, some, List, [], ◌∷◌, ◌++◌, not, ◌&&◌,
  if◌then◌else◌, ltb, leb, ◌==◌, is_empty,
}
use mediavida.Base.Int.{ℤ, pos, negsuc}
use mediavida.Base.Strings.{trim_space}
use mediavida.Numbers.{atoi, itoa}
use mathlib.Core.List.{reverse}

pub record ThreadActivity : Type 0 where
  pub title : Text
  pub url : Text
  pub key : Text
  pub count : ℕ

pub record MentionActivity : Type 0 where
  pub key : Text
  pub author : Text
  pub text : Text
  pub target : Text
  pub url : Text
  pub count : ℕ

-- u[:i] at the first byte `b`, or `u`.
unfoldable pub cut_at : ℕ → Text → Text
cut_at b [] = []
cut_at b (c ∷ s) = let rest = cut_at b s in if c == b then [] else c ∷ rest

drop_slashes : Text → Text
drop_slashes [] = []
drop_slashes (c ∷ s) = let rest = drop_slashes s in if c == b'/' then rest else c ∷ s

-- strings.TrimRight(u, "/")
unfoldable pub trim_right : Text → Text
unfolding drop_slashes
trim_right s = reverse (drop_slashes (reverse s))

-- strings.Split(u, "/"): the current part is given in reverse.
unfoldable pub segments : Text → Text → List Text
segments [] cur = reverse cur ∷ []
segments (c ∷ s) cur = elim (c == b'/') [
  | true ↦ reverse cur ∷ segments s []
  | false ↦ segments s (c ∷ cur)
]

is_number : Text → Bool
is_number s = elim (atoi s) [ none ↦ false | some n ↦ true ]

-- What stands behind the last `-`, if there is one.
after_dash : Text → Option Text
after_dash [] = none
after_dash (c ∷ s) = elim (after_dash s) [
  | some t ↦ some t
  | none ↦ if c == b'-' then some s else none
]

-- The key that one segment gives: the number behind its last dash, or the segment.
unfoldable pub segment_key : Text → Text
unfolding is_number after_dash
segment_key s = elim (after_dash s) [
  | none ↦ s
  | some tid ↦ if not (is_empty tid) && is_number tid then b't' ∷ tid else s
]

-- The loop over the segments from the last: empty ones and bare numbers are skipped.
unfoldable pub last_key : List Text → Option Text
unfolding is_number
last_key [] = none
last_key (s ∷ segs) =
    let rest = last_key segs in
    if is_empty s then rest else if is_number s then rest else some (segment_key s)

unfoldable pub stripped : Text → Text
stripped u = trim_right (cut_at b'?' (cut_at b'#' u))

unfoldable pub key_or : Text → Option Text → Text
key_or u none = u
key_or u (some k) = k

unfoldable pub thread_key : Text → Text
unfolding key_or
thread_key [] = []
thread_key (c ∷ u) = let v = stripped (c ∷ u) in key_or v (last_key (reverse (segments v [])))

-- parseUnread: 0 for a badge that is no number, and for a negative one.
unfoldable pub parse_unread : Text → ℕ
parse_unread s = elim (atoi (trim_space s)) [
  | none ↦ 0
  | some n ↦ elim n [ pos m ↦ m | negsuc m ↦ 0 ]
]

unfoldable pub fav_body : ℕ → Text → Text
fav_body count title =
    if count == 1
    then codes "1 mensaje nuevo en " ++ title
    else if ltb 1 count
    then itoa count ++ (codes " mensajes nuevos en " ++ title)
    else codes "Actividad nueva en " ++ title

many_mentions : MentionActivity → Text
many_mentions m =
    if is_empty m.target
    then itoa m.count ++ codes " nuevos avisos"
    else itoa m.count ++ (codes " nuevos avisos en " ++ m.target)

unfoldable pub mention_body : MentionActivity → Text
unfolding many_mentions
mention_body m =
    if leb m.count 1
    then (if not (is_empty m.text)
        then m.text
        else if not (is_empty m.author) && not (is_empty m.target)
        then m.author ++ (codes " te ha citado en " ++ m.target)
        else many_mentions m)
    else many_mentions m
