-- ===== src/Cache.antt =====
-- cache.go: TTLCache. Get looks under the read lock, and once more under the write lock when the
-- entry has expired; other goroutines may change the cache between the two looks.
use mediavida.Base.{
  ℕ, ◌+◌, ◌≡◌, Bool, true, false, Text, Option, none, some, arith, if◌then◌else◌, ltb, leb, same,
  text_key,
}
use mediavida.Base.Maps.{Map, lookup, insert, erase, lookup-insert, lookup-erase}

pub record CacheEntry : Type 0 where
  pub val : Text
  pub expiry : ℕ

abbrev pub Entries : Type 0
Entries = Map Text CacheEntry

-- time.Now().After(e.expiry)
unfoldable pub is_past : ℕ → CacheEntry → Bool
is_past now e = ltb e.expiry now

pub data Look : Type 0 where
  hit : Text → Look
  miss : Look
  expired : Look

unfoldable pub first_look : Text → ℕ → Entries → Look
first_look key now c = elim (lookup key c) [
  | none ↦ miss
  | some e ↦ if is_past now e then expired else hit e.val
]

unfoldable pub second_look : Text → ℕ → Entries → Option Text × Entries
second_look key now c = elim (lookup key c) [
  | none ↦ (none, erase key c)
  | some e ↦ if is_past now e then (none, erase key c) else (some e.val, c)
]

-- Get: `c` and `now` at the first look, `c'` and `now'` at the second. The cache that it leaves is
-- that of its last look.
unfoldable pub cache_get : Text → ℕ → Entries → ℕ → Entries → Option Text × Entries
cache_get key now c now' c' = elim (first_look key now c) [
  | hit v ↦ (some v, c)
  | miss ↦ (none, c)
  | expired ↦ second_look key now' c'
]

unfoldable pub cache_set : ℕ → Text → Text → ℕ → Entries → Entries
cache_set ttl key val now c = insert key (record { val = val; expiry = now + ttl }) c

-- When nothing comes between the looks, Get answers with the value that a Set has stored until its
-- time to live is over, and with nothing after that; other keys answer as before the Set.
pub cache_get-cache_set :
    (ttl now later : ℕ) (key val b : Text) (c : Entries)
    → (cache_get b later (cache_set ttl key val now c) later (cache_set ttl key val now c)).0 ≡ (
        if same key b
        then (if leb later (now + ttl) then some val else none)
        else (cache_get b later c later c).0)
unfolding cache_get cache_set first_look second_look is_past
cache_get-cache_set ttl now later key val b c =
    ground (arith, lookup-insert key b (record { val = val; expiry = now + ttl }) c)

-- The second look of Get evicts no entry that has not expired, of this key or another, and answers
-- with it if it is of this key.
pub second_look-keeps :
    (key b : Text) (now : ℕ) (c : Entries) (e : CacheEntry)
    → lookup b c ≡ some e
    → is_past now e ≡ false
    → (lookup b (second_look key now c).1 ≡ some e)
      × (same key b ≡ true → (second_look key now c).0 ≡ some e.val)
unfolding second_look
second_look-keeps key b now c e h f =
    (ground (arith, h, f, lookup-erase key b c), (λ s. ground (arith, h, f, s)))
