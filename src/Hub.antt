-- ===== src/Hub.antt =====
-- events.go: EventHub, its subscribers and the buffered channels they read from.
pub mod Laws
pub mod Stream
pub mod Among
pub mod StreamLaws
pub mod Serving
use mediavida.Base.{
  ℕ, suc, Bool, true, false, Text, Option, none, some, List, [], ◌∷◌, ◌++◌, if◌then◌else◌, ltb, not,
  same, text_key, nat_key, length,
}
use mediavida.Base.Maps.{Map, lookup, insert, erase}

pub record Channel : Type 0 where
  pub buffer : List Text
  pub closed : Bool

-- `subscribers` holds, for each client, the channels of its streams; `channels` is the store of
-- the channels, which a goroutine may still hold when its subscription is over.
pub record Hub : Type 0 where
  pub subscribers : Map Text (List ℕ)
  pub channels : Map ℕ Channel
  pub next : ℕ

abbrev pub buffer_size : ℕ
buffer_size = 16

-- h.subscribers[clientID]
unfoldable pub subscribed : Text → Hub → List ℕ
subscribed client h = elim (lookup client h.subscribers) [ none ↦ [] | some chs ↦ chs ]

unfoldable pub subscribe : Text → Hub → ℕ × Hub
subscribe client h = (
  h.next,
  record h {
    subscribers = insert client (h.next ∷ subscribed client h) h.subscribers;
    channels = insert h.next (record { buffer = []; closed = false }) h.channels;
    next = suc h.next;
  },
)

unfoldable pub without : ℕ → List ℕ → List ℕ
without ch [] = []
without ch (c ∷ cs) = let rest = without ch cs in if same c ch then rest else c ∷ rest

-- if len(subs) == 0 { delete(h.subscribers, clientID) }
stored : Text → List ℕ → Map Text (List ℕ) → Map Text (List ℕ)
stored client [] m = erase client m
stored client (c ∷ cs) m = insert client (c ∷ cs) m

unfoldable pub close : ℕ → Hub → Hub
close ch h = elim (lookup ch h.channels) [
  | none ↦ h
  | some c ↦ record h { channels = insert ch (record c { closed = true }) h.channels }
]

-- The unsub function of subscribe.
unfoldable pub unsubscribe : Text → ℕ → Hub → Hub
unfolding stored
unsubscribe client ch h = close ch (elim (lookup client h.subscribers) [
  | none ↦ h
  | some subs ↦ record h { subscribers = stored client (without ch subs) h.subscribers }
])

-- select { case ch <- frame: default: }: `none` is the panic of a send on a closed channel; a
-- full buffer drops the frame, as a nil channel does.
unfoldable pub send : Text → ℕ → Hub → Option Hub
send frame ch h = elim (lookup ch h.channels) [
  | none ↦ some h
  | some c ↦
      if c.closed
      then none
      else if ltb (length c.buffer) buffer_size
      then some (record h {
        channels = insert ch (record c { buffer = c.buffer ++ (frame ∷ []) }) h.channels;
      })
      else some h
]

-- The loop of Publish over the channels that it listed under the lock.
unfoldable pub send_all : Text → List ℕ → Hub → Option Hub
send_all frame [] h = some h
send_all frame (ch ∷ dest) h = elim (send frame ch h) [
  | none ↦ none
  | some h' ↦ send_all frame dest h'
]

-- Publish, when nothing comes between the two parts of it.
unfoldable pub publish_frame : Text → Text → Hub → Option Hub
publish_frame client frame h = send_all frame (subscribed client h) h

unfoldable pub has_subscribers : Text → Hub → Bool
has_subscribers client h = ltb 0 (length (subscribed client h))
