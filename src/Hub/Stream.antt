-- ===== src/Hub/Stream.antt =====
-- events.go: ServeSSE, one stream of events of one client.
use mediavida.Base.{
  ℕ, Bool, true, false, Text, codes, Option, none, some, List, [], ◌∷◌, ◌++◌, if◌then◌else◌,
  nat_key, text_key,
}
use mediavida.Base.Maps.{lookup, insert}
use mediavida.Hub.{Channel, Hub, subscribe, unsubscribe, send}

-- What the stream writes: comments, and the frames of the channel.
pub data Written : Type 0 where
  comment frame : Text → Written

-- The hub, the stream's channel, whether its loop still runs, and what it has written.
pub record Stream : Type 0 where
  pub hub : Hub
  pub ch : ℕ
  pub running : Bool
  pub written : List Written

-- The frame of Publish.
unfoldable pub event_frame : Text → Text → Text
event_frame event payload =
    codes "event: " ++ (event ++ (10 ∷ codes "data: " ++ (payload ++ 10 ∷ 10 ∷ [])))

-- What happens to the stream: another goroutine sends a frame on its channel, the ticker ticks, the loop
-- reads from the channel, the client leaves or the server shuts down. A Bool says whether the write that
-- follows succeeds.
pub data StreamEvent : Type 0 where
  arrived : Text → StreamEvent
  ticked taken : Bool → StreamEvent
  left shut_down : StreamEvent

unfoldable pub opened_stream : Text → Hub → Stream
opened_stream client h =
    let (ch, h') = subscribe client h in
    record {
      hub = h';
      ch = ch;
      running = true;
      written = comment (codes ": connected" ++ 10 ∷ 10 ∷ []) ∷ [];
    }

-- `none` for a writer that cannot flush: it gets a 500, and no subscription is made.
unfoldable pub open_stream : Bool → Text → Hub → Option Stream
open_stream can_flush client h = if can_flush then some (opened_stream client h) else none

-- The return from the loop, with the deferred unsub.
unfoldable pub end_stream : Text → Stream → Stream
end_stream client s = record s { hub = unsubscribe client s.ch s.hub; running = false }

unfoldable pub write : Text → Bool → Written → Stream → Stream
write client false w s = end_stream client s
write client true w s = record s { written = s.written ++ (w ∷ []) }

-- The read of a channel with this buffer; nothing is read from an open channel without a frame.
unfoldable pub read_frame : Text → Bool → Option Channel → Stream → Stream
read_frame client ok none s = s
read_frame client ok (some c) s = elim c.buffer [
  | [] ↦ if c.closed then end_stream client s else s
  | f ∷ fs ↦ write client ok (frame f) (record s {
    hub = record s.hub { channels = insert s.ch (record c { buffer = fs }) s.hub.channels };
  })
]

-- One turn of the select; a goroutine that panics is `none`.
unfoldable pub turn : Text → StreamEvent → Stream → Option Stream
turn client (arrived f) s = elim (send f s.ch s.hub) [
  | none ↦ none
  | some h ↦ some (record s { hub = h })
]
turn client (ticked ok) s =
    some (if s.running then write client ok (comment (codes ": ping" ++ 10 ∷ 10 ∷ [])) s else s)
turn client (taken ok) s =
    some (if s.running then read_frame client ok (lookup s.ch s.hub.channels) s else s)
turn client left s = some (if s.running then end_stream client s else s)
turn client shut_down s = some (if s.running then end_stream client s else s)

unfoldable pub serve_sse : Text → List StreamEvent → Stream → Option Stream
serve_sse client [] s = some s
serve_sse client (e ∷ es) s = elim (turn client e s) [
  | none ↦ none
  | some s' ↦ serve_sse client es s'
]
