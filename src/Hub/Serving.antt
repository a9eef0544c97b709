-- ===== src/Hub/Serving.antt =====
-- What a whole stream writes, and when its loop goes on.
use mediavida.Base.{
  ◌≡◌, refl, Bool, true, false, Text, Option, none, some, List, [], ◌∷◌, arith, if◌then◌else◌, ◌&&◌,
  not, nat_key, text_key,
}
use mediavida.Base.Maps.{lookup, lookup-insert_self}
use mediavida.Hub.{Hub, subscribe, send}
use mediavida.Hub.Stream.{
  Stream, StreamEvent, arrived, ticked, taken, left, shut_down, opened_stream, write, read_frame,
  turn, serve_sse,
}
use mediavida.Hub.Among.{Among, Among-front, frames}
use mediavida.Hub.StreamLaws.{Holds, arrivals, reached, buffer_of, serve_from-Among}

-- An event that leaves the loop running.
unfoldable pub is_calm : StreamEvent → Bool
is_calm (arrived f) = true
is_calm (ticked ok) = ok
is_calm (taken ok) = ok
is_calm left = false
is_calm shut_down = false

unfoldable pub all_calm : List StreamEvent → Bool
all_calm [] = true
all_calm (e ∷ es) = let rest = all_calm es in if is_calm e then rest else false

-- The loop runs, and its channel is open.
abbrev pub is_open : Stream → Bool
is_open s = s.running && elim (lookup s.ch s.hub.channels) [ none ↦ false | some c ↦ not c.closed ]

abbrev pub is_serving : Option Stream → Bool
is_serving none = false
is_serving (some s) = is_open s

turn-is_open :
    (client : Text) (e : StreamEvent) (s : Stream)
    → is_calm e ≡ true
    → is_open s ≡ true
    → is_serving (turn client e s) ≡ true
unfolding turn is_calm send read_frame write
turn-is_open client (arrived f) s c o = grind (arith, lookup-insert_self)
turn-is_open client (ticked ok) s c o = grind (arith, lookup-insert_self)
turn-is_open client (taken ok) s c o = grind (arith, lookup-insert_self)
turn-is_open client left s c o = ground (arith, c)
turn-is_open client shut_down s c o = ground (arith, c)

serve_from-is_open :
    (client : Text) (es : List StreamEvent) (s : Stream)
    → all_calm es ≡ true
    → is_open s ≡ true
    → is_serving (serve_sse client es s) ≡ true
unfolding serve_sse all_calm
serve_from-is_open client [] s c o = o
serve_from-is_open client (e ∷ es) s c o =
    grind (arith, turn-is_open client e s, serve_from-is_open client es)

opened_stream-is_open : (client : Text) (h : Hub) → is_open (opened_stream client h) ≡ true
unfolding opened_stream subscribe
opened_stream-is_open client h =
    rw (lookup-insert_self h.next (record { buffer = []; closed = false }) h.channels) refl

-- Holds is kept by a weaker predicate.
Holds-map :
    (P Q : Stream → Type 0) (o : Option Stream) → ((s : Stream) → P s → Q s) → Holds P o → Holds Q o
Holds-map P Q none f h = tt
Holds-map P Q (some s) f h = f s h

-- From its subscription on, whatever happens, unless a goroutine panics, a stream has written frames that
-- were sent on its channel, in the order of the sends and none twice; and while the client stays, the
-- server runs and the writes succeed, nothing panics and the loop goes on.
pub serve_sse-Among :
    (client : Text) (h : Hub) (es : List StreamEvent)
    → Holds
        (λ s. Among (frames s.written) (arrivals es))
        (serve_sse client es (opened_stream client h))
      × ((all_calm es && not (is_serving (serve_sse client es (opened_stream client h)))) ≡ false)
unfolding opened_stream subscribe frames
serve_sse-Among client h es = (
  Holds-map (λ s. Among (reached s) (arrivals es)) (λ s. Among (frames s.written) (arrivals es))
      (serve_sse client es (opened_stream client h))
      (λ s a.
        Among-front (frames s.written)
          (if s.running then buffer_of (lookup s.ch s.hub.channels) else []) (arrivals es) a)
      (serve_from-Among client es (opened_stream client h) []
        (rw (lookup-insert_self h.next (record { buffer = []; closed = false }) h.channels) tt)),
  ground (
    arith,
    serve_from-is_open client es (opened_stream client h),
    opened_stream-is_open client h,
  ),
)
