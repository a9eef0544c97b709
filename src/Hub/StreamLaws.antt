-- ===== src/Hub/StreamLaws.antt =====
-- What a stream writes of what is sent to it.
use mathlib.Core.Path.{subst}
use mathlib.Core.List.{append_assoc, append-nil}
use mediavida.Base.{
  ℕ, ◌≡◌, refl, sym, ap, ◌∙◌, Bool, true, false, Text, codes, Option, none, some, List, [], ◌∷◌,
  ◌++◌, arith, if◌then◌else◌, nat_key, text_key, Bool-cases, ◌⊎◌, inl, inr,
}
use mediavida.Base.Maps.{lookup, insert, lookup-insert_self}
use mediavida.Hub.{Channel, Hub, send}
use mediavida.Hub.Stream.{
  comment, frame, Stream, StreamEvent, arrived, ticked, taken, left, shut_down, end_stream, write,
  read_frame, turn, serve_sse,
}
use mediavida.Hub.Among.{Among, Among-front, Among-keep, Among-drop, frames, frames-append}

-- The frames that are sent on the channel.
unfoldable pub arrivals : List StreamEvent → List Text
arrivals [] = []
arrivals (arrived f ∷ es) = f ∷ arrivals es
arrivals (ticked b ∷ es) = arrivals es
arrivals (taken b ∷ es) = arrivals es
arrivals (left ∷ es) = arrivals es
arrivals (shut_down ∷ es) = arrivals es

abbrev pub buffer_of : Option Channel → List Text
buffer_of none = []
buffer_of (some c) = c.buffer

-- What is written of the frames, and what waits for the loop while it runs.
abbrev pub reached : Stream → List Text
reached s = frames s.written ++ (if s.running then buffer_of (lookup s.ch s.hub.channels) else [])

send-buffer :
    (f : Text) (ch : ℕ) (h h' : Hub)
    → send f ch h ≡ some h'
    → (buffer_of (lookup ch h'.channels) ≡ buffer_of (lookup ch h.channels) ++ f ∷ [])
      ⊎ (buffer_of (lookup ch h'.channels) ≡ buffer_of (lookup ch h.channels))
unfolding send
send-buffer f ch h h' e = grind (arith, lookup-insert_self)

-- A stream that ends has written no more than what it had reached.
end_stream-Among :
    (client : Text) (s : Stream) (zs past : List Text)
    → Among (frames s.written ++ zs) past
    → Among (reached (end_stream client s)) past
unfolding end_stream
end_stream-Among client s zs past a =
    rw (append-nil (frames s.written)) (Among-front (frames s.written) zs past a)

write_comment-Among :
    (client t : Text) (ok : Bool) (s : Stream) (past : List Text)
    → s.running ≡ true
    → Among (reached s) past
    → Among (reached (write client ok (comment t) s)) past
unfolding write frames
write_comment-Among client t false s past r a =
    end_stream-Among client s (buffer_of (lookup s.ch s.hub.channels)) past (rw r at a)
write_comment-Among client t true s past r a =
    rw (frames-append s.written (comment t ∷ []), append-nil (frames s.written)) a

-- The stream with another buffer in its channel.
abbrev with_buffer : Bool → List Text → Stream → Stream
with_buffer closed fs s = record s {
  hub = record s.hub {
    channels = insert s.ch (record { buffer = fs; closed = closed }) s.hub.channels;
  };
}

write_frame-Among :
    (client f : Text) (fs : List Text) (ok closed : Bool) (s : Stream) (past : List Text)
    → s.running ≡ true
    → Among (frames s.written ++ f ∷ fs) past
    → Among (reached (write client ok (frame f) (with_buffer closed fs s))) past
unfolding write frames
write_frame-Among client f fs false closed s past r a =
    end_stream-Among client (with_buffer closed fs s) (f ∷ fs) past a
write_frame-Among client f fs true closed s past r a =
    let written = frames-append s.written (frame f ∷ []) in
    let inserted =
      lookup-insert_self s.ch (record { buffer = fs; closed = closed }) s.hub.channels in
    subst (λ l. Among l past)
      (sym (append_assoc (frames s.written) (f ∷ []) fs) ∙ rw (r, inserted, written) refl) a

read_frame-Among :
    (client : Text) (ok closed : Bool) (buffer : List Text) (s : Stream) (past : List Text)
    → lookup s.ch s.hub.channels ≡ some (record { buffer = buffer; closed = closed })
    → s.running ≡ true
    → Among (reached s) past
    → Among
        (reached (read_frame client ok (some (record { buffer = buffer; closed = closed })) s))
        past
unfolding read_frame
read_frame-Among client ok true [] s past e r a = end_stream-Among client s [] past (rw (r, e) at a)
read_frame-Among client ok false [] s past e r a = a
read_frame-Among client ok closed (f ∷ fs) s past e r a =
    write_frame-Among client f fs ok closed s past r (rw (r, e) at a)

-- What holds of the stream, unless a goroutine has panicked.
abbrev pub Holds : (Stream → Type 0) → Option Stream → Type 0
Holds P none = Unit {0}
Holds P (some s) = P s

arrived-Among :
    (f : Text) (s : Stream) (past : List Text) (o : Option Hub)
    → send f s.ch s.hub ≡ o
    → Among (reached s) past
    → Holds
        (λ s'. Among (reached s') (past ++ f ∷ []))
        (elim o [ none ↦ none | some h ↦ some (record s { hub = h }) ])
arrived-Among f s past none e a = tt
arrived-Among f s past (some h) e a = elim (Bool-cases s.running) [
  | inl r ↦ elim (send-buffer f s.ch s.hub h e) [
    | inl b ↦
        rw (r, b)
          (subst (λ l. Among l (past ++ f ∷ []))
            (append_assoc (frames s.written) (buffer_of (lookup s.ch s.hub.channels)) (f ∷ []))
            (Among-keep f (frames s.written ++ buffer_of (lookup s.ch s.hub.channels)) past
              (rw r at a)))
    | inr b ↦
        rw (r, b)
          (Among-drop f (frames s.written ++ buffer_of (lookup s.ch s.hub.channels)) past
            (rw r at a))
  ]
  | inr r ↦ rw r (Among-drop f (frames s.written ++ []) past (rw r at a))
]

taken-Among :
    (client : Text) (ok : Bool) (s : Stream) (past : List Text) (o : Option Channel)
    → lookup s.ch s.hub.channels ≡ o
    → s.running ≡ true
    → Among (reached s) past
    → Among (reached (read_frame client ok o s)) past
unfolding read_frame
taken-Among client ok s past none e r a = a
taken-Among client ok s past (some c) e r a =
    read_frame-Among client ok c.closed c.buffer s past e r a

ended-Among :
    (client : Text) (s : Stream) (past : List Text)
    → Among (reached s) past
    → Among (reached (end_stream client s)) past
ended-Among client s past a =
    end_stream-Among client s (if s.running then buffer_of (lookup s.ch s.hub.channels) else [])
      past a

-- A turn that only a running loop takes, and that sends nothing.
guarded-Among :
    (b : Bool) (t s : Stream) (past : List Text)
    → (b ≡ true → Among (reached t) past)
    → Among (reached s) past
    → Among (reached (if b then t else s)) (past ++ [])
guarded-Among true t s past h a = rw (append-nil past) (h refl)
guarded-Among false t s past h a = rw (append-nil past) a

turn-Among :
    (client : Text) (e : StreamEvent) (s : Stream) (past : List Text)
    → Among (reached s) past
    → Holds (λ s'. Among (reached s') (past ++ arrivals (e ∷ []))) (turn client e s)
unfolding turn arrivals
turn-Among client (arrived f) s past a = arrived-Among f s past (send f s.ch s.hub) refl a
turn-Among client (ticked ok) s past a =
    let ping : Text = codes ": ping" ++ 10 ∷ 10 ∷ [] in
    guarded-Among s.running (write client ok (comment ping) s) s past
      (λ r. write_comment-Among client ping ok s past r a) a
turn-Among client (taken ok) s past a =
    let o : Option Channel = lookup s.ch s.hub.channels in
    guarded-Among s.running (read_frame client ok o s) s past
      (λ r. taken-Among client ok s past o refl r a) a
turn-Among client left s past a =
    guarded-Among s.running (end_stream client s) s past (λ r. ended-Among client s past a) a
turn-Among client shut_down s past a =
    guarded-Among s.running (end_stream client s) s past (λ r. ended-Among client s past a) a

arrivals-next :
    (e : StreamEvent) (es : List StreamEvent) → arrivals (e ∷ []) ++ arrivals es ≡ arrivals (e ∷ es)
unfolding arrivals
arrivals-next (arrived f) es = refl
arrivals-next (ticked ok) es = refl
arrivals-next (taken ok) es = refl
arrivals-next left es = refl
arrivals-next shut_down es = refl

Holds-bind :
    (P Q : Stream → Type 0) (k : Stream → Option Stream) (o : Option Stream)
    → Holds P o
    → ((s : Stream) → P s → Holds Q (k s))
    → Holds Q (elim o [ none ↦ none | some s ↦ k s ])
Holds-bind P Q k none h f = tt
Holds-bind P Q k (some s) h f = f s h

pub serve_from-Among :
    (client : Text) (es : List StreamEvent) (s : Stream) (past : List Text)
    → Among (reached s) past
    → Holds (λ s'. Among (reached s') (past ++ arrivals es)) (serve_sse client es s)
unfolding serve_sse
serve_from-Among client [] s past a = unfold arrivals in rw (append-nil past) a
serve_from-Among client (e ∷ es) s past a =
    Holds-bind (λ s'. Among (reached s') (past ++ arrivals (e ∷ [])))
      (λ s'. Among (reached s') (past ++ arrivals (e ∷ es))) (serve_sse client es) (turn client e s)
      (turn-Among client e s past a)
      (λ s' h.
        subst (λ l. Holds (λ s''. Among (reached s'') l) (serve_sse client es s'))
          (append_assoc past (arrivals (e ∷ [])) (arrivals es)
            ∙ ap (λ l. past ++ l) (arrivals-next e es))
          (serve_from-Among client es s' (past ++ arrivals (e ∷ [])) h))
