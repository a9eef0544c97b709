-- ===== src/Hub/Laws.antt =====
-- What a publish does to the streams, and what an unsubscription in the middle of it does.
use mediavida.Base.{
  ℕ, ◌≡◌, ◌≤◌, refl, ◌∙◌, ◌⊎◌, inl, inr, not, Bool, true, false, Text, Option, none, some, List, [],
  ◌∷◌, arith, if◌then◌else◌, same, text_key, nat_key, length, length-append,
}
use mediavida.Base.Maps.{lookup, lookup-insert, lookup-insert_self}
use mediavida.Hub.{
  Channel, Hub, buffer_size, subscribed, close, unsubscribe, send, send_all, publish_frame,
}

unfoldable pub listed : ℕ → List ℕ → Bool
listed ch [] = false
listed ch (c ∷ cs) = let rest = listed ch cs in if same c ch then true else rest

-- The channel is there and closed.
unfoldable pub is_closed : ℕ → Hub → Bool
is_closed ch h = elim (lookup ch h.channels) [ none ↦ false | some c ↦ c.closed ]

-- Whether a channel is closed is not changed by a send.
send-is_closed :
    (frame : Text) (ch a : ℕ) (h h' : Hub)
    → send frame a h ≡ some h'
    → is_closed ch h' ≡ is_closed ch h
unfolding send is_closed
send-is_closed frame ch a h h' e = grind (arith, e, lookup-insert)

is_closed-unsubscribe :
    (client : Text) (ch : ℕ) (h : Hub) (c : Channel)
    → lookup ch h.channels ≡ some c
    → is_closed ch (unsubscribe client ch h) ≡ true
unfolding unsubscribe close is_closed
is_closed-unsubscribe client ch h c o =
    ground (arith, o, lookup-insert_self ch (record c { closed = true }) h.channels)

send_self : (frame : Text) (ch : ℕ) (h : Hub) → is_closed ch h ≡ true → send frame ch h ≡ none
unfolding send is_closed
send_self frame ch h c = ground (arith, c)

Option-cases : {A : Type 0} (o : Option A) → (o ≡ none) ⊎ ((x : A) × (o ≡ some x))
Option-cases none = inl refl
Option-cases (some x) = inr (x, refl)

module _ (frame : Text) (ch : ℕ) where
  -- A list of sends with a closed channel among them panics.
  send_all-closed :
      (dest : List ℕ) (h : Hub)
      → listed ch dest ≡ true
      → is_closed ch h ≡ true
      → send_all frame dest h ≡ none
  unfolding listed send_all
  send_all-closed [] h l c = ground (arith, l)
  send_all-closed (a ∷ dest) h l c = elim (Option-cases (send frame a h)) [
    | inl e ↦ ground (arith, e)
    | inr e ↦ ground (
      arith,
      e.1,
      l,
      send_self frame ch h c,
      send_all-closed dest e.0 (ground (arith, l, e.1, send_self frame ch h c))
          (send-is_closed frame ch a h e.0 e.1 ∙ c),
    )
  ]

-- When one of the streams that Publish has listed ends before the sends, the sends panic: they
-- reach a channel that is closed.
send_all-unsubscribe :
    (client frame : Text) (ch : ℕ) (h : Hub) (c : Channel)
    → listed ch (subscribed client h) ≡ true
    → lookup ch h.channels ≡ some c
    → send_all frame (subscribed client h) (unsubscribe client ch h) ≡ none
send_all-unsubscribe client frame ch h c l o =
    send_all-closed frame ch (subscribed client h) (unsubscribe client ch h) l
      (is_closed-unsubscribe client ch h c o)

-- The channel is there and open.
unfoldable pub is_open : ℕ → Hub → Bool
is_open ch h = elim (lookup ch h.channels) [ none ↦ false | some c ↦ not c.closed ]

send-open :
    (frame : Text) (a : ℕ) (h : Hub) → is_open a h ≡ true → (h' : Hub) × (send frame a h ≡ some h')
unfolding send is_open
send-open frame a h o = elim (Option-cases (send frame a h)) [
  | inl e ↦ ground (arith, e, o)
  | inr e ↦ e
]

send-is_open :
    (frame : Text) (ch a : ℕ) (h h' : Hub) → send frame a h ≡ some h' → is_open ch h' ≡ is_open ch h
unfolding send is_open
send-is_open frame ch a h h' e = grind (arith, e, lookup-insert)

send_all-open :
    (frame : Text) (dest : List ℕ) (h : Hub)
    → ((ch : ℕ) → listed ch dest ≡ true → is_open ch h ≡ true)
    → (h' : Hub) × (send_all frame dest h ≡ some h')
unfolding send_all listed
send_all-open frame [] h o = (h, refl)
send_all-open frame (a ∷ dest) h o =
    let (h', e) = send-open frame a h (o a (ground arith)) in
    let (last, r) =
      send_all-open frame dest h'
        (λ ch l. send-is_open frame ch a h h' e ∙ o ch (ground (arith, l))) in
    (last, ground (arith, e, r))

-- While the channels of a client's streams are open, a publish that nothing interrupts does not
-- panic.
pub publish_frame-open :
    (client frame : Text) (h : Hub)
    → ((ch : ℕ) → listed ch (subscribed client h) ≡ true → is_open ch h ≡ true)
    → (h' : Hub) × (publish_frame client frame h ≡ some h')
unfolding publish_frame
publish_frame-open client frame h o = send_all-open frame (subscribed client h) h o

-- A send that does not panic keeps each buffer of at most 16 frames at most 16 long.
pub send-bound :
    (frame : Text) (a ch : ℕ) (h h' : Hub) (c c' : Channel)
    → send frame a h ≡ some h'
    → lookup ch h.channels ≡ some c
    → lookup ch h'.channels ≡ some c'
    → length c.buffer ≤ buffer_size
    → length c'.buffer ≤ buffer_size
unfolding send
send-bound frame a ch h h' c c' e l l' b = grind (arith, e, l, l', b, lookup-insert, length-append)
