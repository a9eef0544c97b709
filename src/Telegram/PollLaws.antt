-- ===== src/Telegram/PollLaws.antt =====
-- telegram.go: what holds of the loop of pollUpdates.
use mathlib.Core.Path.{subst}
use mediavida.Base.{
  ◌^◌, ◌-◌, ◌≡◌, refl, sym, inl, inr, Bool, true, false, List, [], ◌∷◌, ◌++◌, arith, All,
  Option-cases, if◌then◌else◌,
}
use mediavida.Base.Int.{ℤ, pos, negsuc, leb_ℤ, ◌≤ℤ◌, ◌<ℤ◌, add_int}
use mediavida.Base.Rows.{where_rows}
use mediavida.Telegram.{TelegramBot, Sent, Ran, ran, panicked, Ran-cases, handle_message}
use mediavida.Telegram.Updates.{
  TelegramUpdate, Poll, next_offset, handled, handle_update, handle_updates,
}

-- The update identifier is below the highest int64.
abbrev IsBelow : TelegramUpdate → Type 0
IsBelow u = u.update_id <ℤ pos (2 ^ 63 - 1)

-- What getUpdates answers, by its documentation: the updates from `offset` on.
abbrev pub unconfirmed : ℤ → List TelegramUpdate → List TelegramUpdate
unconfirmed offset us = where_rows (λ u. leb_ℤ offset u.update_id) us

next_offset-past :
    (id offset : ℤ)
    → id <ℤ pos (2 ^ 63 - 1)
    → (id <ℤ next_offset id offset) × (offset ≤ℤ next_offset id offset)
unfolding next_offset add_int
next_offset-past (pos a) (pos b) h = (ground arith, ground arith)
next_offset-past (pos a) (negsuc b) h = (ground arith, ground arith)
next_offset-past (negsuc a) (pos b) h = (ground arith, ground arith)
next_offset-past (negsuc a) (negsuc b) h = (ground arith, ground arith)

offset-handled :
    (offset : ℤ) (sent : List Sent) (r : Ran (TelegramBot × List Sent)) (p' : Poll)
    → handled offset sent r ≡ ran p'
    → p'.offset ≡ offset
unfolding handled
offset-handled offset sent panicked p' h = ground (arith, h)
offset-handled offset sent (ran q) p' h = ground (arith, h)

offset-handle_update :
    (u : TelegramUpdate) (p p' : Poll)
    → handle_update u p ≡ ran p'
    → p'.offset ≡ next_offset u.update_id p.offset
unfolding handle_update
offset-handle_update u p p' h = elim (Option-cases u.message) [
  | inl e ↦ ground (arith, e, h)
  | inr (m, e) ↦
      offset-handled (next_offset u.update_id p.offset) p.sent (handle_message m p.bot) p'
        (ground (arith, e, h))
]

le_trans : (a b c : ℤ) → a ≤ℤ b → b ≤ℤ c → a ≤ℤ c
le_trans a b c p q = ground (arith, p, q)

lt_trans : (a b c : ℤ) → a <ℤ b → b ≤ℤ c → a <ℤ c
lt_trans a b c p q = ground (arith, p, q)

-- A bound that the old offset keeps, and that lies above every update, is a bound of the new offset.
Bounds : ℤ → TelegramUpdate → Type 0
Bounds x u = u.update_id <ℤ x

next_offset-bound :
    (id offset x : ℤ) → id <ℤ x → x ≤ℤ pos (2 ^ 63 - 1) → offset ≤ℤ x → next_offset id offset ≤ℤ x
unfolding next_offset add_int
next_offset-bound (pos a) offset x h k l = ground (arith, h, k, l)
next_offset-bound (negsuc a) offset x h k l = ground (arith, h, k, l)

offset-handle_updates :
    (us : List TelegramUpdate) (p p' : Poll)
    → handle_updates us p ≡ ran p'
    → All IsBelow us
    → (p.offset ≤ℤ p'.offset) × All (Bounds p'.offset) us
unfolding handle_updates Bounds
offset-handle_updates [] p p' h b = (ground (arith, h), tt)
offset-handle_updates (u ∷ us) p p' h (b, bs) = elim (Ran-cases (handle_update u p)) [
  | inl e ↦ ground (arith, e, h)
  | inr (q, e) ↦
      let later = offset-handle_updates us q p' (ground (arith, e, h)) bs in
      let now = next_offset-past u.update_id p.offset b in
      let o = offset-handle_update u p q e in
      (
        le_trans p.offset q.offset p'.offset (subst (λ x. p.offset ≤ℤ x) (sym o) now.1) later.0,
        (
          lt_trans u.update_id q.offset p'.offset (subst (λ x. u.update_id <ℤ x) (sym o) now.0)
              later.0,
          later.1,
        ),
      )
]

bound-handle_updates :
    (us : List TelegramUpdate) (p p' : Poll) (x : ℤ)
    → handle_updates us p ≡ ran p'
    → All (Bounds x) us
    → x ≤ℤ pos (2 ^ 63 - 1)
    → p.offset ≤ℤ x
    → p'.offset ≤ℤ x
unfolding handle_updates Bounds
bound-handle_updates [] p p' x h b k l = ground (arith, h, l)
bound-handle_updates (u ∷ us) p p' x h (b, bs) k l = elim (Ran-cases (handle_update u p)) [
  | inl e ↦ ground (arith, e, h)
  | inr (q, e) ↦ bound-handle_updates us q p' x (ground (arith, e, h)) bs k (
      subst (λ y. y ≤ℤ x) (sym (offset-handle_update u p q e))
        (next_offset-bound u.update_id p.offset x b k l))
]

module _ (u : TelegramUpdate) (us : List TelegramUpdate) (o x : ℤ) where
  below_head :
      (b : Bool)
      → leb_ℤ o u.update_id ≡ b
      → o ≤ℤ x
      → (All (Bounds x) (unconfirmed o us) → All (Bounds x) us)
      → All (Bounds x) (if b then u ∷ unconfirmed o us else unconfirmed o us)
      → All (Bounds x) (u ∷ us)
  unfolding Bounds
  below_head true e l below (c, cs) = (c, below cs)
  below_head false e l below cs = (ground (arith, e, l), below cs)

  part_head :
      (b : Bool)
      → All (Bounds x) (u ∷ unconfirmed o us)
      → All (Bounds x) (if b then u ∷ unconfirmed o us else unconfirmed o us)
  part_head true a = a
  part_head false (a, as') = as'

unconfirmed-All_below :
    (us : List TelegramUpdate) (o x : ℤ)
    → All (Bounds x) (unconfirmed o us)
    → o ≤ℤ x
    → All (Bounds x) us
unfolding where_rows
unconfirmed-All_below [] o x a l = tt
unconfirmed-All_below (u ∷ us) o x a l =
    below_head u us o x (leb_ℤ o u.update_id) refl l (λ cs. unconfirmed-All_below us o x cs l) a

part_below :
    (us : List TelegramUpdate) (o x : ℤ) → All (Bounds x) us → All (Bounds x) (unconfirmed o us)
unfolding where_rows
part_below [] o x a = tt
part_below (u ∷ us) o x (a, as') =
    part_head u us o x (leb_ℤ o u.update_id) (a, part_below us o x as')

unconfirmed-append :
    (us new : List TelegramUpdate) (o : ℤ)
    → All (Bounds o) us
    → All (λ n. o ≤ℤ n.update_id) new
    → unconfirmed o (us ++ new) ≡ new
unfolding where_rows Bounds
unconfirmed-append [] [] o a b = refl
unconfirmed-append [] (n ∷ new) o a (b, bs) = ground (arith, b, unconfirmed-append [] new o a bs)
unconfirmed-append (u ∷ us) new o (a, as') b = ground (arith, a, unconfirmed-append us new o as' b)

-- The update joins the queue behind others and not below the offset.
abbrev Joins : List TelegramUpdate → ℤ → TelegramUpdate → Type 0
Joins queue offset n =
    All (λ u. u.update_id <ℤ n.update_id) queue
    × (offset ≤ℤ n.update_id)
    × (n.update_id ≤ℤ pos (2 ^ 63 - 1))

module _ (queue : List TelegramUpdate) (p p' : Poll) where
  not_confirmed :
      (ns : List TelegramUpdate)
      → handle_updates (unconfirmed p.offset queue) p ≡ ran p'
      → All (Joins queue p.offset) ns
      → All (λ n. p'.offset ≤ℤ n.update_id) ns
  unfolding Bounds
  not_confirmed [] h a = tt
  not_confirmed (n ∷ ns) h ((q, o, m), a) = (
    bound-handle_updates (unconfirmed p.offset queue) p p' n.update_id h
        (part_below queue p.offset n.update_id q) m o,
    not_confirmed ns h a,
  )

  -- Suppose that getUpdates answers the updates of a queue from the offset on, of identifiers below
  -- the highest int64, and that pollUpdates handles them without a panic. Then, whatever updates have
  -- joined the queue in the meantime, of higher identifiers and not below the old offset, the next
  -- call with the new offset answers exactly these: no update is handled twice, and none is lost.
  pub handle_updates-unconfirmed :
      (new : List TelegramUpdate)
      → handle_updates (unconfirmed p.offset queue) p ≡ ran p'
      → All IsBelow (unconfirmed p.offset queue)
      → All (Joins queue p.offset) new
      → unconfirmed p'.offset (queue ++ new) ≡ new
  handle_updates-unconfirmed new h b joined =
      let (rises, past) = offset-handle_updates (unconfirmed p.offset queue) p p' h b in
      unconfirmed-append queue new p'.offset
        (unconfirmed-All_below queue p.offset p'.offset past rises) (not_confirmed new h joined)
