-- ===== src/Poller/Breaker.antt =====
-- bubbles.go: recordFailure, recordSuccess and the circuit breaker at the head of checkOne.
use mediavida.Base.{
  ℕ, zero, suc, ◌^◌, ◌≤◌, ◌<◌, ◌≡◌, ◌∙◌, refl, Text, Option, none, some, arith, if◌then◌else◌, ltb,
  text_key,
}
use Prim.Native.Nat.{min}
use mediavida.Base.Maps.{lookup, insert, lookup-insert_self}
use mediavida.Poller.{BreakerState, PollState}

abbrev pub breaker_max_skip : ℕ
breaker_max_skip = 16

-- The nil entry stands for one without failures.
unfoldable pub breaker_of : Text → PollState → BreakerState
breaker_of id st = elim (lookup id st.breaker) [
  | none ↦ record { fails = 0; skip = 0 }
  | some b ↦ b
]

-- 1 << min(fails, 4), at most breakerMaxSkip
unfoldable pub skip_after : ℕ → ℕ
skip_after fails =
    let skip = 2 ^ (if ltb fails 4 then fails else 4) in
    if ltb breaker_max_skip skip then breaker_max_skip else skip

unfoldable pub record_failure : Text → PollState → PollState
record_failure id st =
    let fails = suc (breaker_of id st).fails in
    record st { breaker = insert id (record { fails = fails; skip = skip_after fails }) st.breaker }

unfoldable pub record_success : Text → PollState → PollState
record_success id st = elim (lookup id st.breaker) [
  | none ↦ st
  | some b ↦ record st { breaker = insert id (record { fails = 0; skip = 0 }) st.breaker }
]

-- The first lines of checkOne: the state after a tick that is skipped, if this one is.
unfoldable pub skipped : Text → PollState → Option PollState
skipped id st = elim (lookup id st.breaker) [
  | none ↦ none
  | some b ↦ elim b.skip [
    | zero ↦ none
    | suc k ↦ some (record st { breaker = insert id (record b { skip = k }) st.breaker })
  ]
]

-- How many ticks in a row the breaker skips, of the next `fuel` ones.
unfoldable pub ticks_skipped : ℕ → Text → PollState → ℕ
ticks_skipped zero id st = 0
ticks_skipped (suc fuel) id st = elim (skipped id st) [
  | none ↦ 0
  | some st' ↦ suc (ticks_skipped fuel id st')
]

skipped-open :
    (id : Text) (st : PollState) (b : BreakerState)
    → lookup id st.breaker ≡ some b
    → b.skip ≡ 0
    → skipped id st ≡ none
unfolding skipped
skipped-open id st b h e = ground (arith, h, e)

pub skipped-shut :
    (id : Text) (st : PollState) (b : BreakerState) (k : ℕ)
    → lookup id st.breaker ≡ some b
    → b.skip ≡ suc k
    → skipped id st ≡ some (record st { breaker = insert id (record b { skip = k }) st.breaker })
unfolding skipped
skipped-shut id st b k h e = ground (arith, h, e)

ticks_skipped-skip :
    (fuel n : ℕ) (id : Text) (st : PollState) (b : BreakerState)
    → lookup id st.breaker ≡ some b
    → b.skip ≡ n
    → n < fuel
    → ticks_skipped fuel id st ≡ n
unfolding ticks_skipped
ticks_skipped-skip zero n id st b h e lt = ground (arith, lt)
ticks_skipped-skip (suc fuel) zero id st b h e lt = ground (arith, skipped-open id st b h e)
ticks_skipped-skip (suc fuel) (suc n) id st b h e lt =
    let b' : BreakerState = record b { skip = n } in
    let st' : PollState = record st { breaker = insert id b' st.breaker } in
    ground (
      arith,
      skipped-shut id st b n h e,
      ticks_skipped-skip fuel n id st' b' (lookup-insert_self id b' st.breaker) refl
          (omega (arith, lt)),
    )

skip_after-bound : (n : ℕ) → skip_after n ≤ breaker_max_skip
unfolding skip_after
skip_after-bound n = ground arith

pow_pos : (n : ℕ) → 1 ≤ 2 ^ n
pow_pos zero = omega arith
pow_pos (suc n) = omega (arith, pow_pos n)

skip_after-min : (n : ℕ) → skip_after n ≡ min (2 ^ n) 16
unfolding skip_after
skip_after-min zero = refl
skip_after-min (suc zero) = refl
skip_after-min (suc (suc zero)) = refl
skip_after-min (suc (suc (suc zero))) = refl
skip_after-min (suc (suc (suc (suc n)))) = ground (arith, pow_pos n)

-- After a failure, the breaker skips min(2^n, 16) ticks of the client in a row, where n counts its
-- failures in a row, this one too.
pub record_failure-ticks_skipped :
    (id : Text) (st : PollState)
    → ticks_skipped 17 id (record_failure id st) ≡ min (2 ^ suc (breaker_of id st).fails) 16
unfolding record_failure
record_failure-ticks_skipped id st =
    let fails = suc (breaker_of id st).fails in
    let b : BreakerState = record { fails = fails; skip = skip_after fails } in
    ticks_skipped-skip 17 (skip_after fails) id (record st { breaker = insert id b st.breaker }) b
      (lookup-insert_self id b st.breaker) refl (omega (arith, skip_after-bound fails))
    ∙ skip_after-min fails

success-at :
    (id : Text) (st : PollState) (o : Option BreakerState)
    → lookup id st.breaker ≡ o
    → (skipped id (record_success id st) ≡ none)
      × ((breaker_of id (record_success id st)).fails ≡ 0)
unfolding record_success skipped breaker_of
success-at id st none h = (ground (arith, h), ground (arith, h))
success-at id st (some b) h =
    let fresh : BreakerState = record { fails = 0; skip = 0 } in
    (
      ground (arith, h, lookup-insert_self id fresh st.breaker),
      ground (arith, h, lookup-insert_self id fresh st.breaker),
    )

-- A success ends the back-off: the next tick is not skipped, and no failure is counted any more.
pub record_success-reset :
    (id : Text) (st : PollState)
    → (skipped id (record_success id st) ≡ none)
      × ((breaker_of id (record_success id st)).fails ≡ 0)
record_success-reset id st = success-at id st (lookup id st.breaker) refl
