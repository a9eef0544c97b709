-- ===== src/Activity/Sending.antt =====
-- fcm.go: the attempts of one push to one token, and the waits between them.
use mediavida.Base.{
  ℕ, zero, suc, ◌-◌, ◌*◌, ◌%◌, ◌^◌, ◌≤◌, Bool, true, false, Text, none, some, List, [], ◌∷◌, arith,
  if◌then◌else◌, ltb, leb, ◌==◌, ◌||◌, length, All, text_key,
}
use mediavida.Base.Int.{ℤ, pos, negsuc, ltb_ℤ, int_key, pos_part}
use mediavida.Numbers.{atoi}

-- What one POST to FCM gives: no request for want of an OAuth token, no answer, or a status with
-- the Retry-After header.
pub data Response : Type 0 where
  no_request no_answer : Response
  answer : ℕ → Text → Response

pub data Attempt : Type 0 where
  finished pruned : Attempt
  transient : ℤ → Attempt

abbrev pub second : ℕ
second = 10 ^ 9

abbrev pub base_backoff : ℕ
base_backoff = 500 * 10 ^ 6

abbrev pub fcm_max_backoff : ℕ
fcm_max_backoff = 10 * second

-- fcmBaseBackoff << attempt, in 64-bit nanoseconds, capped.
unfoldable pub backoff_cap : ℕ → ℕ
backoff_cap attempt =
    let d = (base_backoff * 2 ^ attempt) % 2 ^ 64 in
    if ltb fcm_max_backoff d || (d == 0 || leb (2 ^ 63) d) then fcm_max_backoff else d

-- `pick` is rand.Int63n, which answers below its argument.
unfoldable pub fcm_backoff : (ℕ → ℕ) → ℕ → ℕ
fcm_backoff pick attempt = pick (suc (backoff_cap attempt))

-- parseRetryAfter, in nanoseconds; the product wraps around at 64 bits.
unfoldable pub wrapped : ℕ → ℤ
wrapped n = let m = n % 2 ^ 64 in if ltb m (2 ^ 63) then pos m else negsuc (2 ^ 64 - 1 - m)

unfoldable pub capped : ℤ → ℤ
capped d = if ltb_ℤ (pos fcm_max_backoff) d then pos fcm_max_backoff else d

unfoldable pub parse_retry_after : Text → ℤ
parse_retry_after h = elim (atoi h) [
  | none ↦ pos 0
  | some n ↦ elim n [ pos secs ↦ capped (wrapped (secs * second)) | negsuc k ↦ pos 0 ]
]

-- wait := retryAfter; if wait <= 0 { wait = fcmBackoff(attempt) }
unfoldable pub wait_for : (ℕ → ℕ) → ℕ → ℤ → ℕ
wait_for pick attempt (pos zero) = fcm_backoff pick attempt
wait_for pick attempt (pos (suc d)) = suc d
wait_for pick attempt (negsuc d) = fcm_backoff pick attempt

-- sendAttempt
unfoldable pub send_attempt : Response → Attempt
send_attempt no_request = finished
send_attempt no_answer = transient (pos 0)
send_attempt (answer status h) =
    if status == 200
    then finished
    else if status == 404 || status == 400
    then pruned
    else if status == 429 || leb 500 status
    then transient (parse_retry_after h)
    else finished

last_attempt : Attempt → List ℕ × Bool
last_attempt finished = ([], false)
last_attempt pruned = ([], true)
last_attempt (transient d) = ([], false)

then_wait : (ℕ → ℕ) → ℕ → Attempt → List ℕ × Bool → List ℕ × Bool
then_wait pick k finished rest = ([], false)
then_wait pick k pruned rest = ([], true)
then_wait pick k (transient d) rest = (wait_for pick k d ∷ rest.0, rest.1)

-- sendOne: the waits between the attempts, and whether the token is pruned in the end. `retries` is
-- how many attempts may follow the k-th.
unfoldable pub send_from : (ℕ → ℕ) → (ℕ → Response) → ℕ → ℕ → List ℕ × Bool
unfolding last_attempt then_wait
send_from pick net zero k = last_attempt (send_attempt (net k))
send_from pick net (suc retries) k =
    then_wait pick k (send_attempt (net k)) (send_from pick net retries (suc k))

abbrev pub fcm_max_retries : ℕ
fcm_max_retries = 3

unfoldable pub send_one : (ℕ → ℕ) → (ℕ → Response) → List ℕ × Bool
send_one pick net = send_from pick net fcm_max_retries 0

capped-bound : (d : ℤ) → pos_part (capped d) ≤ fcm_max_backoff
unfolding capped
capped-bound (pos n) = ground arith
capped-bound (negsuc n) = ground arith

parse_retry_after-bound : (h : Text) → pos_part (parse_retry_after h) ≤ fcm_max_backoff
unfolding parse_retry_after
parse_retry_after-bound h = grind (arith, capped-bound)

delay : Attempt → ℕ
delay (transient d) = pos_part d
delay _ = 0

delay-bound : (r : Response) → delay (send_attempt r) ≤ fcm_max_backoff
unfolding send_attempt delay
delay-bound no_request = omega arith
delay-bound no_answer = omega arith
delay-bound (answer status h) = ground (arith, parse_retry_after-bound h)

-- At most so many waits, none longer than ten seconds.
abbrev pub Waits : ℕ → List ℕ → Type 0
Waits n ws = (length ws ≤ n) × All (λ w. w ≤ fcm_max_backoff) ws

module _ (pick : ℕ → ℕ) (below : (n : ℕ) → pick (suc n) ≤ n) where
  fcm_backoff-bound : (k : ℕ) → fcm_backoff pick k ≤ fcm_max_backoff
  unfolding fcm_backoff backoff_cap
  fcm_backoff-bound k = ground (arith, below (backoff_cap k))

  wait_for-bound :
      (k : ℕ) (d : ℤ) → pos_part d ≤ fcm_max_backoff → wait_for pick k d ≤ fcm_max_backoff
  unfolding wait_for
  wait_for-bound k (pos zero) h = fcm_backoff-bound k
  wait_for-bound k (pos (suc d)) h = h
  wait_for-bound k (negsuc d) h = fcm_backoff-bound k

  then_wait-Waits :
      (n k : ℕ) (a : Attempt) (rest : List ℕ × Bool)
      → delay a ≤ fcm_max_backoff
      → Waits n rest.0
      → Waits (suc n) (then_wait pick k a rest).0
  unfolding then_wait delay
  then_wait-Waits n k finished rest h ws = (omega arith, tt)
  then_wait-Waits n k pruned rest h ws = (omega arith, tt)
  then_wait-Waits n k (transient d) rest h ws = (omega (arith, ws.0), (wait_for-bound k d h, ws.1))

  last_attempt-Waits : (a : Attempt) → Waits 0 (last_attempt a).0
  unfolding last_attempt
  last_attempt-Waits finished = (omega arith, tt)
  last_attempt-Waits pruned = (omega arith, tt)
  last_attempt-Waits (transient d) = (omega arith, tt)

  send_from-Waits :
      (net : ℕ → Response) (retries k : ℕ) → Waits retries (send_from pick net retries k).0
  unfolding send_from
  send_from-Waits net zero k = last_attempt-Waits (send_attempt (net k))
  send_from-Waits net (suc retries) k =
      then_wait-Waits retries k (send_attempt (net k)) (send_from pick net retries (suc k))
        (delay-bound (net k)) (send_from-Waits net retries (suc k))

  -- A push to one token waits at most three times, and never longer than ten seconds, whatever the
  -- answers, their Retry-After headers and the jitter are.
  pub send_one-Waits : (net : ℕ → Response) → Waits 3 (send_one pick net).0
  unfolding send_one
  send_one-Waits net = send_from-Waits net 3 0
