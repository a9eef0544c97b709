-- ===== src/Examples/OtherRuns.antt =====
-- Pushes, keys, the hub, the store and the scraper at concrete inputs.
use Prim.Native.Nat.{min}
use mediavida.RateLimit.{Floats, served_of, served_of-burst}
use mediavida.Base.{
  Text, same, ltb, leb, ◌+◌, ◌*◌, ◌/◌, ℕ, suc, ◌-◌, ◌≤◌, ◌≡◌, refl, true, false, codes, some, [],
  ◌∷◌, arith,
}
use mediavida.Base.Int.{pos}
use mediavida.Base.Keys.{text_key, nat_key, text_discrete}
use mediavida.Base.Maps.{lookup}
use mediavida.Numbers.{itoa, read_digits, read_digits-itoa}
use mediavida.Activity.Sending.{Response, answer, Waits, send_one, send_one-Waits}
use mediavida.Scraper.Login.{Bubbles}
use mediavida.Cache.{Entries}
use mediavida.Hub.{Hub, subscribed}
use mediavida.Hub.Laws.{listed, is_open}
use mediavida.Base.{List, ◌&&◌, not}
use mediavida.Hub.Stream.{StreamEvent, arrived, taken, ticked, left, serve_sse, opened_stream}
use mediavida.Hub.Among.{Among, frames}
use mediavida.Hub.StreamLaws.{Holds, arrivals}
use mediavida.Hub.Serving.{all_calm, is_serving, serve_sse-Among}
use mediavida.Examples.{device}

abbrev before : Bubbles
before = record { messages = pos 1; notifications = pos 0; favorites = pos 2 }

abbrev behind : Bubbles
behind = record { messages = pos 3; notifications = pos 0; favorites = pos 5 }

-- rand.Int63n that always answers the highest number that it may.
abbrev highest : ℕ → ℕ
highest n = n - 1

highest-below : (n : ℕ) → highest (suc n) ≤ n
highest-below n = omega arith

busy_fcm : ℕ → Response
busy_fcm k = answer 503 (codes "9999999999")

send_one-Waits_example : Waits 3 (send_one highest busy_fcm).0
send_one-Waits_example = send_one-Waits highest highest-below busy_fcm

read_digits-itoa_example : read_digits (itoa 1024) 0 ≡ some 1024
read_digits-itoa_example = read_digits-itoa 1024

abbrev stream : Hub
stream = record {
  subscribers = (device, 0 ∷ []) ∷ [];
  channels = (0, record { buffer = []; closed = false }) ∷ [];
  next = 1;
}

stream-open : (ch : ℕ) → listed ch (subscribed device stream) ≡ true → is_open ch stream ≡ true
unfolding subscribed listed is_open lookup text_discrete
stream-open ch l = ground (arith, l)

abbrev stored_page : Entries
stored_page = (device, record { val = codes "page"; expiry = 90 }) ∷ []

-- Numbers without a fraction.
abbrev whole_numbers : Floats ℕ
whole_numbers = record {
  of_int = λ n. n;
  add = λ a b. a + b;
  sub = λ a b. a - b;
  mul = λ a b. a * b;
  div = λ a b. a / b;
  above = λ a b. ltb b a;
  at_least = λ a b. leb b a;
  up_to = leb;
  seconds = λ t s. t - s;
  whole = pos;
}

served_of-burst_example :
    ((served_of whole_numbers 5 20 (codes "ana") 7 25 []).0 ≡ min 25 20)
    × ((other : Text)
        → same (codes "ana") other ≡ false
        → lookup other (served_of whole_numbers 5 20 (codes "ana") 7 25 []).1 ≡ lookup other [])
unfolding lookup
served_of-burst_example =
    served_of-burst whole_numbers 5 20 (codes "ana") 7 25 []
      ((λ t. ground arith), refl, (λ n l. ground arith), (λ n l. ground arith)) refl

-- Of the two frames the first one is read; then the client leaves.
abbrev visit : List StreamEvent
visit = arrived (codes "a") ∷ arrived (codes "b") ∷ taken true ∷ ticked true ∷ left ∷ []

serve_sse-Among_example :
    Holds
      (λ s. Among (frames s.written) (arrivals visit))
      (serve_sse device visit (opened_stream device stream))
    × ((all_calm visit && not (is_serving (serve_sse device visit (opened_stream device stream))))
        ≡ false)
serve_sse-Among_example = serve_sse-Among device stream visit
