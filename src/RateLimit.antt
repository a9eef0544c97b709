-- ===== src/RateLimit.antt =====
-- ratelimit.go: the token buckets of the clients. The arithmetic of float64 and time.Duration is a
-- parameter.
use mediavida.Base.{
  ℕ, zero, suc, ◌≤◌, ◌≡◌, refl, Bool, true, false, Text, codes, none, some, arith, if◌then◌else◌,
  same, is_empty, text_key, ◌||◌, ◌∙◌, ap,
}
use mediavida.Base.Int.{ℤ, pos, ltb_ℤ}
use mediavida.Base.Maps.{Map, lookup, insert, lookup-insert, lookup-insert_self}
use Prim.Native.Nat.{min}

-- What the code uses of float64: `of_int n` is float64(n), `at_least a b` is a >= b, `up_to a b`
-- is a <= b, `above a b` is a > b, `seconds t s` is t.Sub(s).Seconds(), and `whole a` is the int of the seconds of
-- time.Duration(a * float64(time.Second)).
pub record Floats (F : Type 0) : Type 0 where
  pub of_int : ℕ → F
  pub add : F → F → F
  pub sub : F → F → F
  pub mul : F → F → F
  pub div : F → F → F
  pub above : F → F → Bool
  pub at_least : F → F → Bool
  pub up_to : F → F → Bool
  pub seconds : ℕ → ℕ → F
  pub whole : F → ℤ

pub record Bucket (F : Type 0) : Type 0 where
  pub tokens : F
  pub last : ℕ

-- What the middleware does with a request.
pub data Limited : Type 0 where
  served : Limited
  too_many : ℤ → Limited

module _ {F : Type 0} (f : Floats F) (rate : F) (burst : ℕ) where
  -- The bucket of a client, a full one where it has none.
  unfoldable pub bucket_of : Text → ℕ → Map Text (Bucket F) → Bucket F
  bucket_of client now m = elim (lookup client m) [
    | none ↦ record { tokens = f.of_int burst; last = now }
    | some b ↦ b
  ]

  unfoldable pub refill : ℕ → Bucket F → Bucket F
  refill now b =
      let elapsed = f.seconds now b.last in
      let more = f.add b.tokens (f.mul elapsed rate) in
      if f.above elapsed (f.of_int 0)
      then record {
        tokens = if f.above more (f.of_int burst) then f.of_int burst else more;
        last = now;
      }
      else b

  -- The seconds of Retry-After for a bucket that holds less than a token.
  unfoldable pub retry_after : F → ℤ
  retry_after tokens =
      let secs = f.whole (f.div (f.sub (f.of_int 1) tokens) rate) in
      if f.up_to rate (f.of_int 0) then pos 1 else (if ltb_ℤ secs (pos 1) then pos 1 else secs)

  unfoldable pub allow : Text → ℕ → Map Text (Bucket F) → Limited × Map Text (Bucket F)
  allow client now m =
      let b = refill now (bucket_of client now m) in
      if f.at_least b.tokens (f.of_int 1)
      then (served, insert client (record b { tokens = f.sub b.tokens (f.of_int 1) }) m)
      else (too_many (retry_after b.tokens), insert client b m)

  -- Middleware
  unfoldable pub limit : Text → Text → ℕ → Map Text (Bucket F) → Limited × Map Text (Bucket F)
  limit path client now m =
      if same path (codes "/events") || is_empty client then (served, m) else allow client now m

-- What the bound rests on: no time passes between two readings of one instant, and float64 counts
-- down whole numbers of at most `burst` exactly.
abbrev pub CountsDown : {F : Type 0} → Floats F → ℕ → Type 0
CountsDown f burst =
    ((t : ℕ) → f.above (f.seconds t t) (f.of_int 0) ≡ false)
    × (f.at_least (f.of_int 0) (f.of_int 1) ≡ false)
    × ((n : ℕ) → suc n ≤ burst → f.at_least (f.of_int (suc n)) (f.of_int 1) ≡ true)
    × ((n : ℕ) → suc n ≤ burst → f.sub (f.of_int (suc n)) (f.of_int 1) ≡ f.of_int n)

-- How many of `n` requests that a client makes at one instant are served, and the buckets in the end.
module _ {F : Type 0} (f : Floats F) (rate : F) (burst : ℕ) (client : Text) (now : ℕ) where
  count : Limited → ℕ → ℕ
  count served n = suc n
  count (too_many w) n = n

  unfoldable pub served_of : ℕ → Map Text (Bucket F) → ℕ × Map Text (Bucket F)
  unfolding count
  served_of zero m = (0, m)
  served_of (suc n) m =
      let (r, m') = allow f rate burst client now m in
      let (k, m'') = served_of n m' in (count r k, m'')

  abbrev Holds : ℕ → Map Text (Bucket F) → Type 0
  Holds k m = bucket_of f rate burst client now m ≡ record { tokens = f.of_int k; last = now }

  module _ (c : CountsDown f burst) where
    refill-bucket :
        (k : ℕ)
        → refill f rate burst now (record { tokens = f.of_int k; last = now })
          ≡ record { tokens = f.of_int k; last = now }
    unfolding refill
    refill-bucket k = rw (c.0 now) refl

    bucket_of-insert :
        (b : Bucket F) (m : Map Text (Bucket F))
        → bucket_of f rate burst client now (insert client b m) ≡ b
    unfolding bucket_of
    bucket_of-insert b m =
        ap (λ o. elim o [ none ↦ record { tokens = f.of_int burst; last = now } | some b ↦ b ])
          (lookup-insert_self client b m)

    allow-served :
        (k : ℕ) (m : Map Text (Bucket F))
        → suc k ≤ burst
        → Holds (suc k) m
        → allow f rate burst client now m
          ≡ (served, insert client (record { tokens = f.of_int k; last = now }) m)
    unfolding allow
    allow-served k m l h = rw (h, refill-bucket (suc k), c.2 k l, c.3 k l) refl

    allow-too_many :
        (m : Map Text (Bucket F))
        → Holds 0 m
        → allow f rate burst client now m ≡ (
          too_many (retry_after f rate burst (f.of_int 0)),
          insert client (record { tokens = f.of_int 0; last = now }) m,
        )
    unfolding allow
    allow-too_many m h = rw (h, refill-bucket 0, c.1) refl

    served_of-Holds :
        (n k : ℕ) (m : Map Text (Bucket F)) → k ≤ burst → Holds k m → (served_of n m).0 ≡ min n k
    unfolding served_of count
    served_of-Holds zero k m l h = ground arith
    served_of-Holds (suc n) zero m l h = rw (allow-too_many m h) (
        omega (
          arith,
          served_of-Holds n 0 (insert client (record { tokens = f.of_int 0; last = now }) m) l
              (bucket_of-insert (record { tokens = f.of_int 0; last = now }) m),
        ))
    served_of-Holds (suc n) (suc k) m l h = rw (allow-served k m l h) (
        omega (
          arith,
          served_of-Holds n k (insert client (record { tokens = f.of_int k; last = now }) m)
              (omega (arith, l)) (bucket_of-insert (record { tokens = f.of_int k; last = now }) m),
        ))

  allow-other :
      (other : Text) (m : Map Text (Bucket F))
      → same client other ≡ false
      → lookup other (allow f rate burst client now m).1 ≡ lookup other m
  unfolding allow
  allow-other other m d = ground (
    arith,
    d,
    lookup-insert client other (refill f rate burst now (bucket_of f rate burst client now m)) m,
    lookup-insert client other
        (record (refill f rate burst now (bucket_of f rate burst client now m)) {
          tokens =
              f.sub (refill f rate burst now (bucket_of f rate burst client now m)).tokens
                (f.of_int 1);
        })
        m,
  )

  served_of-other :
      (n : ℕ) (other : Text) (m : Map Text (Bucket F))
      → same client other ≡ false
      → lookup other (served_of n m).1 ≡ lookup other m
  unfolding served_of
  served_of-other zero other m d = refl
  served_of-other (suc n) other m d =
      served_of-other n other (allow f rate burst client now m).1 d ∙ allow-other other m d

bucket_of-new :
    {F : Type 0} (f : Floats F) (rate : F) (burst : ℕ) (client : Text) (now : ℕ)
    (m : Map Text (Bucket F))
    → lookup client m ≡ none
    → bucket_of f rate burst client now m ≡ record { tokens = f.of_int burst; last = now }
unfolding bucket_of
bucket_of-new f rate burst client now m h =
    ap (λ o. elim o [ none ↦ record { tokens = f.of_int burst; last = now } | some b ↦ b ]) h

-- Of the requests that a client without a bucket makes at one instant as many are served as the
-- burst has tokens, and the buckets of the other clients stay as they are, when float64 counts whole
-- numbers up to the burst down exactly.
pub served_of-burst :
    {F : Type 0} (f : Floats F) (rate : F) (burst : ℕ) (client : Text) (now n : ℕ)
    (m : Map Text (Bucket F))
    → CountsDown f burst
    → lookup client m ≡ none
    → ((served_of f rate burst client now n m).0 ≡ min n burst)
      × ((other : Text)
          → same client other ≡ false
          → lookup other (served_of f rate burst client now n m).1 ≡ lookup other m)
served_of-burst f rate burst client now n m c h = (
  served_of-Holds f rate burst client now c n burst m (omega arith)
      (bucket_of-new f rate burst client now m h),
  λ other d. served_of-other f rate burst client now n other m d,
)
