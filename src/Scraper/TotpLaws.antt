-- ===== src/Scraper/TotpLaws.antt =====
-- The codes of generateTOTP.
use mediavida.Base.{
  ℕ, zero, suc, ◌+◌, ◌*◌, ◌/◌, ◌-◌, ◌%◌, ◌^◌, ◌<◌, ◌≤◌, ◌≡◌, refl, ap, ◌∙◌, Text, some, List, [],
  ◌∷◌, ◌++◌, map, arith, length, length-append,
}
use mediavida.Base.Strings.{trim_space}
use mediavida.Numbers.{itoa, read_digits, is_digit, read_digits-itoa, length-itoa}
use mediavida.Scraper.Totp.{
  TotpPackages, code, upper_byte, big_endian, last_byte, word_at, zeros, six_digits, truncated,
  of_hash, generate_totp,
}

read_digits-zeros : (k : ℕ) (s : Text) → read_digits (zeros k ++ s) 0 ≡ read_digits s 0
unfolding zeros read_digits is_digit
read_digits-zeros zero s = refl
read_digits-zeros (suc k) s = read_digits-zeros k s

length-zeros : (k : ℕ) → length (zeros k) ≡ k
unfolding zeros
length-zeros zero = refl
length-zeros (suc k) = ap suc (length-zeros k)

-- A word is there when its four bytes are.
word_at-some : (k : ℕ) (bs : List ℕ) → k + 4 ≤ length bs → (w : ℕ) × (word_at k bs ≡ some w)
unfolding word_at
word_at-some zero [] h = absurd (ground (arith, h))
word_at-some zero (a ∷ []) h = absurd (ground (arith, h))
word_at-some zero (a ∷ b ∷ []) h = absurd (ground (arith, h))
word_at-some zero (a ∷ b ∷ c ∷ []) h = absurd (ground (arith, h))
word_at-some zero (a ∷ b ∷ c ∷ d ∷ bs) h = (((a * 256 + b) * 256 + c) * 256 + d, refl)
word_at-some (suc k) [] h = absurd (ground (arith, h))
word_at-some (suc k) (b ∷ bs) h = word_at-some k bs (omega arith)

last_byte-some : (bs : List ℕ) → 1 ≤ length bs → (b : ℕ) × (last_byte bs ≡ some b)
unfolding last_byte
last_byte-some [] h = absurd (ground (arith, h))
last_byte-some (b ∷ []) h = (b, refl)
last_byte-some (b ∷ c ∷ bs) h = last_byte-some (c ∷ bs) (omega arith)

-- A number below a million is written with six digits, which read back as it.
six_digits-read :
    (n : ℕ) → n < 10 ^ 6 → (length (six_digits n) ≡ 6) × (read_digits (six_digits n) 0 ≡ some n)
unfolding six_digits
six_digits-read n h = (
  length-append (zeros (6 - length (itoa n))) (itoa n)
      ∙ omega (arith, length-zeros (6 - length (itoa n)), length-itoa 6 n (omega arith) h),
  read_digits-zeros (6 - length (itoa n)) (itoa n) ∙ read_digits-itoa n,
)

-- A code of six digits.
abbrev pub IsSixDigits : Text → Type 0
IsSixDigits c = (length c ≡ 6) × (n : ℕ) × (n < 10 ^ 6) × (read_digits c 0 ≡ some n)

mod_million : (m : ℕ) → m % 10 ^ 6 < 10 ^ 6
mod_million m = omega arith

coded :
    (hash : List ℕ) (b w : ℕ)
    → last_byte hash ≡ some b
    → word_at (b % 16) hash ≡ some w
    → of_hash hash ≡ code (six_digits ((w % 2 ^ 31) % 10 ^ 6))
unfolding of_hash truncated
coded hash b w p q = ground (arith, p, q)

of_hash-IsSixDigits :
    (hash : List ℕ) → length hash ≡ 20 → (c : Text) × (of_hash hash ≡ code c) × IsSixDigits c
of_hash-IsSixDigits hash size =
    let last = last_byte-some hash (omega (arith, size)) in
    let word = word_at-some (last.0 % 16) hash (omega (arith, size)) in
    let n : ℕ = (word.0 % 2 ^ 31) % 10 ^ 6 in
    let below = mod_million (word.0 % 2 ^ 31) in
    let read = six_digits-read n below in
    (six_digits n, coded hash last.0 word.0 last.1 word.1, (read.0, n, below, read.1))

-- A secret that decodes gives a code whatever the time is, by a hash of 20 bytes: no index is out of range,
-- and the code is a number below a million, written with six digits.
pub generate_totp-IsSixDigits :
    (std : TotpPackages) (now : ℕ) (secret : Text) (key : List ℕ)
    → ((k m : List ℕ) → length (std.hmac_sha1 k m) ≡ 20)
    → std.base32 (map upper_byte (trim_space secret)) ≡ some key
    → (c : Text) × (generate_totp std now secret ≡ code c) × IsSixDigits c
unfolding generate_totp
generate_totp-IsSixDigits std now secret key size decoded =
    let coding =
      of_hash-IsSixDigits (std.hmac_sha1 key (big_endian 8 (now / 30)))
        (size key (big_endian 8 (now / 30))) in
    (coding.0, rw (decoded, generate_totp) coding.1, coding.2)
