-- ===== src/Scraper/Totp.antt =====
-- scraper.go: generateTOTP.
use mediavida.Base.{
  ℕ, zero, suc, ◌+◌, ◌*◌, ◌-◌, ◌/◌, ◌%◌, ◌^◌, Text, Option, none, some, List, [], ◌∷◌, ◌++◌, map,
  ◌&&◌, if◌then◌else◌, leb, length,
}
use mediavida.Base.Strings.{trim_space}
use mediavida.Numbers.{itoa}

-- What generateTOTP calls: base32 without padding (`none`: an error), and HMAC-SHA1 of a message under a
-- key.
pub record TotpPackages : Type 0 where
  pub base32 : Text → Option (List ℕ)
  pub hmac_sha1 : List ℕ → List ℕ → List ℕ

-- A code, the error of a secret that does not decode, or the panic of an index out of range.
pub data TotpResult : Type 0 where
  code : Text → TotpResult
  invalid_secret index_out_of_range : TotpResult

-- strings.ToUpper on one byte.
unfoldable pub upper_byte : ℕ → ℕ
upper_byte c = if leb b'a' c && leb c b'z' then c - 32 else c

-- binary.BigEndian.PutUint64 with this many bytes.
unfoldable pub big_endian : ℕ → ℕ → List ℕ
big_endian zero n = []
big_endian (suc k) n = big_endian k (n / 256) ++ (n % 256 ∷ [])

unfoldable pub last_byte : List ℕ → Option ℕ
last_byte [] = none
last_byte (b ∷ []) = some b
last_byte (b ∷ c ∷ bs) = last_byte (c ∷ bs)

-- binary.BigEndian.Uint32 of the four bytes at an offset.
unfoldable pub word_at : ℕ → List ℕ → Option ℕ
word_at zero (a ∷ b ∷ c ∷ d ∷ bs) = some (((a * 256 + b) * 256 + c) * 256 + d)
word_at zero _ = none
word_at (suc k) [] = none
word_at (suc k) (b ∷ bs) = word_at k bs

unfoldable pub zeros : ℕ → Text
zeros zero = []
zeros (suc k) = b'0' ∷ zeros k

-- %06d
unfoldable pub six_digits : ℕ → Text
six_digits n = zeros (6 - length (itoa n)) ++ itoa n

unfoldable pub truncated : Option ℕ → TotpResult
truncated none = index_out_of_range
truncated (some w) = code (six_digits ((w % 2 ^ 31) % 10 ^ 6))

unfoldable pub of_hash : List ℕ → TotpResult
unfolding truncated
of_hash hash = elim (last_byte hash) [
  | none ↦ index_out_of_range
  | some b ↦ truncated (word_at (b % 16) hash)
]

-- The code at a Unix time.
unfoldable pub generate_totp : TotpPackages → ℕ → Text → TotpResult
unfolding of_hash
generate_totp std now secret = elim (std.base32 (map upper_byte (trim_space secret))) [
  | none ↦ invalid_secret
  | some key ↦ of_hash (std.hmac_sha1 key (big_endian 8 (now / 30)))
]
