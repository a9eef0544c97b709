-- ===== src/Examples/TotpRuns.antt =====
-- A code of two factors at a concrete input.
use mediavida.Base.{◌≡◌, refl, Text, codes, some, [], ◌∷◌}
use mediavida.Base.Strings.{trim_space, trim_left}
use mediavida.Scraper.Totp.{TotpPackages, code, generate_totp, upper_byte}
use mediavida.Scraper.TotpLaws.{IsSixDigits, generate_totp-IsSixDigits}

-- Every secret is its own key, and every hash ends in the offset 3.
abbrev hashing : TotpPackages
hashing = record {
  base32 = λ t. some t;
  hmac_sha1 = λ key msg.
      1 ∷ 2 ∷ 3 ∷ 255 ∷ 4 ∷ 5 ∷ 6 ∷ 7 ∷ 8 ∷ 9 ∷ 10 ∷ 11 ∷ 12 ∷ 13 ∷ 14 ∷ 15 ∷ 16 ∷ 17 ∷ 18 ∷ 19
      ∷ [];
}

generate_totp-IsSixDigits_example :
    (c : Text) × (generate_totp hashing 1700000000 (codes " abc ") ≡ code c) × IsSixDigits c
unfolding trim_space trim_left upper_byte
generate_totp-IsSixDigits_example =
    generate_totp-IsSixDigits hashing 1700000000 (codes " abc ") (codes "ABC") (λ k m. refl) refl
