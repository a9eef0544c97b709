-- ===== src/Numbers.antt =====
-- strconv.Atoi, and the decimal print of fmt's %d, on strings of bytes.
use mediavida.Base.{
  ℕ, zero, suc, ◌+◌, ◌-◌, ◌*◌, ◌/◌, ◌%◌, ◌^◌, ◌<◌, ◌≤◌, ◌≡◌, Bool, length, Text, Option, none, some,
  [], ◌∷◌, arith, ◌&&◌, if◌then◌else◌, ltb, leb, ◌==◌, Bool-cases, inl, inr,
}
use native.Mathlib.Numerals.{unary_clauses}
use mediavida.Base.Int.{ℤ, pos, negsuc}

unfoldable pub is_digit : ℕ → Bool
is_digit c = leb b'0' c && leb c b'9'

-- The number that the digits spell behind `n`; `none` if some byte is no digit.
unfoldable pub read_digits : Text → ℕ → Option ℕ
read_digits [] n = some n
read_digits (c ∷ s) n =
    let rest = read_digits s (n * 10 + (c - b'0')) in if is_digit c then rest else none

abbrev pub max_int : ℕ
max_int = 2 ^ 63 - 1

positive : Option ℕ → Option ℤ
positive none = none
positive (some n) = if ltb max_int n then none else some (pos n)

negative : Option ℕ → Option ℤ
negative none = none
negative (some zero) = some (pos 0)
negative (some (suc n)) = if ltb max_int n then none else some (negsuc n)

unsigned : Text → Option ℕ
unsigned [] = none
unsigned (c ∷ s) = read_digits (c ∷ s) 0

-- strconv.Atoi: an optional sign, then digits, in the range of a 64-bit int.
unfoldable pub atoi : Text → Option ℤ
unfolding positive negative unsigned
atoi [] = none
atoi (c ∷ s) =
    if c == b'-'
    then negative (unsigned s)
    else if c == b'+'
    then positive (unsigned s)
    else positive (unsigned (c ∷ s))

-- ParseUint at 64 bits: it stops at the first byte that is no digit or that leaves the range.
pub data Uint : Type 0 where
  bad_syntax out_of_range : Uint
  uint : ℕ → Uint

parse_uint : Text → ℕ → Uint
parse_uint [] n = uint n
parse_uint (c ∷ s) n =
    let m = n * 10 + (c - b'0') in
    let rest = parse_uint s m in
    if is_digit c then (if leb (2 ^ 64) m then out_of_range else rest) else bad_syntax

clamped : Uint → ℤ → (ℕ → ℤ) → ℤ
clamped bad_syntax last f = pos 0
clamped out_of_range last f = last
clamped (uint n) last f = if ltb max_int n then last else f n

negated : ℕ → ℤ
negated zero = pos 0
negated (suc n) = negsuc n

uint_of : Text → Uint
uint_of [] = bad_syntax
uint_of (c ∷ s) = parse_uint (c ∷ s) 0

-- The value that strconv.Atoi returns beside its error: 0, or the end of the range.
unfoldable pub atoi_value : Text → ℤ
unfolding clamped negated uint_of parse_uint is_digit
atoi_value [] = pos 0
atoi_value (c ∷ s) =
    if c == b'-'
    then clamped (uint_of s) (negsuc max_int) negated
    else if c == b'+'
    then clamped (uint_of s) (pos max_int) pos
    else clamped (uint_of (c ∷ s)) (pos max_int) pos

-- The digits of `n` in front of `out`, with fuel; a number has no more digits than `suc` of itself.
print_digits : ℕ → ℕ → Text → Text
print_digits zero n out = out
print_digits (suc fuel) n out =
    let rest = print_digits fuel (n / 10) ((b'0' + n % 10) ∷ out) in if n == 0 then out else rest

unfoldable pub itoa : ℕ → Text
unfolding print_digits
itoa n = if n == 0 then b'0' ∷ [] else print_digits n n []

read-print_digits :
    (fuel n : ℕ) (out : Text)
    → n < suc fuel
    → read_digits (print_digits fuel n out) 0 ≡ read_digits out n
unfolding print_digits read_digits is_digit
read-print_digits zero n out h = ground arith
read-print_digits (suc fuel) n out h =
    ground (arith, read-print_digits fuel (n / 10) ((b'0' + n % 10) ∷ out))

-- The decimal print of a number is read back as it: the fuel of the print is enough.
pub read_digits-itoa : (n : ℕ) → read_digits (itoa n) 0 ≡ some n
unfolding itoa read_digits
read_digits-itoa n = elim (Bool-cases (n == 0)) [
  | inl e ↦ rw e (unfold is_digit in ground arith)
  | inr e ↦ rw e (read-print_digits n n [] (omega arith))
]

tenth : (n m : ℕ) → n < m * 10 → n / 10 < m
tenth n m h = omega arith

length-print_digits :
    (k fuel n : ℕ) (out : Text) → n < 10 ^ k → length (print_digits fuel n out) ≤ length out + k
unfolding print_digits
length-print_digits k zero n out h = omega arith
length-print_digits zero (suc fuel) n out h = ground (arith, h)
length-print_digits (suc k) (suc fuel) n out h =
    let shorter = length-print_digits k fuel (n / 10) ((b'0' + n % 10) ∷ out) in
    ground (arith, shorter (tenth n (10 ^ k) (simp unary_clauses at h)))

-- A number below a power of ten has no more digits than the exponent.
pub length-itoa : (k n : ℕ) → 1 ≤ k → n < 10 ^ k → length (itoa n) ≤ k
unfolding itoa
length-itoa k n p h = elim (Bool-cases (n == 0)) [
  | inl e ↦ rw e p
  | inr e ↦ rw e (omega (arith, length-print_digits k n n [] h))
]
