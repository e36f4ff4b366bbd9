-- ===== src/Text/Decimal.antt =====
-- Decimal numbers as `printf` writes them, and as `sscanf`, `strtol` and `strtoull` read them.
use rdma_intercept_ldperload.Base.{
  ℕ, zero, suc, ◌+◌, ◌-◌, ◌/◌, ◌%◌, ◌^◌, ◌<◌, ◌≡◌, ◌∙◌, refl, ◌||◌, Bool, true, false, Option, none,
  some, [], ◌∷◌, ◌==◌, ltb, if◌then◌else◌, arith, u64,
}
use rdma_intercept_ldperload.Text.{
  Bytes, is_digit, skip_spaces, read_digits, find_text, after_prefix,
}

-- `do { *--s = '0' + n % 10; n /= 10; } while (n);` in front of `out`, at most `rounds` times.
unfoldable pub put_digits : ℕ → ℕ → Bytes → Bytes
put_digits zero n out = out
put_digits (suc rounds) n out =
    let rest = put_digits rounds (n / 10) ((48 + n % 10) ∷ out) in
    if n / 10 == 0 then (48 + n % 10) ∷ out else rest

-- `%u`, `%llu` and `%zu`: 20 rounds are enough for 64 bits.
unfoldable pub print_unsigned : ℕ → Bytes → Bytes
unfolding put_digits
print_unsigned n out = put_digits 20 n out

-- The digits at the start of a text; without a digit there is no number.
unfoldable pub read_number : Bool → Bytes → Option (Bool × ℕ)
unfolding read_digits
read_number negative [] = none
read_number negative (c ∷ s) = if is_digit c then some (negative, read_digits (c ∷ s) 0) else none

-- The same after an optional sign.
unfoldable pub read_signed : Bytes → Option (Bool × ℕ)
unfolding read_number
read_signed [] = none
read_signed (c ∷ s) =
    if c == 45
    then read_number true s
    else if c == 43
    then read_number false s
    else read_number false (c ∷ s)

-- The number that `strtoull` returns, and `sscanf` with `%zu` and `%llu` stores: above 2^64 - 1 it
-- is 2^64 - 1, and a sign negates it in 64 bits.
unfoldable pub to_unsigned : Bool × ℕ → ℕ
to_unsigned (negative, n) =
    if ltb (2 ^ 64 - 1) n then 2 ^ 64 - 1 else if negative then u64 (2 ^ 64 - n) else n

-- `sscanf(s, "%zu", &n) == 1`.
unfoldable pub scan_unsigned : Bytes → Option ℕ
unfolding read_signed to_unsigned skip_spaces
scan_unsigned s = elim (read_signed (skip_spaces s)) [ none ↦ none | some r ↦ some (to_unsigned r) ]

-- What follows the digits at the start of a text.
unfoldable pub skip_digits : Bytes → Bytes
skip_digits [] = []
skip_digits (c ∷ s) = if is_digit c then skip_digits s else c ∷ s

-- What follows the number that `scan_unsigned` finds.
unfoldable pub skip_number : Bytes → Bytes
unfolding skip_digits skip_spaces
skip_number s = elim (skip_spaces s) [
  | [] ↦ []
  | c ∷ t ↦ if c == 45 || c == 43 then skip_digits t else skip_digits (c ∷ t)
]

-- `strtol` with base 10, as a 64-bit pattern: it stops at the ends of `long`, and is 0 without a
-- number.
unfoldable pub strtol : Bytes → ℕ
unfolding read_signed skip_spaces
strtol s = elim (read_signed (skip_spaces s)) [
  | none ↦ 0
  | some (false, n) ↦ if ltb (2 ^ 63 - 1) n then 2 ^ 63 - 1 else n
  | some (true, n) ↦ if ltb (2 ^ 63) n then 2 ^ 63 else u64 (2 ^ 64 - n)
]

-- `strtoull` with base 10.
unfoldable pub strtoull : Bytes → ℕ
unfolding scan_unsigned
strtoull s = elim (scan_unsigned s) [ none ↦ 0 | some n ↦ n ]

read_digits-put_digits :
    (rounds n : ℕ) (out : Bytes)
    → n < 10 ^ rounds
    → read_digits (put_digits rounds n out) 0 ≡ read_digits out n
unfolding put_digits read_digits
read_digits-put_digits zero n out h = ground arith
read_digits-put_digits (suc rounds) n out h =
    ground (arith, read_digits-put_digits rounds (n / 10) ((48 + n % 10) ∷ out))

-- A text that begins with a digit.
record BeginsWithDigit (s : Bytes) : Type 0 where
  head : ℕ
  tail : Bytes
  split : s ≡ head ∷ tail
  digit : is_digit head ≡ true

digit-BeginsWithDigit : (n : ℕ) (out : Bytes) → BeginsWithDigit ((48 + n % 10) ∷ out)
digit-BeginsWithDigit n out = record {
  head = 48 + n % 10;
  tail = out;
  split = refl;
  digit = ground arith;
}

put_digits-BeginsWithDigit :
    (rounds n : ℕ) (out : Bytes) → BeginsWithDigit (put_digits (suc rounds) n out)
unfolding put_digits
put_digits-BeginsWithDigit zero n out =
    elim (n / 10 == 0)
      as (λ t. BeginsWithDigit (if t then (48 + n % 10) ∷ out else (48 + n % 10) ∷ out)) [
        | true ↦ digit-BeginsWithDigit n out
        | false ↦ digit-BeginsWithDigit n out
      ]
put_digits-BeginsWithDigit (suc rounds) n out =
    let rest = put_digits (suc rounds) (n / 10) ((48 + n % 10) ∷ out) in
    elim (n / 10 == 0) as (λ t. BeginsWithDigit (if t then (48 + n % 10) ∷ out else rest)) [
      | true ↦ digit-BeginsWithDigit n out
      | false ↦ put_digits-BeginsWithDigit rounds (n / 10) ((48 + n % 10) ∷ out)
    ]

print_unsigned-BeginsWithDigit : (n : ℕ) (out : Bytes) → BeginsWithDigit (print_unsigned n out)
unfolding print_unsigned
print_unsigned-BeginsWithDigit n out = put_digits-BeginsWithDigit 19 n out

read_signed-digit : (s : Bytes) → BeginsWithDigit s → read_signed s ≡ some (false, read_digits s 0)
unfolding read_signed read_number
read_signed-digit s b = rw b.split (ground (arith, b.digit))

skip_spaces-digit : (s : Bytes) → BeginsWithDigit s → skip_spaces s ≡ s
unfolding skip_spaces
skip_spaces-digit s b = rw b.split (ground (arith, b.digit))

-- A 64-bit number is read back from its print, in front of a text that adds no digit.
pub scan_unsigned-print_unsigned :
    (n : ℕ) (out : Bytes)
    → n < 2 ^ 64
    → read_digits out n ≡ n
    → scan_unsigned (print_unsigned n out) ≡ some n
unfolding scan_unsigned print_unsigned to_unsigned
scan_unsigned-print_unsigned n out word ends =
    let b = print_unsigned-BeginsWithDigit n out in
    ground (
      arith,
      skip_spaces-digit (print_unsigned n out) b,
      read_signed-digit (print_unsigned n out) b,
      read_digits-put_digits 20 n out,
    )

pub strtol-print_unsigned :
    (n : ℕ) (out : Bytes) → n < 2 ^ 63 → read_digits out n ≡ n → strtol (print_unsigned n out) ≡ n
unfolding strtol print_unsigned
strtol-print_unsigned n out word ends =
    let b = print_unsigned-BeginsWithDigit n out in
    ground (
      arith,
      skip_spaces-digit (print_unsigned n out) b,
      read_signed-digit (print_unsigned n out) b,
      read_digits-put_digits 20 n out,
    )

-- A search for a text that begins with no digit passes over digits.
find_text-digit :
    (p c : ℕ) (pattern s : Bytes)
    → is_digit p ≡ false
    → is_digit c ≡ true
    → find_text (p ∷ pattern) (c ∷ s) ≡ find_text (p ∷ pattern) s
unfolding find_text after_prefix
find_text-digit p c pattern s hp hc = ground arith

find_text-put_digits :
    (rounds n p : ℕ) (pattern out : Bytes)
    → is_digit p ≡ false
    → find_text (p ∷ pattern) (put_digits rounds n out) ≡ find_text (p ∷ pattern) out
unfolding put_digits
find_text-put_digits zero n p pattern out h = refl
find_text-put_digits (suc rounds) n p pattern out h = ground (
  arith,
  find_text-digit p (48 + n % 10) pattern out h,
  find_text-put_digits rounds (n / 10) p pattern ((48 + n % 10) ∷ out) h,
)

pub find_text-print_unsigned :
    (n p : ℕ) (pattern out : Bytes)
    → is_digit p ≡ false
    → find_text (p ∷ pattern) (print_unsigned n out) ≡ find_text (p ∷ pattern) out
unfolding print_unsigned
find_text-print_unsigned n p pattern out h = find_text-put_digits 20 n p pattern out h

skip_digits-put_digits :
    (rounds n : ℕ) (out : Bytes) → skip_digits (put_digits rounds n out) ≡ skip_digits out
unfolding put_digits skip_digits
skip_digits-put_digits zero n out = refl
skip_digits-put_digits (suc rounds) n out =
    ground (arith, skip_digits-put_digits rounds (n / 10) ((48 + n % 10) ∷ out))

skip_number-digit : (s : Bytes) → BeginsWithDigit s → skip_number s ≡ skip_digits s
unfolding skip_number skip_spaces
skip_number-digit s b = rw b.split (ground (arith, b.digit))

pub skip_number-print_unsigned :
    (n : ℕ) (out : Bytes) → skip_number (print_unsigned n out) ≡ skip_digits out
unfolding print_unsigned
skip_number-print_unsigned n out =
    skip_number-digit (print_unsigned n out) (print_unsigned-BeginsWithDigit n out)
    ∙ skip_digits-put_digits 20 n out
