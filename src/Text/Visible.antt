-- ===== src/Text/Visible.antt =====
-- Texts of visible bytes, and the length of a print.
use rdma_intercept_ldperload.Base.{
  ℕ, zero, suc, ◌+◌, ◌/◌, ◌%◌, ◌≤◌, ◌≡◌, refl, Bool, true, ◌&&◌, [], ◌∷◌, ◌++◌, ltb, length, take,
  ap, arith,
}
use rdma_intercept_ldperload.Text.{Bytes}
use rdma_intercept_ldperload.Text.Decimal.{put_digits, print_unsigned}

-- A text of visible bytes: no space, no newline, no zero.
abbrev pub is_visible : ℕ → Bool
is_visible c = ltb 32 c

unfoldable pub all_visible : Bytes → Bool
all_visible [] = true
all_visible (c ∷ s) = is_visible c && all_visible s

visible-put_digits :
    (rounds n : ℕ) (out : Bytes)
    → all_visible out ≡ true
    → all_visible (put_digits rounds n out) ≡ true
unfolding put_digits all_visible
visible-put_digits zero n out h = h
visible-put_digits (suc rounds) n out h =
    ground (arith, visible-put_digits rounds (n / 10) ((48 + n % 10) ∷ out))

pub visible-print_unsigned : (n : ℕ) → all_visible (print_unsigned n []) ≡ true
unfolding print_unsigned all_visible
visible-print_unsigned n = visible-put_digits 20 n [] refl

pub visible-append :
    (s t : Bytes) → all_visible s ≡ true → all_visible t ≡ true → all_visible (s ++ t) ≡ true
unfolding all_visible
visible-append [] t hs ht = ht
visible-append (c ∷ s) t hs ht = ground (arith, visible-append s t)

length-put_digits :
    (rounds n : ℕ) (out : Bytes) → length (put_digits rounds n out) ≤ rounds + length out
unfolding put_digits
length-put_digits zero n out = omega arith
length-put_digits (suc rounds) n out =
    ground (arith, length-put_digits rounds (n / 10) ((48 + n % 10) ∷ out))

pub length-print_unsigned : (n : ℕ) (out : Bytes) → length (print_unsigned n out) ≤ 20 + length out
unfolding print_unsigned
length-print_unsigned n out = length-put_digits 20 n out

pub take-all : (n : ℕ) (s : Bytes) → length s ≤ n → take n s ≡ s
take-all zero [] h = refl
take-all zero (c ∷ s) h = absurd (omega arith)
take-all (suc n) [] h = refl
take-all (suc n) (c ∷ s) h = ap (λ t. c ∷ t) (take-all n s (omega arith))
