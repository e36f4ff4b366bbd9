-- ===== src/Text.antt =====
-- Texts as the bytes before the terminating zero, and the functions of the C library on them that
-- src/config.c and the collector call.
pub mod Decimal
pub mod Visible
use Prim.Native.Char.{code}
use Prim.Native.String.{String}
use rdma_intercept_ldperload.Base.{
  ℕ, zero, suc, ◌+◌, ◌-◌, ◌*◌, Bool, true, false, not, ◌&&◌, ◌||◌, Option, none, some, List, [],
  ◌∷◌, ◌==◌, ltb, leb, if◌then◌else◌,
}

abbrev pub Bytes : Type 0
Bytes = List ℕ

-- The bytes of an ASCII literal.
abbrev pub codes : String → Bytes
codes String.[] = []
codes (String.◌∷◌ c s) = code c ∷ codes s

-- `isspace` in the C locale.
abbrev pub is_space : ℕ → Bool
is_space c = c == 32 || (leb 9 c && leb c 13)

abbrev pub is_digit : ℕ → Bool
is_digit c = leb 48 c && leb c 57

-- `tolower`.
abbrev pub to_lower : ℕ → ℕ
to_lower c = if leb 65 c && leb c 90 then c + 32 else c

-- `strcmp(s, t) == 0`.
unfoldable pub same_text : Bytes → Bytes → Bool
same_text [] [] = true
same_text [] (d ∷ t) = false
same_text (c ∷ s) [] = false
same_text (c ∷ s) (d ∷ t) = c == d && same_text s t

-- `strcasecmp(s, t) == 0`.
unfoldable pub same_case : Bytes → Bytes → Bool
same_case [] [] = true
same_case [] (d ∷ t) = false
same_case (c ∷ s) [] = false
same_case (c ∷ s) (d ∷ t) = to_lower c == to_lower d && same_case s t

-- What follows the prefix, where `strncmp(s, prefix, strlen(prefix)) == 0`.
unfoldable pub after_prefix : Bytes → Bytes → Option Bytes
after_prefix [] s = some s
after_prefix (d ∷ prefix) [] = none
after_prefix (d ∷ prefix) (c ∷ s) = if c == d then after_prefix prefix s else none

-- `strstr`: the text from the first occurrence on.
unfoldable pub find_text : Bytes → Bytes → Option Bytes
find_text pattern [] = elim (after_prefix pattern []) [ none ↦ none | some r ↦ some [] ]
find_text pattern (c ∷ s) =
    let later = find_text pattern s in
    elim (after_prefix pattern (c ∷ s)) [ none ↦ later | some r ↦ some (c ∷ s) ]

-- `while (isspace(*s)) s++;`
unfoldable pub skip_spaces : Bytes → Bytes
skip_spaces [] = []
skip_spaces (c ∷ s) = if is_space c then skip_spaces s else c ∷ s

-- The digits of a number read onto `acc`, up to the first other byte.
unfoldable pub read_digits : Bytes → ℕ → ℕ
read_digits [] acc = acc
read_digits (c ∷ s) acc = if is_digit c then read_digits s (acc * 10 + (c - 48)) else acc
