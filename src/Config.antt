-- ===== src/Config.antt =====
-- src/config.c: the values of the configuration. `none` is the return code -1.
pub mod Entries
pub mod Load
pub mod Sane
pub mod Laws
pub mod Lines
pub mod Priority
use rdma_intercept_ldperload.Base.{
  ℕ, ◌-◌, ◌^◌, Bool, true, false, not, ◌&&◌, ◌||◌, Option, none, some, List, [], ◌∷◌, ◌==◌, leb,
  ltb, length, if◌then◌else◌,
}
use rdma_intercept_ldperload.Text.{Bytes, codes, is_space, skip_spaces, same_case}
use rdma_intercept_ldperload.Text.Decimal.{strtol}
use rdma_intercept_ldperload.Hooks.{
  LogLevel, level_debug, level_info, level_warn, level_error, level_fatal,
}

abbrev pub max_config_file_path : ℕ
max_config_file_path = 256

unfoldable pub parse_bool : Bytes → Option Bool
parse_bool value =
    let s = skip_spaces value in
    if same_case s (codes "true")
      || same_case s (codes "yes")
      || same_case s (codes "on")
      || same_case s (codes "1")
    then some true
    else if same_case s (codes "false")
        || same_case s (codes "no")
        || same_case s (codes "off")
        || same_case s (codes "0")
    then some false
    else none

unfoldable pub parse_log_level_value : Bytes → Option LogLevel
parse_log_level_value value =
    let s = skip_spaces value in
    if same_case s (codes "debug")
    then some level_debug
    else if same_case s (codes "info")
    then some level_info
    else if same_case s (codes "warn") || same_case s (codes "warning")
    then some level_warn
    else if same_case s (codes "error")
    then some level_error
    else if same_case s (codes "fatal")
    then some level_fatal
    else none

-- A space or a quote.
abbrev pub is_padding : ℕ → Bool
is_padding c = is_space c || c == 34 || c == 39

unfoldable pub skip_padding : Bytes → Bytes
skip_padding [] = []
skip_padding (c ∷ s) = if is_padding c then skip_padding s else c ∷ s

-- The text without the bytes at its end that pass `drop`.
unfoldable pub trim_end : (ℕ → Bool) → Bytes → Bytes
trim_end drop [] = []
trim_end drop (c ∷ s) = elim (trim_end drop s) [
  | [] ↦ if drop c then [] else c ∷ []
  | d ∷ t ↦ c ∷ d ∷ t
]

-- What is written into `dest`, of `max_len` bytes.
unfoldable pub parse_string : Bytes → ℕ → Option Bytes
unfolding skip_padding trim_end
parse_string value max_len =
    let s = trim_end is_padding (skip_padding value) in
    if max_len == 0 then none else if leb max_len (length s) then none else some s

unfoldable pub trim_whitespace : Bytes → Bytes
unfolding trim_end
trim_whitespace s = trim_end is_space (skip_spaces s)

-- `long val = strtol(value, NULL, 10)` within 1 and UINT32_MAX.
unfoldable pub parse_limit : Bytes → Option ℕ
parse_limit value =
    let val = strtol value in
    if val == 0 || leb (2 ^ 63) val || ltb (2 ^ 32 - 1) val then none else some val
