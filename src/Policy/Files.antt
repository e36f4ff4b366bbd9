-- ===== src/Policy/Files.antt =====
-- src/dynamic_policy_manager.c: the policy file, written and read.
use rdma_intercept_ldperload.Base.{
  ℕ, zero, suc, ◌*◌, ◌/◌, Bool, true, false, not, ◌||◌, Option, none, some, List, [], ◌∷◌, ◌++◌,
  ◌==◌, if◌then◌else◌, u32,
}
use rdma_intercept_ldperload.Text.{Bytes, codes, is_space, skip_spaces, same_text}
use rdma_intercept_ldperload.Text.Decimal.{print_unsigned, scan_unsigned}
use rdma_intercept_ldperload.Shm.{Status, success, failure}
use rdma_intercept_ldperload.Config.Load.{fgets_all}
use rdma_intercept_ldperload.Policy.{PolicyRule, PolicyConfig, PolicyState}

-- The text in a buffer: the bytes before the first zero.
unfoldable pub text_of : Bytes → Bytes
text_of [] = []
text_of (c ∷ s) = if c == 0 then [] else c ∷ text_of s

-- `%<width>s` behind the spaces: the bytes up to a space, and what follows them.
unfoldable pub read_word : ℕ → Bytes → Bytes × Bytes
read_word zero s = ([], s)
read_word (suc width) [] = ([], [])
read_word (suc width) (c ∷ s) =
    let (word, rest) = read_word width s in if is_space c then ([], c ∷ s) else (c ∷ word, rest)

abbrev pub is_empty : Bytes → Bool
is_empty [] = true
is_empty (c ∷ s) = false

-- `sscanf(line, "%63s %u", key, &val) == 2`.
unfoldable pub scan_pair : Bytes → Option (Bytes × ℕ)
unfolding read_word skip_spaces
scan_pair s =
    let (key, rest) = read_word 63 (skip_spaces s) in
    if is_empty key
    then none
    else elim (scan_unsigned rest) [ none ↦ none | some n ↦ some (key, u32 n) ]

abbrev pub with_max_per_process : ℕ → PolicyRule → PolicyRule
with_max_per_process n r = record r { limit = record (r.limit) { max_per_process = n } }

abbrev pub with_max_global : ℕ → PolicyRule → PolicyRule
with_max_global n r = record r { limit = record (r.limit) { max_global = n } }

abbrev pub with_max_memory : ℕ → PolicyRule → PolicyRule
with_max_memory n r = record r { limit = record (r.limit) { max_memory = n } }

-- An unknown key changes nothing. `(uint64_t)val * 1024 * 1024` fits 64 bits.
unfoldable pub put_key : Bytes → ℕ → PolicyConfig → PolicyConfig
unfolding same_text
put_key key val c =
    if same_text key (codes "max_qp_per_process")
    then record c { qp_policy = with_max_per_process val c.qp_policy }
    else if same_text key (codes "max_global_qp")
    then record c { qp_policy = with_max_global val c.qp_policy }
    else if same_text key (codes "max_mr_per_process")
    then record c { mr_policy = with_max_per_process val c.mr_policy }
    else if same_text key (codes "max_global_mr")
    then record c { mr_policy = with_max_global val c.mr_policy }
    else if same_text key (codes "max_memory_mb")
    then record c { memory_policy = with_max_memory (val * (1024 * 1024)) c.memory_policy }
    else if same_text key (codes "auto_adjust")
    then record c { auto_adjust = not (val == 0) }
    else if same_text key (codes "adjust_interval")
    then record c { adjust_interval = val }
    else c

-- `line[0] == '#' || line[0] == '\n'`.
abbrev pub is_skipped : Bytes → Bool
is_skipped [] = false
is_skipped (c ∷ s) = c == 35 || c == 10

-- One round of the loop over the lines.
unfoldable pub load_line : Bytes → PolicyConfig → PolicyConfig
unfolding scan_pair text_of
load_line line c =
    if is_skipped line
    then c
    else elim (scan_pair (text_of line)) [ none ↦ c | some (key, val) ↦ put_key key val c ]

unfoldable pub load_lines : List Bytes → PolicyConfig → PolicyConfig
unfolding load_line
load_lines [] c = c
load_lines (line ∷ lines) c = load_lines lines (load_line line c)

-- `none` is a file that cannot be opened. The segment keeps the limits that it has.
unfoldable pub load_config : Option Bytes → PolicyState → Status × PolicyState
unfolding load_lines fgets_all
load_config none s = (failure, s)
load_config (some content) s =
    (success, record s { config = load_lines (fgets_all 254 254 content) s.config })

-- One line without its newline.
abbrev pub entry_line : Bytes → ℕ → Bytes
entry_line key n = key ++ (32 ∷ print_unsigned n [])

-- What the calls of `fprintf` write.
unfoldable pub saved_text : PolicyConfig → Bytes
saved_text c =
    codes "# RDMA Dynamic Policy Configuration"
    ++ (10 ∷ entry_line (codes "max_qp_per_process") c.qp_policy.limit.max_per_process
        ++ (10 ∷ entry_line (codes "max_global_qp") c.qp_policy.limit.max_global
            ++ (10 ∷ entry_line (codes "max_mr_per_process") c.mr_policy.limit.max_per_process
                ++ (10 ∷ entry_line (codes "max_global_mr") c.mr_policy.limit.max_global
                    ++ (10
                          ∷ entry_line (codes "max_memory_mb")
                              (c.memory_policy.limit.max_memory / (1024 * 1024))
                        ++ (10 ∷ entry_line (codes "auto_adjust") (if c.auto_adjust then 1 else 0)
                            ++ (10 ∷ entry_line (codes "adjust_interval") c.adjust_interval
                                ++ (10 ∷ []))))))))

-- The return code, and the content of the file if it could be opened for writing.
unfoldable pub save_config : Bool → PolicyState → Status × Option Bytes
unfolding saved_text
save_config false s = (failure, none)
save_config true s = (success, some (saved_text s.config))
