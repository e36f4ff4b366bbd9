-- ===== src/Config/Entries.antt =====
-- src/config.c: the parsers of the single entries, the table of them, and the parser of one line.
use rdma_intercept_ldperload.Base.{
  ℕ, Bool, ◌||◌, Option, none, some, List, [], ◌∷◌, ◌==◌, if◌then◌else◌,
}
use rdma_intercept_ldperload.Text.{Bytes, codes, same_case}
use rdma_intercept_ldperload.Hooks.{InterceptConfig}
use rdma_intercept_ldperload.Config.{
  parse_bool, parse_log_level_value, parse_string, trim_whitespace, parse_limit,
  max_config_file_path,
}

-- `none` leaves the configuration as it was and is the return code -1.
abbrev pub Parser : Type 0
Parser = Bytes → InterceptConfig → Option InterceptConfig

-- A parsed value written into its field.
abbrev pub store {ℓ} : {A : Type ℓ} → Option A → (A → InterceptConfig) → Option InterceptConfig
store none write = none
store (some a) write = some (write a)

unfoldable pub parse_enable_intercept : Parser
parse_enable_intercept value config =
    store (parse_bool value) (λ v. record config { enable_intercept = v })

unfoldable pub parse_log_qp_creation : Parser
parse_log_qp_creation value config =
    store (parse_bool value) (λ v. record config { log_qp_creation = v })

unfoldable pub parse_log_all_operations : Parser
parse_log_all_operations value config =
    store (parse_bool value) (λ v. record config { log_all_operations = v })

unfoldable pub parse_log_level_config : Parser
parse_log_level_config value config =
    store (parse_log_level_value value) (λ v. record config { log_level = v })

unfoldable pub parse_log_file_path : Parser
parse_log_file_path value config =
    store (parse_string value max_config_file_path) (λ v. record config { log_file_path = v })

unfoldable pub parse_enable_qp_control : Parser
parse_enable_qp_control value config =
    store (parse_bool value) (λ v. record config { enable_qp_control = v })

unfoldable pub parse_max_qp_per_process : Parser
parse_max_qp_per_process value config =
    store (parse_limit value) (λ v. record config { max_qp_per_process = v })

unfoldable pub parse_max_send_wr_limit : Parser
parse_max_send_wr_limit value config =
    store (parse_limit value) (λ v. record config { max_send_wr_limit = v })

unfoldable pub parse_max_recv_wr_limit : Parser
parse_max_recv_wr_limit value config =
    store (parse_limit value) (λ v. record config { max_recv_wr_limit = v })

unfoldable pub parse_allow_rc_qp : Parser
parse_allow_rc_qp value config = store (parse_bool value) (λ v. record config { allow_rc_qp = v })

unfoldable pub parse_allow_uc_qp : Parser
parse_allow_uc_qp value config = store (parse_bool value) (λ v. record config { allow_uc_qp = v })

unfoldable pub parse_allow_ud_qp : Parser
parse_allow_ud_qp value config = store (parse_bool value) (λ v. record config { allow_ud_qp = v })

unfoldable pub parse_max_global_qp : Parser
parse_max_global_qp value config =
    store (parse_limit value) (λ v. record config { max_global_qp = v })

-- `config_table` without its end marker.
unfoldable pub config_table : List (Bytes × Parser)
config_table =
    (codes "enable_intercept", parse_enable_intercept)
    ∷ (codes "log_qp_creation", parse_log_qp_creation)
    ∷ (codes "log_all_operations", parse_log_all_operations)
    ∷ (codes "log_level", parse_log_level_config)
    ∷ (codes "log_file_path", parse_log_file_path)
    ∷ (codes "enable_qp_control", parse_enable_qp_control)
    ∷ (codes "max_qp_per_process", parse_max_qp_per_process)
    ∷ (codes "max_send_wr_limit", parse_max_send_wr_limit)
    ∷ (codes "max_recv_wr_limit", parse_max_recv_wr_limit)
    ∷ (codes "allow_rc_qp", parse_allow_rc_qp)
    ∷ (codes "allow_uc_qp", parse_allow_uc_qp)
    ∷ (codes "allow_ud_qp", parse_allow_ud_qp)
    ∷ (codes "max_global_qp", parse_max_global_qp)
    ∷ []

-- The loop over the table: the first key that fits decides.
unfoldable pub find_entry : List (Bytes × Parser) → Bytes → Parser
find_entry [] key value config = none
find_entry ((name, parser) ∷ table) key value config =
    if same_case key name then parser value config else find_entry table key value config

-- What stands before and after the first `=`.
unfoldable pub split_equals : Bytes → Option (Bytes × Bytes)
split_equals [] = none
split_equals (c ∷ s) =
    let rest = split_equals s in
    if c == 61 then some ([], s) else elim rest [ none ↦ none | some (k, v) ↦ some (c ∷ k, v) ]

-- `line[0] == '#' || line[0] == ';'`.
abbrev pub starts_comment : ℕ → Bool
starts_comment c = c == 35 || c == 59

-- The part of `parse_config_line` behind the blank lines and comments.
unfoldable pub parse_assignment : Parser
unfolding split_equals
parse_assignment line config = elim (split_equals line) [
  | none ↦ none
  | some (key, value) ↦ find_entry config_table (trim_whitespace key) (trim_whitespace value) config
]

unfoldable pub parse_config_line : Parser
parse_config_line line config = elim (trim_whitespace line) [
  | [] ↦ some config
  | c ∷ s ↦ if starts_comment c then some config else parse_assignment (c ∷ s) config
]
