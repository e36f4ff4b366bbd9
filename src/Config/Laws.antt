-- ===== src/Config/Laws.antt =====
-- What src/config.c keeps true of a configuration, whatever the environment and the file hold.
use rdma_intercept_ldperload.Base.{
  ◌^◌, ◌≤◌, ◌<◌, ◌≡◌, subst, Option, none, some, List, [], ◌∷◌, length, arith, if◌then◌else◌,
  Bool-cases, Option-cases, inl, inr,
}
use rdma_intercept_ldperload.Text.{Bytes, same_case}
use rdma_intercept_ldperload.Hooks.{InterceptConfig, InterceptState}
use rdma_intercept_ldperload.Config.{
  parse_string, parse_limit, trim_whitespace, max_config_file_path,
}
use rdma_intercept_ldperload.Config.Entries
use rdma_intercept_ldperload.Config.Entries.{
  Parser, store, find_entry, config_table, parse_assignment, parse_config_line, split_equals,
}
use rdma_intercept_ldperload.Config.Load.{
  value_or, parse_memory, load_config_from_env, parse_lines, cut_line, fgets_all, config_content,
  rdma_intercept_load_config,
}
use rdma_intercept_ldperload.Config.Sane.{
  parse_limit-IsLimit, parse_string-length, parse_memory-range, parse_enable_intercept-Keeps,
  parse_log_qp_creation-Keeps, parse_log_all_operations-Keeps, parse_log_level_config-Keeps,
  parse_log_file_path-Keeps, parse_enable_qp_control-Keeps, parse_max_qp_per_process-Keeps,
  parse_max_send_wr_limit-Keeps, parse_max_recv_wr_limit-Keeps, parse_allow_rc_qp-Keeps,
  parse_allow_uc_qp-Keeps, parse_allow_ud_qp-Keeps, parse_max_global_qp-Keeps, IsLimit, IsSane,
  Keeps,
}

-- Every parser of a table keeps a configuration sane.
abbrev AllKeep : List (Bytes × Parser) → Type 0
AllKeep [] = Unit
AllKeep ((name, parser) ∷ table) = Keeps parser × AllKeep table

find_entry-Keeps :
    (table : List (Bytes × Parser)) (key : Bytes) → AllKeep table → Keeps (find_entry table key)
unfolding find_entry
find_entry-Keeps [] key k value c d w h = cc
find_entry-Keeps ((name, parser) ∷ table) key (k, ks) value c d w h =
    elim (Bool-cases (same_case key name)) [
      | inl e ↦ k value c d w (ground arith)
      | inr e ↦ find_entry-Keeps table key ks value c d w (ground arith)
    ]

config_table-AllKeep : AllKeep config_table
unfolding config_table
config_table-AllKeep = (
  parse_enable_intercept-Keeps,
  (
    parse_log_qp_creation-Keeps,
    (
      parse_log_all_operations-Keeps,
      (
        parse_log_level_config-Keeps,
        (
          parse_log_file_path-Keeps,
          (
            parse_enable_qp_control-Keeps,
            (
              parse_max_qp_per_process-Keeps,
              (
                parse_max_send_wr_limit-Keeps,
                (
                  parse_max_recv_wr_limit-Keeps,
                  (
                    parse_allow_rc_qp-Keeps,
                    (
                      parse_allow_uc_qp-Keeps,
                      (parse_allow_ud_qp-Keeps, (parse_max_global_qp-Keeps, tt)),
                    ),
                  ),
                ),
              ),
            ),
          ),
        ),
      ),
    ),
  ),
)

parse_assignment-Keeps : Keeps parse_assignment
unfolding parse_assignment
parse_assignment-Keeps line c d w h = elim (Option-cases (split_equals line)) [
  | inl e ↦ absurd (ground arith)
  | inr ((k, v), e) ↦
      find_entry-Keeps config_table (trim_whitespace k) config_table-AllKeep (trim_whitespace v) c d
        w (ground arith)
]

pub parse_config_line-Keeps : Keeps parse_config_line
unfolding parse_config_line
parse_config_line-Keeps line c d w h = go (trim_whitespace line) h
  where
    go :
        (t : Bytes)
        → elim t [
          | [] ↦ some c
          | b ∷ s ↦ if Entries.starts_comment b then some c else parse_assignment (b ∷ s) c
        ]
          ≡ some d
        → IsSane d
    go [] e = subst IsSane (ground arith) w
    go (b ∷ s) e = elim (Bool-cases (Entries.starts_comment b)) [
      | inl comment ↦ subst IsSane (ground arith) w
      | inr plain ↦ parse_assignment-Keeps (b ∷ s) c d w (ground arith)
    ]

parse_lines-IsSane :
    (lines : List Bytes) (c : InterceptConfig) → IsSane c → IsSane (parse_lines lines c)
unfolding parse_lines
parse_lines-IsSane [] c w = w
parse_lines-IsSane (line ∷ lines) c w = elim (Option-cases (parse_config_line (cut_line line) c)) [
  | inl e ↦ rw e (parse_lines-IsSane lines c w)
  | inr (d, e) ↦ rw e (parse_lines-IsSane lines d (parse_config_line-Keeps (cut_line line) c d w e))
]

value_or-all {ℓ κ} :
    {A : Type ℓ} (P : A → Type κ) (parse : Bytes → Option A) (text : Option Bytes) (old : A)
    → ((t : Bytes) (a : A) → parse t ≡ some a → P a)
    → P old
    → P (value_or parse text old)
value_or-all P parse none old all w = w
value_or-all P parse (some t) old all w = elim (Option-cases (parse t)) [
  | inl e ↦ rw (e, value_or) w
  | inr (n, e) ↦ rw (e, value_or) (all t n e)
]

load_config_from_env-IsSane :
    (getenv : Bytes → Option Bytes) (c : InterceptConfig)
    → IsSane c
    → IsSane (load_config_from_env getenv c)
unfolding load_config_from_env
load_config_from_env-IsSane getenv c w = record {
  qp = value_or-all IsLimit parse_limit _ _ parse_limit-IsLimit w.qp;
  send_wr = value_or-all IsLimit parse_limit _ _ parse_limit-IsLimit w.send_wr;
  recv_wr = value_or-all IsLimit parse_limit _ _ parse_limit-IsLimit w.recv_wr;
  global_qp = value_or-all IsLimit parse_limit _ _ parse_limit-IsLimit w.global_qp;
  mr = value_or-all IsLimit parse_limit _ _ parse_limit-IsLimit w.mr;
  memory = value_or-all (λ n. (1 ≤ n) × (n < 2 ^ 64)) parse_memory _ _ parse_memory-range w.memory;
  path =
      value_or-all (λ p. length p < max_config_file_path) (λ v. parse_string v max_config_file_path)
        _ _ parse_string-length w.path;
}

-- Whatever the environment and the files hold, loading keeps the limits positive 32-bit numbers, the
-- memory limit a positive 64-bit number and the path of the log within its buffer, if they were so.
pub load_config-IsSane :
    (getenv open_file : Bytes → Option Bytes) (config_file : Option Bytes) (state : InterceptState)
    → IsSane state.config
    → IsSane (rdma_intercept_load_config getenv open_file config_file state).config
unfolding rdma_intercept_load_config
load_config-IsSane getenv open_file config_file state w =
    elim (Option-cases (config_content getenv open_file config_file)) [
      | inl e ↦
          rw (e, rdma_intercept_load_config) (load_config_from_env-IsSane getenv state.config w)
      | inr (content, e) ↦
          rw (e, rdma_intercept_load_config)
            (parse_lines-IsSane (fgets_all 1022 1022 content)
              (load_config_from_env getenv state.config)
              (load_config_from_env-IsSane getenv state.config w))
    ]
