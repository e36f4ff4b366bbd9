-- ===== src/Config/Load.antt =====
-- src/config.c: the environment, the file, and the configuration in force.
-- `getenv` and `open_file`, the content that an `fopen` for reading gives access to, are arguments.
use rdma_intercept_ldperload.Base.{
  ℕ, zero, suc, ◌||◌, Option, none, some, List, [], ◌∷◌, ◌==◌, length, leb, if◌then◌else◌,
}
use rdma_intercept_ldperload.Text.{Bytes, codes}
use rdma_intercept_ldperload.Text.Decimal.{strtoull}
use rdma_intercept_ldperload.Shm.{Status, success, failure}
use rdma_intercept_ldperload.Hooks.{InterceptConfig, InterceptState}
use rdma_intercept_ldperload.Config.{parse_bool, parse_string, parse_limit, max_config_file_path}
use rdma_intercept_ldperload.Config.Entries.{parse_config_line}

-- The value that a parser makes of a variable that is set, else the one that stands.
abbrev pub value_or {ℓ} : {A : Type ℓ} → (Bytes → Option A) → Option Bytes → A → A
value_or parse none old = old
value_or parse (some text) old = elim (parse text) [ none ↦ old | some v ↦ v ]

-- `strtoull` above 0.
unfoldable pub parse_memory : Bytes → Option ℕ
parse_memory text = if strtoull text == 0 then none else some (strtoull text)

unfoldable pub load_config_from_env : (Bytes → Option Bytes) → InterceptConfig → InterceptConfig
load_config_from_env getenv config = record config {
  enable_qp_control =
      value_or parse_bool (getenv (codes "RDMA_INTERCEPT_ENABLE_QP_CONTROL"))
        config.enable_qp_control;
  max_qp_per_process =
      value_or parse_limit (getenv (codes "RDMA_INTERCEPT_MAX_QP_PER_PROCESS"))
        config.max_qp_per_process;
  max_global_qp =
      value_or parse_limit (getenv (codes "RDMA_INTERCEPT_MAX_GLOBAL_QP")) config.max_global_qp;
  max_send_wr_limit =
      value_or parse_limit (getenv (codes "RDMA_INTERCEPT_MAX_SEND_WR_LIMIT"))
        config.max_send_wr_limit;
  max_recv_wr_limit =
      value_or parse_limit (getenv (codes "RDMA_INTERCEPT_MAX_RECV_WR_LIMIT"))
        config.max_recv_wr_limit;
  allow_rc_qp =
      value_or parse_bool (getenv (codes "RDMA_INTERCEPT_ALLOW_RC_QP")) config.allow_rc_qp;
  allow_uc_qp =
      value_or parse_bool (getenv (codes "RDMA_INTERCEPT_ALLOW_UC_QP")) config.allow_uc_qp;
  allow_ud_qp =
      value_or parse_bool (getenv (codes "RDMA_INTERCEPT_ALLOW_UD_QP")) config.allow_ud_qp;
  enable_mr_control =
      value_or parse_bool (getenv (codes "RDMA_INTERCEPT_ENABLE_MR_CONTROL"))
        config.enable_mr_control;
  max_mr_per_process =
      value_or parse_limit (getenv (codes "RDMA_INTERCEPT_MAX_MR_PER_PROCESS"))
        config.max_mr_per_process;
  max_memory_per_process =
      value_or parse_memory (getenv (codes "RDMA_INTERCEPT_MAX_MEMORY_PER_PROCESS"))
        config.max_memory_per_process;
  log_file_path =
      value_or (λ v. parse_string v max_config_file_path)
        (getenv (codes "RDMA_INTERCEPT_LOG_FILE_PATH")) config.log_file_path;
}

-- A byte in front of the chunk that comes next.
abbrev pub extend : ℕ → List Bytes → List Bytes
extend c [] = (c ∷ []) ∷ []
extend c (chunk ∷ chunks) = (c ∷ chunk) ∷ chunks

-- The chunks that `fgets` reads, each up to a newline or until `size` bytes are read; `room` is what
-- the chunk at hand has left after its next byte.
unfoldable pub fgets_all : ℕ → ℕ → Bytes → List Bytes
fgets_all size room [] = []
fgets_all size zero (c ∷ s) = (c ∷ []) ∷ fgets_all size size s
fgets_all size (suc room) (c ∷ s) =
    let chunks = fgets_all size (if c == 10 then size else room) s in
    if c == 10 then (c ∷ []) ∷ chunks else extend c chunks

-- `line[strcspn(line, "\r\n")] = '\0'`.
unfoldable pub cut_line : Bytes → Bytes
cut_line [] = []
cut_line (c ∷ s) = if c == 0 || c == 10 || c == 13 then [] else c ∷ cut_line s

-- The loop over the lines: a line that is refused is skipped, and counted for the log only.
unfoldable pub parse_lines : List Bytes → InterceptConfig → InterceptConfig
parse_lines [] config = config
parse_lines (line ∷ lines) config =
    parse_lines lines
      (elim (parse_config_line (cut_line line) config) [ none ↦ config | some changed ↦ changed ])

abbrev pub default_config_file : Bytes
default_config_file = codes "/etc/rdma_intercept.conf"

-- The file that is read: the one named, else the one that the environment names.
unfoldable pub config_content :
    (Bytes → Option Bytes) → (Bytes → Option Bytes) → Option Bytes → Option Bytes
config_content getenv open_file config_file =
    elim (open_file (elim config_file [ none ↦ default_config_file | some f ↦ f ])) [
      | some content ↦ some content
      | none ↦ elim (getenv (codes "RDMA_INTERCEPT_CONFIG")) [
        | none ↦ none
        | some path ↦ open_file path
      ]
    ]

-- It returns 0 always. A line is at most 1023 bytes long.
unfoldable pub rdma_intercept_load_config :
    (Bytes → Option Bytes) → (Bytes → Option Bytes) → Option Bytes → InterceptState → InterceptState
unfolding config_content parse_lines load_config_from_env
rdma_intercept_load_config getenv open_file config_file state =
    let config = load_config_from_env getenv state.config in
    record state {
      config = elim (config_content getenv open_file config_file) [
        | none ↦ config
        | some content ↦ parse_lines (fgets_all 1022 1022 content) config
      ];
    }

-- `none` stands for a NULL pointer; every level of the type is within the levels tested for.
unfoldable pub rdma_intercept_set_config :
    Option InterceptConfig → InterceptState → Status × InterceptState
rdma_intercept_set_config none state = (failure, state)
rdma_intercept_set_config (some config) state =
    if leb max_config_file_path (length config.log_file_path)
    then (failure, state)
    else (success, record state { config = config })

unfoldable pub rdma_intercept_get_config : InterceptState → InterceptConfig
rdma_intercept_get_config state = state.config
