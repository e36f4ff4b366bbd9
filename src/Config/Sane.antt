-- ===== src/Config/Sane.antt =====
-- The entries of src/config.c and the limits that they write.
use rdma_intercept_ldperload.Base.{
  ℕ, ◌^◌, ◌≤◌, ◌<◌, ◌≡◌, refl, subst, Option, none, some, length, arith,
}
use rdma_intercept_ldperload.Text.{Bytes}
use rdma_intercept_ldperload.Text.Decimal.{strtoull, scan_unsigned, to_unsigned}
use rdma_intercept_ldperload.Hooks.{InterceptConfig}
use rdma_intercept_ldperload.Config.{
  parse_bool, parse_log_level_value, parse_string, parse_limit, max_config_file_path,
}
use rdma_intercept_ldperload.Config.Entries
use rdma_intercept_ldperload.Config.Entries.{
  Parser, store, find_entry, config_table, parse_assignment, parse_config_line, split_equals,
}
use rdma_intercept_ldperload.Config.Load.{parse_memory}

abbrev pub IsLimit : ℕ → Type 0
IsLimit n = (1 ≤ n) × (n < 2 ^ 32)

-- The limits are positive 32-bit numbers, the memory limit is a positive 64-bit number, and the path
-- of the log fits its buffer with the zero behind it.
pub record IsSane (c : InterceptConfig) : Type 0 where
  pub qp : IsLimit c.max_qp_per_process
  pub send_wr : IsLimit c.max_send_wr_limit
  pub recv_wr : IsLimit c.max_recv_wr_limit
  pub global_qp : IsLimit c.max_global_qp
  pub mr : IsLimit c.max_mr_per_process
  pub memory : (1 ≤ c.max_memory_per_process) × (c.max_memory_per_process < 2 ^ 64)
  pub path : length c.log_file_path < max_config_file_path

pub parse_limit-IsLimit : (value : Bytes) (n : ℕ) → parse_limit value ≡ some n → IsLimit n
unfolding parse_limit
parse_limit-IsLimit value n h = (ground arith, ground arith)

pub parse_string-length :
    (value s : Bytes)
    → parse_string value max_config_file_path ≡ some s
    → length s < max_config_file_path
unfolding parse_string
parse_string-length value s h = ground arith

pub parse_memory-range :
    (value : Bytes) (n : ℕ) → parse_memory value ≡ some n → (1 ≤ n) × (n < 2 ^ 64)
unfolding parse_memory strtoull scan_unsigned to_unsigned
parse_memory-range value n h = (ground arith, ground arith)

-- A configuration with the limits and the path of a sane one.
unchanged-IsSane :
    (c d : InterceptConfig)
    → IsSane c
    → d.max_qp_per_process ≡ c.max_qp_per_process
    → d.max_send_wr_limit ≡ c.max_send_wr_limit
    → d.max_recv_wr_limit ≡ c.max_recv_wr_limit
    → d.max_global_qp ≡ c.max_global_qp
    → d.max_mr_per_process ≡ c.max_mr_per_process
    → d.max_memory_per_process ≡ c.max_memory_per_process
    → d.log_file_path ≡ c.log_file_path
    → IsSane d
unchanged-IsSane c d w qp send_wr recv_wr global_qp mr memory path = record {
  qp = rw qp w.qp;
  send_wr = rw send_wr w.send_wr;
  recv_wr = rw recv_wr w.recv_wr;
  global_qp = rw global_qp w.global_qp;
  mr = rw mr w.mr;
  memory = rw memory w.memory;
  path = rw path w.path;
}

-- A parser that keeps a configuration sane.
abbrev pub Keeps : Parser → Type 0
Keeps parser =
    (value : Bytes) (c d : InterceptConfig) → IsSane c → parser value c ≡ some d → IsSane d

store-IsSane {ℓ} :
    {A : Type ℓ} (value : Option A) (write : A → InterceptConfig) (d : InterceptConfig)
    → ((a : A) → value ≡ some a → IsSane (write a))
    → store value write ≡ some d
    → IsSane d
store-IsSane none write d sane h = cc
store-IsSane (some a) write d sane h = subst IsSane (ground arith) (sane a refl)

pub parse_enable_intercept-Keeps : Keeps Entries.parse_enable_intercept
unfolding Entries.parse_enable_intercept
parse_enable_intercept-Keeps value c d w h =
    store-IsSane (parse_bool value) (λ v. record c { enable_intercept = v }) d
      (λ v e.
        unchanged-IsSane c (record c { enable_intercept = v }) w refl refl refl refl refl refl refl)
      h

pub parse_log_qp_creation-Keeps : Keeps Entries.parse_log_qp_creation
unfolding Entries.parse_log_qp_creation
parse_log_qp_creation-Keeps value c d w h =
    store-IsSane (parse_bool value) (λ v. record c { log_qp_creation = v }) d
      (λ v e.
        unchanged-IsSane c (record c { log_qp_creation = v }) w refl refl refl refl refl refl refl)
      h

pub parse_log_all_operations-Keeps : Keeps Entries.parse_log_all_operations
unfolding Entries.parse_log_all_operations
parse_log_all_operations-Keeps value c d w h =
    store-IsSane (parse_bool value) (λ v. record c { log_all_operations = v }) d
      (λ v e.
        unchanged-IsSane c (record c { log_all_operations = v }) w refl refl refl refl refl refl
          refl)
      h

pub parse_log_level_config-Keeps : Keeps Entries.parse_log_level_config
unfolding Entries.parse_log_level_config
parse_log_level_config-Keeps value c d w h =
    store-IsSane (parse_log_level_value value) (λ v. record c { log_level = v }) d
      (λ v e. unchanged-IsSane c (record c { log_level = v }) w refl refl refl refl refl refl refl)
      h

pub parse_log_file_path-Keeps : Keeps Entries.parse_log_file_path
unfolding Entries.parse_log_file_path
parse_log_file_path-Keeps value c d w h =
    store-IsSane (parse_string value max_config_file_path) (λ v. record c { log_file_path = v }) d
      (λ v e. record {
        qp = w.qp;
        send_wr = w.send_wr;
        recv_wr = w.recv_wr;
        global_qp = w.global_qp;
        mr = w.mr;
        memory = w.memory;
        path = parse_string-length value v e;
      })
      h

pub parse_enable_qp_control-Keeps : Keeps Entries.parse_enable_qp_control
unfolding Entries.parse_enable_qp_control
parse_enable_qp_control-Keeps value c d w h =
    store-IsSane (parse_bool value) (λ v. record c { enable_qp_control = v }) d
      (λ v e.
        unchanged-IsSane c (record c { enable_qp_control = v }) w refl refl refl refl refl refl
          refl)
      h

pub parse_max_qp_per_process-Keeps : Keeps Entries.parse_max_qp_per_process
unfolding Entries.parse_max_qp_per_process
parse_max_qp_per_process-Keeps value c d w h =
    store-IsSane (parse_limit value) (λ v. record c { max_qp_per_process = v }) d
      (λ v e. record {
        qp = parse_limit-IsLimit value v e;
        send_wr = w.send_wr;
        recv_wr = w.recv_wr;
        global_qp = w.global_qp;
        mr = w.mr;
        memory = w.memory;
        path = w.path;
      })
      h

pub parse_max_send_wr_limit-Keeps : Keeps Entries.parse_max_send_wr_limit
unfolding Entries.parse_max_send_wr_limit
parse_max_send_wr_limit-Keeps value c d w h =
    store-IsSane (parse_limit value) (λ v. record c { max_send_wr_limit = v }) d
      (λ v e. record {
        qp = w.qp;
        send_wr = parse_limit-IsLimit value v e;
        recv_wr = w.recv_wr;
        global_qp = w.global_qp;
        mr = w.mr;
        memory = w.memory;
        path = w.path;
      })
      h

pub parse_max_recv_wr_limit-Keeps : Keeps Entries.parse_max_recv_wr_limit
unfolding Entries.parse_max_recv_wr_limit
parse_max_recv_wr_limit-Keeps value c d w h =
    store-IsSane (parse_limit value) (λ v. record c { max_recv_wr_limit = v }) d
      (λ v e. record {
        qp = w.qp;
        send_wr = w.send_wr;
        recv_wr = parse_limit-IsLimit value v e;
        global_qp = w.global_qp;
        mr = w.mr;
        memory = w.memory;
        path = w.path;
      })
      h

pub parse_allow_rc_qp-Keeps : Keeps Entries.parse_allow_rc_qp
unfolding Entries.parse_allow_rc_qp
parse_allow_rc_qp-Keeps value c d w h =
    store-IsSane (parse_bool value) (λ v. record c { allow_rc_qp = v }) d
      (λ v e.
        unchanged-IsSane c (record c { allow_rc_qp = v }) w refl refl refl refl refl refl refl)
      h

pub parse_allow_uc_qp-Keeps : Keeps Entries.parse_allow_uc_qp
unfolding Entries.parse_allow_uc_qp
parse_allow_uc_qp-Keeps value c d w h =
    store-IsSane (parse_bool value) (λ v. record c { allow_uc_qp = v }) d
      (λ v e.
        unchanged-IsSane c (record c { allow_uc_qp = v }) w refl refl refl refl refl refl refl)
      h

pub parse_allow_ud_qp-Keeps : Keeps Entries.parse_allow_ud_qp
unfolding Entries.parse_allow_ud_qp
parse_allow_ud_qp-Keeps value c d w h =
    store-IsSane (parse_bool value) (λ v. record c { allow_ud_qp = v }) d
      (λ v e.
        unchanged-IsSane c (record c { allow_ud_qp = v }) w refl refl refl refl refl refl refl)
      h

pub parse_max_global_qp-Keeps : Keeps Entries.parse_max_global_qp
unfolding Entries.parse_max_global_qp
parse_max_global_qp-Keeps value c d w h =
    store-IsSane (parse_limit value) (λ v. record c { max_global_qp = v }) d
      (λ v e. record {
        qp = w.qp;
        send_wr = w.send_wr;
        recv_wr = w.recv_wr;
        global_qp = parse_limit-IsLimit value v e;
        mr = w.mr;
        memory = w.memory;
        path = w.path;
      })
      h
