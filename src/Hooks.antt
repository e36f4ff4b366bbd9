-- ===== src/Hooks.antt =====
-- src/rdma_hooks_tenant.c: the interposed verbs of the preloaded library, and the state of
-- src/intercept_core.c that they read and count in. `Process` is one process: its global variables
-- and its two handles. What the driver, the clock and the kernel answer to a call is in `Env`.
pub mod Tenancy
pub mod Checks
pub mod Qp
pub mod Mr
pub mod Cq
pub mod Setup
pub mod Views
pub mod Passing
pub mod Quota
pub mod Race
pub mod Memory
pub mod Stale
use rdma_intercept_ldperload.Base.{ℕ, Bool, true, false, ◌&&◌, Option, List}
use rdma_intercept_ldperload.Shm.{ShmHandle}
use rdma_intercept_ldperload.Tenant.{TenantHandle}
use rdma_intercept_ldperload.Tenant.Segment.{TenantReplies}

-- `log_level_t`.
pub data LogLevel : Type 0 where
  level_debug level_info level_warn level_error level_fatal : LogLevel

-- `intercept_config_t`; the path is the bytes before the terminating zero.
pub record InterceptConfig : Type 0 where
  pub enable_intercept : Bool
  pub log_qp_creation : Bool
  pub log_all_operations : Bool
  pub log_level : LogLevel
  pub log_file_path : List ℕ
  pub enable_qp_control : Bool
  pub max_qp_per_process : ℕ
  pub max_send_wr_limit : ℕ
  pub max_recv_wr_limit : ℕ
  pub allow_rc_qp : Bool
  pub allow_uc_qp : Bool
  pub allow_ud_qp : Bool
  pub allow_rq_qp : Bool
  pub max_global_qp : ℕ
  pub enable_mr_control : Bool
  pub max_mr_per_process : ℕ
  pub max_memory_per_process : ℕ

-- `g_intercept_state`, without the log.
pub record InterceptState : Type 0 where
  pub initialized : Bool
  pub config : InterceptConfig
  pub qp_count : ℕ
  pub mr_count : ℕ
  pub memory_used : ℕ

pub record Process : Type 0 where
  pub pid : ℕ
  pub core : InterceptState
  pub tenant_initialized : Bool
  pub shm : ShmHandle
  pub tenant : TenantHandle

-- What stands outside the process in one call: the kernel's answers to an attachment, and clocks.
pub record Env : Type 0 where
  pub replies : TenantReplies
  pub now : ℕ
  pub now_ns : ℕ

-- `enum ibv_qp_type`, as far as the switch tells the types apart.
pub data QpType : Type 0 where
  rc uc ud other : QpType

pub data Errno : Type 0 where
  enosys eperm : Errno

-- What a hook returns, the errno that the hook itself sets, and whether it called the driver.
pub record Outcome {ℓ} (A : Type ℓ) : Type ℓ where
  pub value : A
  pub errno : Option Errno
  pub called : Bool

unfoldable pub rdma_intercept_is_enabled : Process → Bool
rdma_intercept_is_enabled p = p.core.initialized && p.core.config.enable_intercept
