-- ===== src/Tenant.antt =====
-- src/shm/shared_memory_tenant.h: the registry of tenants that all processes share.
-- `TenantHandle` is the pair of file-level variables of one process. Each operation takes what the
-- kernel would answer if it had to attach first, and the second that the clock shows; the reads of
-- the clock in one operation are taken to agree. A buffer for a result is a result of the model.
pub mod Segment
pub mod Lifecycle
pub mod Binding
pub mod Usage
pub mod Registry
pub mod Ledger
pub mod Limits
pub mod Info
use rdma_intercept_ldperload.Base.{ℕ, Bool, true, false, List, Option, replicate}
use rdma_intercept_ldperload.Shm.{max_processes}

abbrev pub max_tenants : ℕ
max_tenants = 64

-- `enum tenant_status`.
pub data TenantStatus : Type 0 where
  inactive active suspended : TenantStatus

-- `tenant_quota_t`.
pub record TenantQuota : Type 0 where
  pub max_qp_per_tenant : ℕ
  pub max_mr_per_tenant : ℕ
  pub max_memory_per_tenant : ℕ
  pub max_cq_per_tenant : ℕ
  pub max_pd_per_tenant : ℕ

-- `tenant_resource_usage_t`; the `int` counters are 32-bit patterns.
pub record TenantUsage : Type 0 where
  pub qp_count : ℕ
  pub mr_count : ℕ
  pub cq_count : ℕ
  pub pd_count : ℕ
  pub memory_used : ℕ
  pub total_qp_creates : ℕ
  pub total_qp_destroys : ℕ
  pub total_mr_regs : ℕ
  pub total_mr_deregs : ℕ

-- `tenant_info_t`; the name is the bytes before the terminating zero.
pub record TenantInfo : Type 0 where
  pub tenant_id : ℕ
  pub tenant_name : List ℕ
  pub status : TenantStatus
  pub quota : TenantQuota
  pub usage : TenantUsage
  pub created_at : ℕ
  pub last_active_at : ℕ
  pub process_count : ℕ
  pub processes : List ℕ

-- `pid_tenant_mapping_t`; pid 0 marks a free entry.
pub record PidMapping : Type 0 where
  pub pid : ℕ
  pub tenant_id : ℕ
  pub mapped_at : ℕ

-- `tenant_shared_memory_t`.
pub record TenantShm : Type 0 where
  pub tenants : List TenantInfo
  pub pid_mappings : List PidMapping
  pub active_tenant_count : ℕ
  pub total_process_count : ℕ
  pub tenant_shm_lock : ℕ
  pub version : ℕ
  pub last_update_time : ℕ

-- `g_tenant_shm_fd`, where `none` is -1, and `g_tenant_shm`, where `none` is NULL.
pub record TenantHandle : Type 0 where
  pub g_tenant_shm_fd : Option ℕ
  pub g_tenant_shm : Option TenantShm

-- What `memset(…, 0, …)` leaves of each structure.
abbrev pub zero_quota : TenantQuota
zero_quota = record {
  max_qp_per_tenant = 0;
  max_mr_per_tenant = 0;
  max_memory_per_tenant = 0;
  max_cq_per_tenant = 0;
  max_pd_per_tenant = 0;
}

abbrev pub zero_tenant_usage : TenantUsage
zero_tenant_usage = record {
  qp_count = 0;
  mr_count = 0;
  cq_count = 0;
  pd_count = 0;
  memory_used = 0;
  total_qp_creates = 0;
  total_qp_destroys = 0;
  total_mr_regs = 0;
  total_mr_deregs = 0;
}

abbrev pub zero_tenant : TenantInfo
zero_tenant = record {
  tenant_id = 0;
  tenant_name = List.[];
  status = inactive;
  quota = zero_quota;
  usage = zero_tenant_usage;
  created_at = 0;
  last_active_at = 0;
  process_count = 0;
  processes = replicate max_processes 0;
}

abbrev pub free_mapping : PidMapping
free_mapping = record { pid = 0; tenant_id = 0; mapped_at = 0 }

abbrev pub is_inactive : TenantStatus → Bool
is_inactive inactive = true
is_inactive active = false
is_inactive suspended = false

abbrev pub is_active : TenantStatus → Bool
is_active inactive = false
is_active active = true
is_active suspended = false
