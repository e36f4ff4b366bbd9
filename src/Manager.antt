-- ===== src/Manager.antt =====
-- src/tenant_manager_daemon.c and src/tenant_manager.c: the tools that manage the tenants. The JSON
-- library is not part of the repository: a parsed command is the answer of its accessors.
pub mod Daemon
pub mod Commands
pub mod Service
pub mod Creation
use rdma_intercept_ldperload.Base.{ℕ, Bool, Option, List}
use rdma_intercept_ldperload.Text.{Bytes}
use rdma_intercept_ldperload.Tenant.{TenantStatus}

-- The fields of a command that the handlers ask for, where `none` is a field that is not there:
-- `json_object_get_string`, `json_object_get_int` as a 32-bit and `json_object_get_int64` as a 64-bit
-- pattern.
pub record Command : Type 0 where
  pub cmd : Option Bytes
  pub tenant : Option ℕ
  pub name : Option Bytes
  pub qp : Option ℕ
  pub mr : Option ℕ
  pub memory : Option ℕ

-- The members of the object for one tenant.
pub record TenantRow : Type 0 where
  pub id : ℕ
  pub name : Bytes
  pub status : TenantStatus
  pub qp_used : ℕ
  pub qp_limit : ℕ
  pub mr_used : ℕ
  pub mr_limit : ℕ
  pub memory_used : ℕ
  pub memory_limit : ℕ

-- The members of the object for one tenant of the listing.
pub record ListedTenant : Type 0 where
  pub id : ℕ
  pub name : Bytes
  pub qp_used : ℕ
  pub qp_limit : ℕ
  pub mr_used : ℕ
  pub mr_limit : ℕ

-- The `data` member of a response.
pub data ResponseData : Type 0 where
  no_data : ResponseData
  all_rows : List TenantRow → ResponseData
  one_row : TenantRow → ℕ → ℕ → ResponseData
  listing : ℕ → ℕ → List ListedTenant → ResponseData

pub record Response : Type 0 where
  pub success : Bool
  pub message : Bytes
  pub payload : ResponseData

-- What stands outside the daemon in one command: the kernel's answers to an attachment, and clocks.
pub record DaemonEnv : Type 0 where
  pub now : ℕ
  pub now_ns : ℕ
