-- ===== src/Policy.antt =====
-- src/dynamic_policy_manager.c and include/dynamic_policy.h: the limits of the dynamic policy. The
-- mutexes protect single calls, which are the steps of the model. A `float` is its bit pattern.
pub mod Rules
pub mod TenantPolicies
pub mod Files
pub mod SaveLoad
pub mod Local
pub mod LocalLimits
pub mod Laws
use rdma_intercept_ldperload.Base.{ℕ, Bool, List}
use rdma_intercept_ldperload.Shm.{ShmHandle}

-- `enum policy_type`.
pub data PolicyType : Type 0 where
  static_type dynamic_type adaptive_type : PolicyType

-- `enum resource_type`, and every other value that a caller may pass.
pub data Resource : Type 0 where
  resource_qp resource_mr resource_cq resource_pd resource_memory resource_other : Resource

-- `resource_limit_t`.
pub record ResourceLimit : Type 0 where
  pub max_per_process : ℕ
  pub max_global : ℕ
  pub max_memory : ℕ

-- `policy_rule_t`.
pub record PolicyRule : Type 0 where
  pub rule_id : ℕ
  pub kind : PolicyType
  pub resource : Resource
  pub limit : ResourceLimit
  pub priority : ℕ
  pub created_at : ℕ
  pub expires_at : ℕ
  pub enabled : Bool

-- `dynamic_policy_config_t`.
pub record PolicyConfig : Type 0 where
  pub qp_policy : PolicyRule
  pub mr_policy : PolicyRule
  pub cq_policy : PolicyRule
  pub pd_policy : PolicyRule
  pub memory_policy : PolicyRule
  pub auto_adjust : Bool
  pub adjust_interval : ℕ
  pub high_watermark : ℕ
  pub low_watermark : ℕ

-- `tenant_policy_t`.
pub record TenantPolicy : Type 0 where
  pub tenant_id : ℕ
  pub tenant_name : List ℕ
  pub policy : PolicyConfig
  pub last_updated : ℕ

-- `g_policy_config`, `g_tenant_policies`, and the handle of the usage segment.
pub record PolicyState : Type 0 where
  pub config : PolicyConfig
  pub tenant_policies : List TenantPolicy
  pub shm : ShmHandle
