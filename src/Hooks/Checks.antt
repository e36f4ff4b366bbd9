-- ===== src/Hooks/Checks.antt =====
-- src/rdma_hooks_tenant.c: the tests that a creation must pass.
use rdma_intercept_ldperload.Base.{
  ℕ, ◌+◌, Bool, true, false, not, ◌&&◌, ◌||◌, Option, none, some, u32, u64, ◌==◌, ltb, leb,
  if◌then◌else◌,
}
use rdma_intercept_ldperload.Shm.{
  Status, success, failure, ResourceUsage, shm_get_process_resources, shm_get_global_resources,
}
use rdma_intercept_ldperload.Tenant.{TenantInfo}
use rdma_intercept_ldperload.Tenant.Lifecycle.{tenant_get_info}
use rdma_intercept_ldperload.Hooks.{Process, InterceptConfig, Env, QpType, rc, uc, ud, other}
use rdma_intercept_ldperload.Hooks.Tenancy.{get_current_tenant_id}

-- The tests on the tenant's record; a refused read is a denial.
abbrev pub judge_info : (TenantInfo → Bool) → Status × Option TenantInfo → Bool
judge_info test (success, some info) = test info
judge_info test (success, none) = false
judge_info test (failure, info) = false

unfoldable pub check_tenant_qp_limit : Env → ℕ → Process → Bool × Process
check_tenant_qp_limit e id p =
    if id == 0 || not p.tenant_initialized
    then (true, p)
    else (let (answer, h) = tenant_get_info e.replies e.now id p.tenant in
        (
          judge_info (λ info. not (leb info.quota.max_qp_per_tenant info.usage.qp_count)) answer,
          record p { tenant = h },
        ))

-- The count of regions, then the bytes, where a memory quota of 0 is none.
unfoldable pub mr_fits : ℕ → TenantInfo → Bool
mr_fits length info =
    if leb info.quota.max_mr_per_tenant info.usage.mr_count
    then false
    else not (
        ltb 0 info.quota.max_memory_per_tenant
        && ltb info.quota.max_memory_per_tenant (u64 (info.usage.memory_used + length)))

unfoldable pub check_tenant_mr_limit_inline : Env → ℕ → ℕ → Process → Bool × Process
check_tenant_mr_limit_inline e id length p =
    if id == 0 || not p.tenant_initialized
    then (true, p)
    else (let (answer, h) = tenant_get_info e.replies e.now id p.tenant in
        (judge_info (mr_fits length) answer, record p { tenant = h }))

unfoldable pub type_allowed : QpType → InterceptConfig → Bool
type_allowed rc c = c.allow_rc_qp
type_allowed uc c = c.allow_uc_qp
type_allowed ud c = c.allow_ud_qp
type_allowed other c = true

-- `none` is the return code -1; the zeroed buffer is then not read.
abbrev pub get_process_resources_via_shared_memory : Process → Option ResourceUsage
get_process_resources_via_shared_memory p = shm_get_process_resources p.pid p.shm

abbrev pub get_global_resources_via_shared_memory : Process → Option ResourceUsage
get_global_resources_via_shared_memory p = shm_get_global_resources p.shm

-- Where the usage cannot be read the limit is not checked.
unfoldable pub process_limit_ok : Process → Bool
process_limit_ok p = elim (get_process_resources_via_shared_memory p) [
  | none ↦ true
  | some u ↦ not (ltb p.core.config.max_qp_per_process (u32 (u.qp_count + 1)))
]

unfoldable pub global_limit_ok : Process → Bool
global_limit_ok p = elim (get_global_resources_via_shared_memory p) [
  | none ↦ true
  | some u ↦ not (leb p.core.config.max_global_qp u.qp_count)
]

unfoldable pub check_qp_creation_restrictions : Env → QpType → Process → Bool × Process
check_qp_creation_restrictions e qp_type p =
    if not p.core.config.enable_qp_control
    then (true, p)
    else if not (type_allowed qp_type p.core.config)
    then (false, p)
    else (let (id, p₁) = get_current_tenant_id e p in
        let (ok, p₂) = check_tenant_qp_limit e id p₁ in
        if not ok
        then (false, p₂)
        else if not (process_limit_ok p₂)
        then (false, p₂)
        else (global_limit_ok p₂, p₂))
