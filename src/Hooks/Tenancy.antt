-- ===== src/Hooks/Tenancy.antt =====
-- src/rdma_hooks_tenant.c: the tenant of the process and its counters.
use rdma_intercept_ldperload.Base.{
  ℕ, ◌+◌, not, ◌||◌, none, some, u32, u64, int_pos, int_neg, ◌==◌, if◌then◌else◌,
}
use rdma_intercept_ldperload.Shm.{Status, success, failure}
use rdma_intercept_ldperload.Tenant.{TenantUsage}
use rdma_intercept_ldperload.Tenant.Binding.{tenant_get_process_tenant}
use rdma_intercept_ldperload.Tenant.Usage.{tenant_get_resource_usage, tenant_update_resource_usage}
use rdma_intercept_ldperload.Hooks.{Process, Env}

abbrev tenant_or_default : Status × ℕ → ℕ
tenant_or_default (success, id) = id
tenant_or_default (failure, id) = 0

-- The tenant id, 0 for the default tenant; reading it stamps the segment.
unfoldable pub get_current_tenant_id : Env → Process → ℕ × Process
get_current_tenant_id e p =
    if not p.tenant_initialized
    then (0, p)
    else (let (answer, h) = tenant_get_process_tenant e.replies e.now p.pid p.tenant in
        (tenant_or_default answer, record p { tenant = h }))

-- The `switch` of `update_tenant_resource_count`: 0 QP, 1 MR, 3 CQ, 4 PD. `delta` is an `int`.
unfoldable pub count_usage : ℕ → ℕ → TenantUsage → TenantUsage
count_usage resource_type delta u =
    if resource_type == 0
    then record u {
      qp_count = u32 (u.qp_count + delta);
      total_qp_creates = if int_pos delta then u64 (u.total_qp_creates + 1) else u.total_qp_creates;
      total_qp_destroys =
          if int_neg delta then u64 (u.total_qp_destroys + 1) else u.total_qp_destroys;
    }
    else if resource_type == 1
    then record u {
      mr_count = u32 (u.mr_count + delta);
      total_mr_regs = if int_pos delta then u64 (u.total_mr_regs + 1) else u.total_mr_regs;
      total_mr_deregs = if int_neg delta then u64 (u.total_mr_deregs + 1) else u.total_mr_deregs;
    }
    else if resource_type == 3
    then record u { cq_count = u32 (u.cq_count + delta) }
    else if resource_type == 4
    then record u { pd_count = u32 (u.pd_count + delta) }
    else u

-- A read and a write of the usage record, each under the lock by itself.
unfoldable pub update_tenant_resource_count : Env → ℕ → ℕ → ℕ → Process → Process
update_tenant_resource_count e id resource_type delta p =
    if id == 0 || not p.tenant_initialized
    then p
    else (let (usage, h) = tenant_get_resource_usage e.replies e.now id p.tenant in
        elim usage [
          | none ↦ record p { tenant = h }
          | some u ↦ record p {
            tenant =
                (tenant_update_resource_usage e.replies e.now id
                  (some (count_usage resource_type delta u)) h).1;
          }
        ])

-- `update_tenant_resource_count(get_current_tenant_id(), resource_type, delta)`.
unfoldable pub charge : Env → ℕ → ℕ → Process → Process
charge e resource_type delta p =
    let (id, p') = get_current_tenant_id e p in
    update_tenant_resource_count e id resource_type delta p'
