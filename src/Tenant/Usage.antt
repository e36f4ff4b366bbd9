-- ===== src/Tenant/Usage.antt =====
-- src/shm/shared_memory_tenant.c: tenant_update_resource_usage, tenant_get_resource_usage,
-- tenant_check_resource_limit, tenant_get_active_list and tenant_get_statistics.
use rdma_intercept_ldperload.Base.{
  ℕ, zero, suc, ◌+◌, Bool, true, false, not, List, [], ◌∷◌, Option, none, some, u32, u64, ◌==◌, ltb,
  leb, int_pos, if◌then◌else◌,
}
use rdma_intercept_ldperload.Shm.{Status, success, failure}
use rdma_intercept_ldperload.Tenant.{
  TenantInfo, TenantUsage, TenantShm, TenantHandle, max_tenants, is_active,
}
use rdma_intercept_ldperload.Tenant.Segment.{TenantReplies, with_shm}
use rdma_intercept_ldperload.Tenant.Lifecycle.{tenant_at, set_tenant}

unfoldable pub update_usage_locked : ℕ → ℕ → TenantUsage → TenantShm → Status × TenantShm
update_usage_locked now id usage s =
    if not (is_active (tenant_at s id).status) then (failure, s) else (
      success,
      set_tenant s id (record (tenant_at s id) { usage = usage; last_active_at = now }),
    )

unfoldable pub tenant_update_resource_usage :
    TenantReplies → ℕ → ℕ → Option TenantUsage → TenantHandle → Status × TenantHandle
unfolding update_usage_locked with_shm
tenant_update_resource_usage r now id none h = (failure, h)
tenant_update_resource_usage r now id (some usage) h =
    if leb max_tenants id
    then (failure, h)
    else with_shm r now failure (update_usage_locked now id usage) h

-- `none` is the return code -1.
unfoldable pub usage_locked : ℕ → TenantShm → Option TenantUsage × TenantShm
usage_locked id s =
    (if not (is_active (tenant_at s id).status) then none else some (tenant_at s id).usage, s)

unfoldable pub tenant_get_resource_usage :
    TenantReplies → ℕ → ℕ → TenantHandle → Option TenantUsage × TenantHandle
unfolding usage_locked with_shm
tenant_get_resource_usage r now id h =
    if leb max_tenants id then (none, h) else with_shm r now none (usage_locked id) h

-- The `switch` on the resource type: 0 QP, 1 MR, 2 memory, 3 CQ, 4 PD, and nothing else is
-- limited. The counters are added as uint32_t, the memory as uint64_t.
unfoldable pub is_exceeded : ℕ → ℕ → TenantInfo → Bool
is_exceeded resource_type requested t =
    if resource_type == 0
    then ltb t.quota.max_qp_per_tenant (u32 (t.usage.qp_count + requested))
    else if resource_type == 1
    then ltb t.quota.max_mr_per_tenant (u32 (t.usage.mr_count + requested))
    else if resource_type == 2
    then ltb t.quota.max_memory_per_tenant (u64 (t.usage.memory_used + requested))
    else if resource_type == 3
    then ltb t.quota.max_cq_per_tenant (u32 (t.usage.cq_count + requested))
    else if resource_type == 4
    then ltb t.quota.max_pd_per_tenant (u32 (t.usage.pd_count + requested))
    else false

unfoldable pub check_limit_locked : ℕ → ℕ → ℕ → TenantShm → Bool × TenantShm
unfolding is_exceeded
check_limit_locked id resource_type requested s = (
  (if not (is_active (tenant_at s id).status)
      then true
      else is_exceeded resource_type requested (tenant_at s id)),
  s,
)

unfoldable pub tenant_check_resource_limit :
    TenantReplies → ℕ → ℕ → ℕ → ℕ → TenantHandle → Bool × TenantHandle
unfolding check_limit_locked with_shm
tenant_check_resource_limit r now id resource_type requested h =
    if leb max_tenants id
    then (false, h)
    else with_shm r now false (check_limit_locked id resource_type requested) h

-- The loop of `tenant_get_active_list`, with the room left in the buffer.
unfoldable pub collect_active : ℕ → List TenantInfo → List TenantInfo
collect_active zero ts = []
collect_active (suc room) [] = []
collect_active (suc room) (t ∷ ts) =
    let rest = collect_active (suc room) ts in
    let fewer = collect_active room ts in if is_active t.status then t ∷ fewer else rest

-- `none` is the return code -1; otherwise the code returns the length of the list.
unfoldable pub tenant_get_active_list :
    TenantReplies → ℕ → ℕ → TenantHandle → Option (List TenantInfo) × TenantHandle
unfolding collect_active with_shm
tenant_get_active_list r now max_count h =
    if not (int_pos max_count)
    then (none, h)
    else with_shm r now none (λ s. (some (collect_active max_count s.tenants), s)) h

unfoldable pub statistics_locked : ℕ → TenantShm → Option (ℕ × ℕ) × TenantShm
statistics_locked id s = (
  (if not (is_active (tenant_at s id).status)
      then none
      else some ((tenant_at s id).usage.total_qp_creates, (tenant_at s id).usage.total_mr_regs)),
  s,
)

unfoldable pub tenant_get_statistics :
    TenantReplies → ℕ → ℕ → TenantHandle → Option (ℕ × ℕ) × TenantHandle
unfolding statistics_locked with_shm
tenant_get_statistics r now id h =
    if leb max_tenants id then (none, h) else with_shm r now none (statistics_locked id) h
