-- ===== src/Tenant/Limits.antt =====
-- Quota checks and usage records of src/shm/shared_memory_tenant.c.
use rdma_intercept_ldperload.Base.{
  ℕ, zero, suc, ◌+◌, ◌-◌, ◌^◌, ◌≤◌, ◌<◌, ◌≡◌, ◌↔◌, refl, true, false, Option, none, some, ◌==◌,
  if◌then◌else◌, get_or-set, length, arith,
}
use rdma_intercept_ldperload.Shm.{success, failure}
use rdma_intercept_ldperload.Tenant.{
  TenantInfo, TenantUsage, TenantShm, TenantHandle, zero_tenant, is_active, max_tenants,
}
use rdma_intercept_ldperload.Tenant.Segment.{TenantReplies, tenant_shm_lock, tenant_shm_unlock}
use rdma_intercept_ldperload.Tenant.Lifecycle.{tenant_at}
use rdma_intercept_ldperload.Tenant.Usage.{
  is_exceeded, check_limit_locked, tenant_check_resource_limit, update_usage_locked, usage_locked,
  tenant_update_resource_usage, tenant_get_resource_usage,
}
use rdma_intercept_ldperload.Tenant.Ledger.Calls.{with_shm-attached}

-- A row of the table of limited resources: what is used, the quota, and the width of the sum.
pub record Meter : Type 0 where
  pub used : ℕ
  pub quota : ℕ
  pub width : ℕ

-- The types 0 to 4; any other is unlimited.
abbrev pub meter : ℕ → TenantInfo → Option Meter
meter zero t =
    some (record { used = t.usage.qp_count; quota = t.quota.max_qp_per_tenant; width = 32 })
meter (suc zero) t =
    some (record { used = t.usage.mr_count; quota = t.quota.max_mr_per_tenant; width = 32 })
meter (suc (suc zero)) t =
    some (record { used = t.usage.memory_used; quota = t.quota.max_memory_per_tenant; width = 64 })
meter (suc (suc (suc zero))) t =
    some (record { used = t.usage.cq_count; quota = t.quota.max_cq_per_tenant; width = 32 })
meter (suc (suc (suc (suc zero)))) t =
    some (record { used = t.usage.pd_count; quota = t.quota.max_pd_per_tenant; width = 32 })
meter (suc (suc (suc (suc (suc n))))) t = none

-- What a resource type asks of a request: the sum does not wrap, and does not pass the quota.
abbrev pub NoWrap : ℕ → Option Meter → Type 0
NoWrap n none = Unit
NoWrap n (some m) = m.used + n < 2 ^ m.width

abbrev pub Fits : ℕ → Option Meter → Type 0
Fits n none = Unit
Fits n (some m) = m.used + n ≤ m.quota

is_exceeded-Fits :
    (k n : ℕ) (t : TenantInfo)
    → NoWrap n (meter k t)
    → (is_exceeded k n t ≡ false) ↔ Fits n (meter k t)
unfolding is_exceeded
is_exceeded-Fits zero n t w = (λ e. ground arith, λ f. ground arith)
is_exceeded-Fits (suc zero) n t w = (λ e. ground arith, λ f. ground arith)
is_exceeded-Fits (suc (suc zero)) n t w = (λ e. ground arith, λ f. ground arith)
is_exceeded-Fits (suc (suc (suc zero))) n t w = (λ e. ground arith, λ f. ground arith)
is_exceeded-Fits (suc (suc (suc (suc zero)))) n t w = (λ e. ground arith, λ f. ground arith)
is_exceeded-Fits (suc (suc (suc (suc (suc k))))) n t w = (λ e. tt, λ f. ground arith)

module _ (r : TenantReplies) (now id : ℕ) (h : TenantHandle) (s : TenantShm)
    (attached : h.g_tenant_shm ≡ some s) (below : id < max_tenants) where
  -- For a tenant in range, and where the sum of usage and request does not wrap, the check lets a
  -- request pass exactly when the tenant is active and the request fits its quota; types other than
  -- 0 to 4 have no quota.
  pub check_resource_limit-Fits :
      (resource_type requested : ℕ)
      → NoWrap requested (meter resource_type (tenant_at s id))
      → ((tenant_check_resource_limit r now id resource_type requested h).0 ≡ false) ↔ (
          (is_active (tenant_at s id).status ≡ true)
          × Fits requested (meter resource_type (tenant_at s id)))
  unfolding tenant_check_resource_limit check_limit_locked tenant_shm_lock
  check_resource_limit-Fits k n w =
      let run = with_shm-attached r now false (check_limit_locked id k n) h s attached in
      let (down, up) = is_exceeded-Fits k n (tenant_at s id) w in
      (λ e. (ground (arith, run), down (ground (arith, run))), λ (a, f). ground (arith, run, up f))

  -- The uint32_t sum wraps: an active tenant that uses `c` queue pairs is let through with a
  -- request for 2^32 - c more, whatever its quota.
  pub check_resource_limit-wraps :
      (c : ℕ)
      → is_active (tenant_at s id).status ≡ true
      → (tenant_at s id).usage.qp_count ≡ c
      → 0 < c
      → c < 2 ^ 32
      → (tenant_check_resource_limit r now id 0 (2 ^ 32 - c) h).0 ≡ false
  unfolding tenant_check_resource_limit check_limit_locked is_exceeded tenant_shm_lock
  check_resource_limit-wraps c live u p l =
      ground
        (arith, with_shm-attached r now false (check_limit_locked id 0 (2 ^ 32 - c)) h s attached)

  -- A usage record that is accepted is what a reader of that tenant gets from then on; a reader of
  -- any other tenant gets what it got before.
  pub update-get_resource_usage :
      (later j : ℕ) (usage : TenantUsage)
      → length s.tenants ≡ max_tenants
      → (tenant_update_resource_usage r now id (some usage) h).0 ≡ success
      → (tenant_get_resource_usage r later j
          (tenant_update_resource_usage r now id (some usage) h).1).0
        ≡ (if j == id then some usage else (tenant_get_resource_usage r later j h).0)
  unfolding tenant_update_resource_usage tenant_get_resource_usage update_usage_locked usage_locked
      tenant_shm_lock tenant_shm_unlock
  update-get_resource_usage later j usage whole ok =
      let t = record (tenant_at s id) { usage = usage; last_active_at = now } in
      let s' = tenant_shm_unlock now (update_usage_locked now id usage (tenant_shm_lock s)).1 in
      ground (
        arith,
        with_shm-attached r now failure (update_usage_locked now id usage) h s attached,
        with_shm-attached r later none (usage_locked j) h s attached,
        with_shm-attached r later none (usage_locked j) (record h { g_tenant_shm = some s' }) s'
            refl,
        get_or-set s.tenants id j t zero_tenant,
      )
