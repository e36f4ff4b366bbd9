-- ===== src/Tenant/Registry.antt =====
-- The invariant that the operations of src/shm/shared_memory_tenant.c keep on the segment.
pub mod Sweep
pub mod Create
pub mod Bind
pub mod History
use rdma_intercept_ldperload.Base.{
  ℕ, ◌≡◌, ◌≢◌, ◌≤◌, Bool, true, false, not, Option, some, ◌==◌, length, count,
}
use rdma_intercept_ldperload.Shm.{max_processes}
use rdma_intercept_ldperload.Tenant.{
  TenantInfo, PidMapping, TenantShm, TenantHandle, inactive, max_tenants, is_inactive,
}
use rdma_intercept_ldperload.Tenant.Lifecycle.{tenant_at}
use rdma_intercept_ldperload.Tenant.Binding.{mapping_at}

abbrev pub is_registered : TenantInfo → Bool
is_registered t = not (is_inactive t.status)

abbrev pub is_bound : PidMapping → Bool
is_bound m = not (m.pid == 0)

abbrev pub has_pid : ℕ → PidMapping → Bool
has_pid q m = m.pid == q

-- Both counters are exact, a free entry names no tenant, a bound entry names one that exists, no
-- pid has two entries, and tenant 0 does not exist.
pub record IsRegistry (s : TenantShm) : Type 0 where
  pub tenants_whole : length s.tenants ≡ max_tenants
  pub mappings_whole : length s.pid_mappings ≡ max_processes
  pub zero_vacant : (tenant_at s 0).status ≡ inactive
  pub active_exact : s.active_tenant_count ≡ count is_registered s.tenants
  pub total_exact : s.total_process_count ≡ count is_bound s.pid_mappings
  pub free_clear : (k : ℕ) → (mapping_at s k).pid ≡ 0 → (mapping_at s k).tenant_id ≡ 0
  pub owned :
      (k : ℕ)
      → (mapping_at s k).pid ≢ 0
      → is_inactive (tenant_at s (mapping_at s k).tenant_id).status ≡ false
  pub unique : (q : ℕ) → q ≢ 0 → count (has_pid q) s.pid_mappings ≤ 1

abbrev pub HasRegistry : TenantHandle → Type 0
HasRegistry h = (s : TenantShm) × (h.g_tenant_shm ≡ some s) × IsRegistry s
