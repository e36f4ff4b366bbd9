-- ===== src/Tenant/Ledger.antt =====
-- The registry of src/shm/shared_memory_tenant.c seen as a map from pids to tenants.
pub mod Owners
pub mod Calls
pub mod Drift
use rdma_intercept_ldperload.Base.{
  ℕ, ◌≡◌, Option, none, some, List, [], ◌∷◌, ◌==◌, if◌then◌else◌, find_index?, get_or, refl, arith,
}
use rdma_intercept_ldperload.Shm.{Status, success, failure}
use rdma_intercept_ldperload.Tenant.{PidMapping, TenantShm, free_mapping}
use rdma_intercept_ldperload.Tenant.Binding.{process_tenant_locked}
use rdma_intercept_ldperload.Tenant.Registry.{has_pid}

-- The tenant in the first entry of the pid.
unfoldable pub owner_in : List PidMapping → ℕ → Option ℕ
owner_in [] q = none
owner_in (m ∷ ms) q = if m.pid == q then some m.tenant_id else owner_in ms q

abbrev pub owner : TenantShm → ℕ → Option ℕ
owner s q = owner_in s.pid_mappings q

-- What `tenant_get_process_tenant` reports of an owner.
abbrev pub report : Option ℕ → Status × ℕ
report none = (failure, 0)
report (some id) = (success, id)

owner_in-find_index? :
    (ms : List PidMapping) (q : ℕ)
    → owner_in ms q ≡ elim (find_index? (has_pid q) ms) [
      | none ↦ none
      | some i ↦ some (get_or ms i free_mapping).tenant_id
    ]
unfolding owner_in
owner_in-find_index? [] q = refl
owner_in-find_index? (m ∷ ms) q = ground (arith, owner_in-find_index? ms q)

pub process_tenant-report :
    (q : ℕ) (s : TenantShm) → process_tenant_locked q s ≡ (report (owner s q), s)
unfolding process_tenant_locked
process_tenant-report q s = ground (arith, owner_in-find_index? s.pid_mappings q)
