-- ===== src/Tenant/Info.antt =====
-- Creating, reading and listing tenants in src/shm/shared_memory_tenant.c.
use rdma_intercept_ldperload.Base.{
  ℕ, zero, suc, ◌<◌, ◌≡◌, ◌↔◌, refl, true, Option, none, some, List, [], ◌∷◌, ◌==◌, if◌then◌else◌,
  get_or-set, take, length, arith, int_pos,
}
use rdma_intercept_ldperload.Shm.{success, failure}
use rdma_intercept_ldperload.Tenant.{
  TenantInfo, TenantQuota, TenantShm, TenantHandle, zero_tenant, is_active, is_inactive,
  max_tenants,
}
use rdma_intercept_ldperload.Tenant.Segment.{TenantReplies, tenant_shm_lock, tenant_shm_unlock}
use rdma_intercept_ldperload.Tenant.Lifecycle.{
  tenant_at, new_tenant, create_locked, get_info_locked, tenant_create, tenant_get_info,
}
use rdma_intercept_ldperload.Tenant.Usage.{collect_active, tenant_get_active_list}
use rdma_intercept_ldperload.Tenant.Ledger.Calls.{with_shm-attached}

module _ (r : TenantReplies) (now id : ℕ) (name : Option (List ℕ)) (quota : Option TenantQuota)
    (h : TenantHandle) (s : TenantShm) (attached : h.g_tenant_shm ≡ some s)
    (whole : length s.tenants ≡ max_tenants) where
  -- A create is accepted exactly for an id from 1 to 63 whose tenant is inactive.
  pub create-accepted :
      ((tenant_create r now id name quota h).0 ≡ success)
      ↔ ((0 < id) × (id < max_tenants) × (is_inactive (tenant_at s id).status ≡ true))
  unfolding tenant_create create_locked tenant_shm_lock
  create-accepted =
      let run = with_shm-attached r now failure (create_locked now id name quota) h s attached in
      (λ e. ground (arith, run), λ c. ground (arith, run))

  -- After a create that is accepted, the tenant's information is the record that the code fills in
  -- (active, with the quota given or the default one, and no usage); that of any other tenant is
  -- what it was.
  pub create-get_info :
      (later j : ℕ)
      → (tenant_create r now id name quota h).0 ≡ success
      → (tenant_get_info r later j (tenant_create r now id name quota h).1).0 ≡ (
          if j == id
          then (success, some (new_tenant now id name quota))
          else (tenant_get_info r later j h).0)
  unfolding tenant_create create_locked tenant_get_info get_info_locked new_tenant tenant_shm_lock
      tenant_shm_unlock
  create-get_info later j ok =
      let t = new_tenant now id name quota in
      let s' = tenant_shm_unlock now (create_locked now id name quota (tenant_shm_lock s)).1 in
      ground (
        arith,
        with_shm-attached r now failure (create_locked now id name quota) h s attached,
        with_shm-attached r later (failure, none) (get_info_locked j) h s attached,
        with_shm-attached r later (failure, none) (get_info_locked j)
            (record h { g_tenant_shm = some s' }) s' refl,
        get_or-set s.tenants id j t zero_tenant,
      )

-- The active tenants, in the order of their ids.
abbrev pub actives : List TenantInfo → List TenantInfo
actives [] = []
actives (t ∷ ts) = if is_active t.status then t ∷ actives ts else actives ts

collect_active-take :
    (room : ℕ) (ts : List TenantInfo) → collect_active room ts ≡ take room (actives ts)
unfolding collect_active
collect_active-take zero ts = refl
collect_active-take (suc room) [] = refl
collect_active-take (suc room) (t ∷ ts) =
    ground (arith, collect_active-take room ts, collect_active-take (suc room) ts)

-- With a positive `max_count` the list is the first `max_count` active tenants by id, and is
-- refused otherwise.
pub get_active_list-take :
    (r : TenantReplies) (now max_count : ℕ) (h : TenantHandle) (s : TenantShm)
    → h.g_tenant_shm ≡ some s
    → (tenant_get_active_list r now max_count h).0
      ≡ (if int_pos max_count then some (take max_count (actives s.tenants)) else none)
unfolding tenant_get_active_list tenant_shm_lock
get_active_list-take r now n h s e = ground (
  arith,
  with_shm-attached r now none (λ (s : TenantShm). (some (collect_active n s.tenants), s)) h s e,
  collect_active-take n s.tenants,
)
