-- ===== src/Tenant/Registry/Create.antt =====
-- tenant_create, tenant_delete, tenant_set_status, tenant_update_quota and
-- tenant_update_resource_usage (src/shm/shared_memory_tenant.c) keep the registry.
use rdma_intercept_ldperload.Base.{
  ℕ, ◌<◌, ◌≡◌, ◌≢◌, refl, ◌∙◌, true, false, List, Option, arith, ◌==◌, if◌then◌else◌, get_or, set,
  get_or-set, get_or-out, length-set, count-set, count-le-length, Bool-cases, inl, inr,
}
use rdma_intercept_ldperload.Tenant.{
  TenantInfo, TenantStatus, inactive, TenantQuota, TenantUsage, TenantShm, max_tenants, is_inactive,
  is_active, zero_tenant, free_mapping,
}
use rdma_intercept_ldperload.Tenant.Lifecycle.{
  tenant_at, set_tenant, new_tenant, create_locked, delete_locked, set_status_locked,
  update_quota_locked,
}
use rdma_intercept_ldperload.Tenant.Usage.{update_usage_locked}
use rdma_intercept_ldperload.Tenant.Registry.{is_registered, is_bound, IsRegistry}
use rdma_intercept_ldperload.Tenant.Registry.Sweep.{
  clear_mappings-get_or, length-clear_mappings, clear_mappings-total, clear_mappings-bound,
  clear_mappings_unique,
}

pub inactive_of : (st : TenantStatus) → is_inactive st ≡ true → st ≡ inactive
inactive_of st h = ground arith

-- A tenant that exists has an index in the array.
pub registered-lt :
    (s : TenantShm) (id : ℕ)
    → IsRegistry s
    → is_inactive (tenant_at s id).status ≡ false
    → id < max_tenants
registered-lt s id v h = ground (arith, get_or-out s.tenants id zero_tenant, v.tenants_whole)

-- A write to a tenant's record that leaves open whether the tenant exists.
pub set_tenant-IsRegistry :
    (s : TenantShm) (id : ℕ) (t : TenantInfo)
    → id < max_tenants
    → is_inactive t.status ≡ is_inactive (tenant_at s id).status
    → IsRegistry s
    → IsRegistry (set_tenant s id t)
set_tenant-IsRegistry s id t h e v = record {
  tenants_whole = length-set s.tenants id t ∙ v.tenants_whole;
  mappings_whole = v.mappings_whole;
  zero_vacant = ground (arith, at 0, v.zero_vacant, inactive_of t.status);
  active_exact =
      ground (
        arith,
        count-set is_registered s.tenants id t zero_tenant,
        v.active_exact,
        v.tenants_whole,
      );
  total_exact = v.total_exact;
  free_clear = v.free_clear;
  owned = λ k b. ground (arith, at (get_or s.pid_mappings k free_mapping).tenant_id, v.owned k b);
  unique = v.unique;
}
  where
    at : (j : ℕ) → tenant_at (set_tenant s id t) j ≡ (if j == id then t else tenant_at s j)
    at j = get_or-set s.tenants id j t zero_tenant (omega (arith, v.tenants_whole))

module _ (s : TenantShm) (id : ℕ) (v : IsRegistry s) where
  pub set_status_locked-IsRegistry :
      (now : ℕ) (status : TenantStatus)
      → status ≢ inactive
      → IsRegistry (set_status_locked now id status s).1
  unfolding set_status_locked
  set_status_locked-IsRegistry now status live =
      elim (Bool-cases (is_inactive (tenant_at s id).status)) [
        | inl gone ↦ ground (arith, v)
        | inr here ↦
            let kept =
              set_tenant-IsRegistry s id
                (record (tenant_at s id) { status = status; last_active_at = now })
                (registered-lt s id v here) (ground arith) v in
            rw (here) kept
      ]

  pub update_quota_locked-IsRegistry :
      (now : ℕ) (quota : TenantQuota) → IsRegistry (update_quota_locked now id quota s).1
  unfolding update_quota_locked
  update_quota_locked-IsRegistry now quota =
      elim (Bool-cases (is_inactive (tenant_at s id).status)) [
        | inl gone ↦ rw gone v
        | inr here ↦ rw here (
            set_tenant-IsRegistry s id
              (record (tenant_at s id) { quota = quota; last_active_at = now })
              (registered-lt s id v here) refl v)
      ]

  pub update_usage_locked-IsRegistry :
      (now : ℕ) (usage : TenantUsage) → IsRegistry (update_usage_locked now id usage s).1
  unfolding update_usage_locked
  update_usage_locked-IsRegistry now usage = elim (Bool-cases (is_active (tenant_at s id).status)) [
    | inr gone ↦ rw gone v
    | inl here ↦ rw here (
        set_tenant-IsRegistry s id (record (tenant_at s id) { usage = usage; last_active_at = now })
          (registered-lt s id v (ground arith)) refl v)
  ]

  module _ (nonzero : id ≢ 0) (below : id < max_tenants) where
    tenant_at-set :
        (t : TenantInfo) (j : ℕ)
        → get_or (set s.tenants id t) j zero_tenant ≡ (if j == id then t else tenant_at s j)
    tenant_at-set t j = get_or-set s.tenants id j t zero_tenant (omega (arith, v.tenants_whole))

    pub create_locked-IsRegistry :
        (now : ℕ) (name : Option (List ℕ)) (quota : Option TenantQuota)
        → IsRegistry (create_locked now id name quota s).1
    unfolding create_locked
    create_locked-IsRegistry now name quota =
        elim (Bool-cases (is_inactive (tenant_at s id).status)) [
          | inr taken ↦ rw taken v
          | inl free ↦
              let t = new_tenant now id name quota in
              rw free (record {
                tenants_whole = length-set s.tenants id t ∙ v.tenants_whole;
                mappings_whole = v.mappings_whole;
                zero_vacant = ground (arith, tenant_at-set t 0, v.zero_vacant);
                active_exact = ground (
                  arith,
                  count-set is_registered s.tenants id t zero_tenant,
                  count-le-length is_registered s.tenants,
                  v.active_exact,
                  v.tenants_whole,
                );
                total_exact = v.total_exact;
                free_clear = v.free_clear;
                owned = λ k b. ground (
                  arith,
                  tenant_at-set t (get_or s.pid_mappings k free_mapping).tenant_id,
                  v.owned k b,
                );
                unique = v.unique;
              })
        ]

    pub delete_locked-IsRegistry : IsRegistry (delete_locked id s).1
    unfolding delete_locked
    delete_locked-IsRegistry = elim (Bool-cases (is_inactive (tenant_at s id).status)) [
      | inl gone ↦ rw gone v
      | inr here ↦
          let t = record (tenant_at s id) { status = inactive; process_count = 0 } in
          let total = s.total_process_count in
          let ms = s.pid_mappings in
          rw here (record {
            tenants_whole = length-set s.tenants id t ∙ v.tenants_whole;
            mappings_whole = length-clear_mappings id ms total ∙ v.mappings_whole;
            zero_vacant = ground (arith, tenant_at-set t 0, v.zero_vacant);
            active_exact = ground (
              arith,
              count-set is_registered s.tenants id t zero_tenant,
              count-le-length is_registered s.tenants,
              v.active_exact,
              v.tenants_whole,
            );
            total_exact = ground (
              arith,
              clear_mappings-total id ms total,
              clear_mappings-bound id ms total nonzero v.free_clear,
              count-le-length is_bound ms,
              v.total_exact,
              v.mappings_whole,
            );
            free_clear =
                λ k e. ground (arith, clear_mappings-get_or id ms total k nonzero, v.free_clear k);
            owned = λ k b. ground (
              arith,
              clear_mappings-get_or id ms total k nonzero,
              tenant_at-set t (get_or ms k free_mapping).tenant_id,
              v.owned k,
            );
            unique = λ q h. omega (arith, clear_mappings_unique id q ms total h, v.unique q h);
          })
    ]
