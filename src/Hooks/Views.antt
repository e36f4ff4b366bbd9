-- ===== src/Hooks/Views.antt =====
-- What the tenant operations do to a process of src/rdma_hooks_tenant.c that is bound to a tenant.
use rdma_intercept_ldperload.Base.{
  ℕ, ◌<◌, ◌≡◌, ◌≢◌, ◌∙◌, refl, true, not, none, some, ◌==◌, leb, if◌then◌else◌, get_or, get_or-set,
  set, length, length-set, arith,
}
use rdma_intercept_ldperload.Shm.{failure}
use rdma_intercept_ldperload.Tenant.{TenantShm, zero_tenant, is_active, max_tenants}
use rdma_intercept_ldperload.Tenant.Segment.{tenant_shm_lock, tenant_shm_unlock}
use rdma_intercept_ldperload.Tenant.Lifecycle.{
  tenant_at, set_tenant, get_info_locked, tenant_get_info,
}
use rdma_intercept_ldperload.Tenant.Binding.{process_tenant_locked, tenant_get_process_tenant}
use rdma_intercept_ldperload.Tenant.Usage.{
  update_usage_locked, usage_locked, tenant_get_resource_usage, tenant_update_resource_usage,
}
use rdma_intercept_ldperload.Tenant.Ledger.{owner, process_tenant-report}
use rdma_intercept_ldperload.Tenant.Ledger.Calls.{with_shm-attached}
use rdma_intercept_ldperload.Hooks.{Process, Env}
use rdma_intercept_ldperload.Hooks.Tenancy.{
  get_current_tenant_id, count_usage, update_tenant_resource_count, charge,
}
use rdma_intercept_ldperload.Hooks.Checks.{
  check_tenant_qp_limit, mr_fits, check_tenant_mr_limit_inline,
}

-- The process is attached to `s` and belongs to the tenant `id` there, which is active.
pub record IsBound (p : Process) (id : ℕ) (s : TenantShm) : Type 0 where
  pub ready : p.tenant_initialized ≡ true
  pub attached : p.tenant.g_tenant_shm ≡ some s
  pub whole : length s.tenants ≡ max_tenants
  pub nonzero : id ≢ 0
  pub below : id < max_tenants
  pub live : is_active (tenant_at s id).status ≡ true
  pub mine : owner s p.pid ≡ some id

-- The segment after an operation that only reads it.
abbrev pub stamped : ℕ → TenantShm → TenantShm
stamped now s = tenant_shm_unlock now (tenant_shm_lock s)

abbrev pub at_segment : Process → TenantShm → Process
at_segment p s = record p { tenant = record (p.tenant) { g_tenant_shm = some s } }

module _ (e : Env) (p : Process) (id : ℕ) (s : TenantShm) (b : IsBound p id s) where
  pub stamped-IsBound : IsBound (at_segment p (stamped e.now s)) id (stamped e.now s)
  unfolding tenant_shm_lock tenant_shm_unlock
  stamped-IsBound = record {
    ready = b.ready;
    attached = refl;
    whole = b.whole;
    nonzero = b.nonzero;
    below = b.below;
    live = b.live;
    mine = b.mine;
  }

  pub get_current_tenant_id-IsBound :
      get_current_tenant_id e p ≡ (id, at_segment p (stamped e.now s))
  unfolding get_current_tenant_id tenant_get_process_tenant tenant_shm_lock
  get_current_tenant_id-IsBound = ground (
    arith,
    b.ready,
    with_shm-attached e.replies e.now (failure, 0) (process_tenant_locked p.pid) p.tenant s
        b.attached,
    process_tenant-report p.pid (tenant_shm_lock s),
    b.mine,
  )

  pub check_tenant_qp_limit-IsBound : check_tenant_qp_limit e id p ≡ (
    not (leb (tenant_at s id).quota.max_qp_per_tenant (tenant_at s id).usage.qp_count),
    at_segment p (stamped e.now s),
  )
  unfolding check_tenant_qp_limit tenant_get_info get_info_locked tenant_shm_lock
  check_tenant_qp_limit-IsBound = ground (
    arith,
    b.ready,
    b.nonzero,
    b.below,
    b.live,
    with_shm-attached e.replies e.now (failure, none) (get_info_locked id) p.tenant s b.attached,
  )

  pub check_tenant_mr_limit-IsBound :
      (length : ℕ)
      → check_tenant_mr_limit_inline e id length p
        ≡ (mr_fits length (tenant_at s id), at_segment p (stamped e.now s))
  unfolding check_tenant_mr_limit_inline tenant_get_info get_info_locked tenant_shm_lock
  check_tenant_mr_limit-IsBound length = ground (
    arith,
    b.ready,
    b.nonzero,
    b.below,
    b.live,
    with_shm-attached e.replies e.now (failure, none) (get_info_locked id) p.tenant s b.attached,
  )

-- The segment after one counted event of the tenant.
abbrev pub charged : Env → ℕ → ℕ → ℕ → TenantShm → TenantShm
charged e id k delta s = tenant_shm_unlock e.now (
    set_tenant (tenant_shm_lock (stamped e.now s)) id (record (tenant_at s id) {
      usage = count_usage k delta (tenant_at s id).usage;
      last_active_at = e.now;
    }))

module _ (e : Env) (p : Process) (id : ℕ) (s : TenantShm) (b : IsBound p id s) (k delta : ℕ) where
  pub update_count-IsBound :
      update_tenant_resource_count e id k delta p ≡ at_segment p (charged e id k delta s)
  unfolding update_tenant_resource_count tenant_get_resource_usage tenant_update_resource_usage
      usage_locked update_usage_locked tenant_shm_lock tenant_shm_unlock
  update_count-IsBound =
      let u = count_usage k delta (tenant_at s id).usage in
      let h = record (p.tenant) { g_tenant_shm = some (stamped e.now s) } in
      ground (
        arith,
        b.ready,
        b.nonzero,
        b.below,
        b.live,
        with_shm-attached e.replies e.now none (usage_locked id) p.tenant s b.attached,
        with_shm-attached e.replies e.now failure (update_usage_locked e.now id u) h
            (stamped e.now s) refl,
      )

  pub charged-IsBound : IsBound (at_segment p (charged e id k delta s)) id (charged e id k delta s)
  unfolding tenant_shm_lock tenant_shm_unlock
  charged-IsBound = record {
    ready = b.ready;
    attached = refl;
    whole = length-set s.tenants id _ ∙ b.whole;
    nonzero = b.nonzero;
    below = b.below;
    live = rw (tenant_at-charged) b.live;
    mine = b.mine;
  }
    where
      tenant_at-charged :
          get_or
            (set s.tenants id (record (tenant_at s id) {
              usage = count_usage k delta (tenant_at s id).usage;
              last_active_at = e.now;
            }))
            id
            zero_tenant
          ≡ record (tenant_at s id) {
            usage = count_usage k delta (tenant_at s id).usage;
            last_active_at = e.now;
          }
      tenant_at-charged = ground (
        arith,
        get_or-set s.tenants id id
            (record (tenant_at s id) {
              usage = count_usage k delta (tenant_at s id).usage;
              last_active_at = e.now;
            })
            zero_tenant,
        b.below,
        b.whole,
      )

  pub charged-usage :
      (j : ℕ)
      → (tenant_at (charged e id k delta s) j).usage
        ≡ (if j == id then count_usage k delta (tenant_at s id).usage else (tenant_at s j).usage)
  unfolding tenant_shm_lock tenant_shm_unlock
  charged-usage j =
      let t = record (tenant_at s id) {
        usage = count_usage k delta (tenant_at s id).usage;
        last_active_at = e.now;
      } in
      ground (arith, get_or-set s.tenants id j t zero_tenant, b.below, b.whole)

  pub charged-quota : (j : ℕ) → (tenant_at (charged e id k delta s) j).quota ≡ (tenant_at s j).quota
  unfolding tenant_shm_lock tenant_shm_unlock
  charged-quota j =
      let t = record (tenant_at s id) {
        usage = count_usage k delta (tenant_at s id).usage;
        last_active_at = e.now;
      } in
      ground (arith, get_or-set s.tenants id j t zero_tenant, b.below, b.whole)

-- The segment after the tenant is looked up and then charged.
abbrev pub recharged : Env → ℕ → ℕ → ℕ → TenantShm → TenantShm
recharged e id k delta s = charged e id k delta (stamped e.now s)

pub charge-IsBound :
    (e : Env) (p : Process) (id : ℕ) (s : TenantShm) (b : IsBound p id s) (k delta : ℕ)
    → charge e k delta p ≡ at_segment p (recharged e id k delta s)
unfolding charge
charge-IsBound e p id s b k delta = rw (get_current_tenant_id-IsBound e p id s b) (
    update_count-IsBound e (at_segment p (stamped e.now s)) id (stamped e.now s)
      (stamped-IsBound e p id s b) k delta)
