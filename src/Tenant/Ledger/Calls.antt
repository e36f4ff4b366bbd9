-- ===== src/Tenant/Ledger/Calls.antt =====
-- What the calls of src/shm/shared_memory_tenant.c do to the owners, through the interface.
use rdma_intercept_ldperload.Base.{
  ℕ, ◌≤◌, ◌≡◌, ◌≢◌, ◌↔◌, ◌⊎◌, refl, true, ◌||◌, none, some, ◌==◌, ==_iff, leb, if◌then◌else◌,
  find_index?, find_index?-lt, find_index?-get_or, find_index?-count, count-find_index?, get_or,
  get_or-out, count, arith, Bool-cases, Option-cases, inl, inr,
}
use rdma_intercept_ldperload.Shm.{success, failure}
use rdma_intercept_ldperload.Tenant.{
  TenantShm, TenantHandle, free_mapping, zero_tenant, is_active, max_tenants,
}
use rdma_intercept_ldperload.Tenant.Segment.{
  TenantReplies, with_shm, tenant_shm_lock, tenant_shm_unlock,
}
use rdma_intercept_ldperload.Tenant.Lifecycle.{tenant_at, delete_locked, tenant_delete}
use rdma_intercept_ldperload.Tenant.Binding.{
  rebind, bind_new, bind_locked, unbind_locked, process_tenant_locked, tenant_bind_process,
  tenant_unbind_process, tenant_get_process_tenant,
}
use rdma_intercept_ldperload.Tenant.Registry.{has_pid, IsRegistry}
use rdma_intercept_ldperload.Tenant.Registry.Bind.{is_free, bind_locked-eq-bind_by}
use rdma_intercept_ldperload.Tenant.Ledger.{owner, report, process_tenant-report}
use rdma_intercept_ldperload.Tenant.Ledger.Owners.{
  owner_in-set_found, owner_in-set_new, owner_in-set_gone, without, owner_in-clear,
}

module _ (s : TenantShm) (q : ℕ) (nonzero : q ≢ 0) where
  bind_locked-owner :
      (now pid id : ℕ)
      → (bind_locked now pid id s).0 ≡ success
      → owner (bind_locked now pid id s).1 q ≡ (if q == pid then some id else owner s q)
  unfolding rebind bind_new
  bind_locked-owner now pid id ok = elim (Option-cases (find_index? (has_pid pid) s.pid_mappings)) [
    | inr (idx, e) ↦ ground (
      arith,
      bind_locked-eq-bind_by now pid id s,
      owner_in-set_found pid q (record { pid = pid; tenant_id = id; mapped_at = now })
          s.pid_mappings idx e refl,
    )
    | inl absent ↦ elim (Option-cases (find_index? is_free s.pid_mappings)) [
      | inl full ↦ ground (arith, bind_locked-eq-bind_by now pid id s)
      | inr (idx, e) ↦ ground (
        arith,
        bind_locked-eq-bind_by now pid id s,
        owner_in-set_new pid q (record { pid = pid; tenant_id = id; mapped_at = now })
            s.pid_mappings idx absent (find_index?-lt is_free s.pid_mappings idx e)
            ((==_iff _ _).0 (find_index?-get_or is_free s.pid_mappings idx free_mapping e)) refl
            nonzero,
      )
    ]
  ]

  unbind_locked-owner :
      (pid : ℕ)
      → count (has_pid pid) s.pid_mappings ≤ 1
      → (unbind_locked pid s).0 ≡ success
      → owner (unbind_locked pid s).1 q ≡ (if q == pid then none else owner s q)
  unfolding unbind_locked
  unbind_locked-owner pid u ok = elim (Option-cases (find_index? (has_pid pid) s.pid_mappings)) [
    | inl absent ↦ ground arith
    | inr (idx, e) ↦ ground (
      arith,
      owner_in-set_gone pid q
          (record (get_or s.pid_mappings idx free_mapping) { pid = 0; tenant_id = 0 })
          s.pid_mappings idx e refl u nonzero,
    )
  ]

  delete_locked-owner :
      (id : ℕ)
      → count (has_pid q) s.pid_mappings ≤ 1
      → (delete_locked id s).0 ≡ success
      → owner (delete_locked id s).1 q ≡ without id (owner s q)
  unfolding delete_locked
  delete_locked-owner id u ok =
      ground (arith, owner_in-clear id q s.pid_mappings s.total_process_count nonzero u)

-- An attached handle: the operation works on the segment that it has.
pub with_shm-attached :
    {A : Type 0} (r : TenantReplies) (now : ℕ) (fail : A) (work : TenantShm → A × TenantShm)
    (h : TenantHandle) (s : TenantShm)
    → h.g_tenant_shm ≡ some s
    → with_shm r now fail work h ≡ (
      (work (tenant_shm_lock s)).0,
      record h { g_tenant_shm = some (tenant_shm_unlock now (work (tenant_shm_lock s)).1) },
    )
unfolding with_shm
with_shm-attached r now fail work h s e = ground arith

get_process_tenant-report :
    (r : TenantReplies) (now q : ℕ) (h : TenantHandle) (s : TenantShm)
    → h.g_tenant_shm ≡ some s
    → (tenant_get_process_tenant r now q h).0 ≡ report (owner s q)
unfolding tenant_get_process_tenant tenant_shm_lock
get_process_tenant-report r now q h s e = ground (
  arith,
  with_shm-attached r now (failure, 0) (process_tenant_locked q) h s e,
  process_tenant-report q (tenant_shm_lock s),
)

module _ (r : TenantReplies) (now q : ℕ) (h : TenantHandle) (s : TenantShm)
    (attached : h.g_tenant_shm ≡ some s) (nonzero : q ≢ 0) where
  -- After a bind that is accepted, the process belongs to that tenant and every other process to
  -- the tenant it had; asked of any attached handle, for positive and negative pids alike.
  pub bind_process-get_process_tenant :
      (pid id later : ℕ)
      → (tenant_bind_process r now pid id h).0 ≡ success
      → (tenant_get_process_tenant r later q (tenant_bind_process r now pid id h).1).0
        ≡ (if q == pid then (success, id) else (tenant_get_process_tenant r later q h).0)
  unfolding tenant_bind_process tenant_shm_lock tenant_shm_unlock
  bind_process-get_process_tenant pid id later ok = elim (Bool-cases (leb max_tenants id)) [
    | inl out ↦ ground arith
    | inr fits ↦
        let t = tenant_shm_unlock now (bind_locked now pid id (tenant_shm_lock s)).1 in
        ground (
          arith,
          with_shm-attached r now failure (bind_locked now pid id) h s attached,
          bind_locked-owner (tenant_shm_lock s) q nonzero now pid id,
          get_process_tenant-report r later q h s attached,
          get_process_tenant-report r later q (record h { g_tenant_shm = some t }) t refl,
        )
  ]

  -- After an unbind that is accepted, the process has no tenant and every other process keeps its
  -- own; the registry is sound, and neither pid is 0.
  pub unbind_process-get_process_tenant :
      (pid later : ℕ)
      → IsRegistry s
      → pid ≢ 0
      → (tenant_unbind_process r now pid h).0 ≡ success
      → (tenant_get_process_tenant r later q (tenant_unbind_process r now pid h).1).0
        ≡ (if q == pid then (failure, 0) else (tenant_get_process_tenant r later q h).0)
  unfolding tenant_unbind_process tenant_shm_lock tenant_shm_unlock
  unbind_process-get_process_tenant pid later v n ok =
      let t = tenant_shm_unlock now (unbind_locked pid (tenant_shm_lock s)).1 in
      ground (
        arith,
        with_shm-attached r now failure (unbind_locked pid) h s attached,
        unbind_locked-owner (tenant_shm_lock s) q nonzero pid (v.unique pid n),
        get_process_tenant-report r later q h s attached,
        get_process_tenant-report r later q (record h { g_tenant_shm = some t }) t refl,
      )

  -- After a delete that is accepted, no process belongs to the tenant, and every process of another
  -- tenant still does; the registry is sound, and the process asked for is not pid 0.
  pub delete-get_process_tenant :
      (id later : ℕ)
      → IsRegistry s
      → (tenant_delete r now id h).0 ≡ success
      → (tenant_get_process_tenant r later q (tenant_delete r now id h).1).0
        ≡ report (without id (owner s q))
  unfolding tenant_delete tenant_shm_lock tenant_shm_unlock
  delete-get_process_tenant id later v ok = elim (Bool-cases (id == 0 || leb max_tenants id)) [
    | inl out ↦ ground arith
    | inr fits ↦
        let t = tenant_shm_unlock now (delete_locked id (tenant_shm_lock s)).1 in
        ground (
          arith,
          with_shm-attached r now failure (delete_locked id) h s attached,
          delete_locked-owner (tenant_shm_lock s) q nonzero id (v.unique q nonzero),
          get_process_tenant-report r later q (record h { g_tenant_shm = some t }) t refl,
        )
  ]

abbrev Accepts : ℕ → ℕ → TenantShm → Type 0
Accepts pid id s =
    (is_active (tenant_at s id).status ≡ true)
    × ((count (has_pid pid) s.pid_mappings ≢ 0) ⊎ (count is_free s.pid_mappings ≢ 0))

bind_locked-success :
    (now pid id : ℕ) (s : TenantShm) → (bind_locked now pid id s).0 ≡ success → Accepts pid id s
bind_locked-success now pid id s ok = ground (
  arith,
  bind_locked-eq-bind_by now pid id s,
  count-find_index? (has_pid pid) s.pid_mappings,
  count-find_index? is_free s.pid_mappings,
)

bind_locked-failure :
    (now pid id : ℕ) (s : TenantShm)
    → (bind_locked now pid id s).0 ≡ failure
    → (¬ Accepts pid id s) × ((bind_locked now pid id s).1 ≡ s)
bind_locked-failure now pid id s bad = (
  λ a. ground (
    arith,
    bind_locked-eq-bind_by now pid id s,
    find_index?-count (has_pid pid) s.pid_mappings,
    find_index?-count is_free s.pid_mappings,
  ),
  ground (arith, bind_locked-eq-bind_by now pid id s),
)

-- A bind is accepted exactly when the tenant is active and the process has an entry or an entry is
-- free.
pub bind_process-accepted :
    (r : TenantReplies) (now pid id : ℕ) (h : TenantHandle) (s : TenantShm)
    → h.g_tenant_shm ≡ some s
    → IsRegistry s
    → ((tenant_bind_process r now pid id h).0 ≡ success) ↔ (
        (is_active (tenant_at s id).status ≡ true)
        × ((count (has_pid pid) s.pid_mappings ≢ 0) ⊎ (count is_free s.pid_mappings ≢ 0)))
unfolding tenant_bind_process tenant_shm_lock tenant_shm_unlock
bind_process-accepted r now pid id h s e v = elim (Bool-cases (leb max_tenants id)) [
  | inl out ↦
      let nobody = get_or-out s.tenants id zero_tenant in
      (λ ok. ground arith, λ a. ground (arith, nobody, v.tenants_whole))
  | inr fits ↦
      let s' = tenant_shm_lock s in
      let run = with_shm-attached r now failure (bind_locked now pid id) h s e in
      (
        λ ok. bind_locked-success now pid id s' (ground (arith, run)),
        λ a. ground (arith, run, bind_locked-failure now pid id s'),
      )
]

-- A bind on an attached segment that is refused moves no mapping, no tenant and no count.
pub bind_process-refused :
    (r : TenantReplies) (now pid id : ℕ) (h : TenantHandle) (s t : TenantShm)
    → h.g_tenant_shm ≡ some s
    → (tenant_bind_process r now pid id h).0 ≡ failure
    → (tenant_bind_process r now pid id h).1.g_tenant_shm ≡ some t
    → (t.pid_mappings ≡ s.pid_mappings)
      × (t.tenants ≡ s.tenants)
      × (t.total_process_count ≡ s.total_process_count)
      × (t.active_tenant_count ≡ s.active_tenant_count)
unfolding tenant_bind_process tenant_shm_lock tenant_shm_unlock
bind_process-refused r now pid id h s t e bad i = elim (Bool-cases (leb max_tenants id)) [
  | inl out ↦ ground arith
  | inr fits ↦
      let s' = tenant_shm_lock s in
      let run = with_shm-attached r now failure (bind_locked now pid id) h s e in
      ground (arith, run, bind_locked-failure now pid id s')
]
