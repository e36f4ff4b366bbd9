-- ===== src/Tenant/Ledger/Drift.antt =====
-- Where the counters of src/shm/shared_memory_tenant.c part from the tables that they count.
use rdma_intercept_ldperload.Base.{
  ℕ, ◌+◌, ◌<◌, ◌≡◌, ◌≢◌, refl, Bool, true, false, ◌&&◌, none, some, ◌==◌, ==_iff, if◌then◌else◌,
  find_index?, find_index?-lt, find_index?-get_or, get_or, get_or-set, set, count, count-set, arith,
}
use rdma_intercept_ldperload.Shm.{success, failure}
use rdma_intercept_ldperload.Tenant.{
  TenantInfo, PidMapping, TenantShm, TenantHandle, inactive, free_mapping, zero_tenant, is_active,
  is_inactive, max_tenants,
}
use rdma_intercept_ldperload.Tenant.Segment.{
  TenantReplies, with_shm, tenant_shm_lock, tenant_shm_unlock,
}
use rdma_intercept_ldperload.Tenant.Lifecycle.{
  tenant_at, set_tenant, set_status_locked, tenant_set_status, delete_locked, tenant_delete,
}
use rdma_intercept_ldperload.Tenant.Binding.{rebind, bind_locked, tenant_bind_process, mapping_at}
use rdma_intercept_ldperload.Tenant.Registry.{is_registered, is_bound, has_pid, IsRegistry}
use rdma_intercept_ldperload.Tenant.Registry.Create.{registered-lt}
use rdma_intercept_ldperload.Tenant.Registry.Bind.{bind_locked-eq-bind_by}
use rdma_intercept_ldperload.Tenant.Registry.History.{stamp-IsRegistry}
use rdma_intercept_ldperload.Tenant.Ledger.Calls.{with_shm-attached}

-- The segment that a handle is attached to, with a default that no attached handle needs.
abbrev pub segment_or : TenantHandle → TenantShm → TenantShm
segment_or h s = elim h.g_tenant_shm [ none ↦ s | some t ↦ t ]

module _ (r : TenantReplies) (now id : ℕ) (h : TenantHandle) (s : TenantShm)
    (attached : h.g_tenant_shm ≡ some s) (v : IsRegistry s) where
  -- Setting an existing tenant's status to inactive is accepted; the count of tenants is then one
  -- too high, and the tenant can no longer be deleted.
  pub set_status-inactive_drift :
      (later : ℕ)
      → is_inactive (tenant_at s id).status ≡ false
      → let done = tenant_set_status r now id inactive h in
        let t = segment_or done.1 s in
        (done.0 ≡ success)
        × (t.active_tenant_count ≡ count is_registered t.tenants + 1)
        × ((tenant_delete r later id done.1).0 ≡ failure)
  unfolding tenant_set_status set_status_locked tenant_delete delete_locked tenant_shm_lock
      tenant_shm_unlock
  set_status-inactive_drift later here = (
    ground (arith, run, below),
    ground (
      arith,
      run,
      below,
      v.active_exact,
      v.tenants_whole,
      count-set is_registered s.tenants id gone zero_tenant,
    ),
    ground (arith, run, below, again, v.tenants_whole, get_or-set s.tenants id id gone zero_tenant),
  )
    where
      gone : TenantInfo
      gone = record (tenant_at s id) { status = inactive; last_active_at = now }

      below : id < max_tenants
      below = registered-lt s id v here

      run : with_shm r now failure (set_status_locked now id inactive) h ≡ (
        success,
        record h {
          g_tenant_shm = some (tenant_shm_unlock now (set_tenant (tenant_shm_lock s) id gone));
        },
      )
      run =
          ground (
            arith,
            with_shm-attached r now failure (set_status_locked now id inactive) h s attached,
          )

      again :
          with_shm r later failure (delete_locked id) (record h {
            g_tenant_shm = some (tenant_shm_unlock now (set_tenant (tenant_shm_lock s) id gone));
          })
          ≡ (
            (delete_locked id (
                tenant_shm_lock
                  (tenant_shm_unlock now (set_tenant (tenant_shm_lock s) id gone)))).0,
            record h {
              g_tenant_shm = some (
                  tenant_shm_unlock later
                    (delete_locked id (
                      tenant_shm_lock
                        (tenant_shm_unlock now (set_tenant (tenant_shm_lock s) id gone)))).1);
            },
          )
      again =
          with_shm-attached r later failure (delete_locked id)
            (record h {
              g_tenant_shm = some (tenant_shm_unlock now (set_tenant (tenant_shm_lock s) id gone));
            })
            _ refl

-- The entries that make up a tenant's processes.
abbrev pub belongs_to : ℕ → PidMapping → Bool
belongs_to id m = is_bound m && m.tenant_id == id

rebind_moves :
    (s : TenantShm) (now pid a b idx : ℕ)
    → IsRegistry s
    → pid ≢ 0
    → a ≢ b
    → find_index? (has_pid pid) s.pid_mappings ≡ some idx
    → (mapping_at s idx).tenant_id ≡ a
    → is_active (tenant_at s b).status ≡ true
    → let t = rebind now pid b idx s in
      ((tenant_at t a).process_count ≡ (tenant_at s a).process_count)
      × ((tenant_at t b).process_count ≡ (tenant_at s b).process_count)
      × (count (belongs_to a) t.pid_mappings + 1 ≡ count (belongs_to a) s.pid_mappings)
      × (count (belongs_to b) t.pid_mappings ≡ count (belongs_to b) s.pid_mappings + 1)
unfolding rebind
rebind_moves s now pid a b idx v n d e o live = (
  ground (arith, at a),
  ground (arith, at b),
  ground (arith, moved a, held),
  ground (arith, moved b, held),
)
  where
    t' : TenantInfo
    t' = record (tenant_at s b) { last_active_at = now }

    m : PidMapping
    m = record { pid = pid; tenant_id = b; mapped_at = now }

    at :
        (j : ℕ) → get_or (set s.tenants b t') j zero_tenant ≡ (if j == b then t' else tenant_at s j)
    at j =
        get_or-set s.tenants b j t' zero_tenant
          (omega (arith, registered-lt s b v (ground arith), v.tenants_whole))

    held : (mapping_at s idx).pid ≡ pid
    held = (==_iff _ _).0 (find_index?-get_or (has_pid pid) s.pid_mappings idx free_mapping e)

    moved :
        (j : ℕ)
        → count (belongs_to j) (set s.pid_mappings idx m)
            + (if belongs_to j (mapping_at s idx) then 1 else 0)
          ≡ count (belongs_to j) s.pid_mappings + (if belongs_to j m then 1 else 0)
    moved j =
        count-set (belongs_to j) s.pid_mappings idx m free_mapping
          (find_index?-lt (has_pid pid) s.pid_mappings idx e)

-- Binding a process of tenant `a` to another active tenant `b` is accepted and moves its entry, but
-- the process counts of both tenants stay as they were.
pub bind_process-rebind_drift :
    (r : TenantReplies) (now pid a b idx : ℕ) (h : TenantHandle) (s : TenantShm)
    → h.g_tenant_shm ≡ some s
    → IsRegistry s
    → pid ≢ 0
    → a ≢ b
    → find_index? (has_pid pid) s.pid_mappings ≡ some idx
    → (mapping_at s idx).tenant_id ≡ a
    → is_active (tenant_at s b).status ≡ true
    → let done = tenant_bind_process r now pid b h in
      let t = segment_or done.1 s in
      (done.0 ≡ success)
      × ((tenant_at t a).process_count ≡ (tenant_at s a).process_count)
      × ((tenant_at t b).process_count ≡ (tenant_at s b).process_count)
      × (count (belongs_to a) t.pid_mappings + 1 ≡ count (belongs_to a) s.pid_mappings)
      × (count (belongs_to b) t.pid_mappings ≡ count (belongs_to b) s.pid_mappings + 1)
unfolding tenant_bind_process tenant_shm_lock tenant_shm_unlock
bind_process-rebind_drift r now pid a b idx h s attached v n d e o live =
    let s' = tenant_shm_lock s in
    let done : tenant_bind_process r now pid b h ≡ (
      success,
      record h { g_tenant_shm = some (tenant_shm_unlock now (rebind now pid b idx s')) },
    ) =
      ground (
        arith,
        with_shm-attached r now failure (bind_locked now pid b) h s attached,
        bind_locked-eq-bind_by now pid b s',
        registered-lt s b v,
      ) in
    let (pa, pb, ca, cb) =
      rebind_moves s' now pid a b idx (stamp-IsRegistry s 1 s.version s.last_update_time v) n d e o
        live in
    rw done (refl, pa, pb, ca, cb)
