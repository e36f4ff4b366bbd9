-- ===== src/Manager/Service.antt =====
-- What the daemon of src/tenant_manager_daemon.c does to the registry of tenants.
use rdma_intercept_ldperload.Base.{
  ℕ, ◌+◌, ◌≡◌, ◌⊎◌, refl, ◌∙◌, sym, not, Option, none, some, List, [], ◌∷◌, u64, ◌==◌, ltb, ◌&&◌,
  if◌then◌else◌, length, count, get_or-set, arith, Bool-cases, Option-cases, inl, inr,
}
use rdma_intercept_ldperload.Text.{codes, same_text}
use rdma_intercept_ldperload.Shm.{Status, success, failure}
use rdma_intercept_ldperload.Tenant.{
  TenantInfo, TenantQuota, TenantShm, TenantHandle, is_inactive, max_tenants, zero_tenant,
}
use rdma_intercept_ldperload.Tenant.Segment.{
  TenantReplies, tenant_shm_get_ptr, tenant_shm_lock, tenant_shm_unlock,
}
use rdma_intercept_ldperload.Tenant.Lifecycle.{
  tenant_at, tenant_create, tenant_delete, tenant_get_info, tenant_update_quota,
  update_quota_locked,
}
use rdma_intercept_ldperload.Tenant.Registry.{is_registered, IsRegistry, HasRegistry}
use rdma_intercept_ldperload.Tenant.Registry.History.{
  create_call, delete_call, get_info_call, update_quota_call, step, step-HasRegistry,
  stamp-IsRegistry,
}
use rdma_intercept_ldperload.Tenant.Ledger.Calls.{with_shm-attached}
use rdma_intercept_ldperload.Manager.{Command, listing, DaemonEnv}
use rdma_intercept_ldperload.Manager.Daemon.{
  field_or, default_memory, requested_quota, stamp_unlocked, apply_quota, handle_update_quota,
  handle_create, handle_delete, handle_status, handle_list_tenants, process_command, rows, listed,
}

Status-cases : (a : Status) → (a ≡ success) ⊎ (a ≡ failure)
Status-cases success = inl refl
Status-cases failure = inr refl

module _ (r : TenantReplies) (e : DaemonEnv) (h : TenantHandle) (v : HasRegistry h) where
  get_ptr-HasRegistry : HasRegistry (tenant_shm_get_ptr r h)
  unfolding tenant_shm_get_ptr
  get_ptr-HasRegistry = let (s, attached, sound) = v in (s, ground (arith, attached), sound)

  stamp_unlocked-HasRegistry : HasRegistry (stamp_unlocked r e.now_ns h)
  unfolding stamp_unlocked tenant_shm_get_ptr
  stamp_unlocked-HasRegistry =
      let (s, attached, sound) = v in
      (
        record s { last_update_time = e.now_ns; version = u64 (s.version + 1) },
        ground (arith, attached),
        stamp-IsRegistry s s.tenant_shm_lock (u64 (s.version + 1)) e.now_ns sound,
      )

module _ (r : TenantReplies) (e : DaemonEnv) (h : TenantHandle) (v : HasRegistry h) where
  apply_quota-HasRegistry :
      (id : ℕ) (quota : TenantQuota) → HasRegistry (apply_quota r e id quota h).1
  unfolding apply_quota step
  apply_quota-HasRegistry id quota =
      let kept = step-HasRegistry r e.now h v (update_quota_call id (some quota)) tt in
      elim (Status-cases (tenant_update_quota r e.now id (some quota) h).0) [
        | inl ok ↦ rw (apply_quota, ok) (stamp_unlocked-HasRegistry r e _ kept)
        | inr bad ↦ rw (apply_quota, bad) kept
      ]

  update_quota-HasRegistry : (c : Command) → HasRegistry (handle_update_quota r e c h).1
  unfolding handle_update_quota
  update_quota-HasRegistry c = elim (Option-cases c.tenant) [
    | inl missing ↦ rw (handle_update_quota, missing) v
    | inr (id, given_id) ↦ elim (Option-cases c.qp) [
      | inl missing ↦ rw (handle_update_quota, given_id, missing) v
      | inr (qp, given) ↦ rw (handle_update_quota, given_id, given) (apply_quota-HasRegistry id _)
    ]
  ]

  create-HasRegistry : (c : Command) → HasRegistry (handle_create r e c h).1
  unfolding handle_create step
  create-HasRegistry c = elim (Option-cases c.tenant) [
    | inl missing ↦ rw (handle_create, missing) v
    | inr (id, given_id) ↦
        let name = some (field_or c.name (codes "unnamed")) in
        let quota = some (
          requested_quota (field_or c.qp 100) (field_or c.mr 100)
            (field_or c.memory default_memory)) in
        let kept = step-HasRegistry r e.now h v (create_call id name quota) tt in
        elim (Status-cases (tenant_create r e.now id name quota h).0) [
          | inl ok ↦ rw (handle_create, given_id, ok) kept
          | inr bad ↦ rw (handle_create, given_id, bad) kept
        ]
  ]

  delete-HasRegistry : (c : Command) → HasRegistry (handle_delete r e c h).1
  unfolding handle_delete step
  delete-HasRegistry c = elim (Option-cases c.tenant) [
    | inl missing ↦ rw (handle_delete, missing) v
    | inr (id, given_id) ↦
        let kept = step-HasRegistry r e.now h v (delete_call id) tt in
        elim (Status-cases (tenant_delete r e.now id h).0) [
          | inl ok ↦ rw (handle_delete, given_id, ok) kept
          | inr bad ↦ rw (handle_delete, given_id, bad) kept
        ]
  ]

  status-HasRegistry : (c : Command) → HasRegistry (handle_status r e c h).1
  unfolding handle_status step
  status-HasRegistry c = elim (Option-cases c.tenant) [
    | inl missing ↦ rw (handle_status, missing) (get_ptr-HasRegistry r e h v)
    | inr (id, given_id) ↦
        let kept = step-HasRegistry r e.now h v (get_info_call id) tt in
        elim (Status-cases (tenant_get_info r e.now id h).0.0) [
          | inl ok ↦ rw (handle_status, given_id, ok) kept
          | inr bad ↦ rw (handle_status, given_id, bad) kept
        ]
  ]

  list_tenants-HasRegistry : HasRegistry (handle_list_tenants r h).1
  unfolding handle_list_tenants
  list_tenants-HasRegistry = get_ptr-HasRegistry r e h v

  process_command-HasRegistry : (c : Option Command) → HasRegistry (process_command r e c h).1
  unfolding process_command
  process_command-HasRegistry none = v
  process_command-HasRegistry (some c) = elim (Option-cases c.cmd) [
    | inl missing ↦ rw (process_command, missing) v
    | inr (cmd, named) ↦ elim (Bool-cases (same_text cmd (codes "UPDATE_QUOTA"))) [
      | inl a ↦ rw (process_command, named, a) (update_quota-HasRegistry c)
      | inr a ↦ elim (Bool-cases (same_text cmd (codes "CREATE"))) [
        | inl b ↦ rw (process_command, named, a, b) (create-HasRegistry c)
        | inr b ↦ elim (Bool-cases (same_text cmd (codes "DELETE"))) [
          | inl d ↦ rw (process_command, named, a, b, d) (delete-HasRegistry c)
          | inr d ↦ elim (Bool-cases (same_text cmd (codes "STATUS"))) [
            | inl f ↦ rw (process_command, named, a, b, d, f) (status-HasRegistry c)
            | inr f ↦ elim (Bool-cases (same_text cmd (codes "LIST_TENANTS"))) [
              | inl g ↦ rw (process_command, named, a, b, d, f, g) list_tenants-HasRegistry
              | inr g ↦ rw (process_command, named, a, b, d, f, g) v
            ]
          ]
        ]
      ]
    ]
  ]

-- The commands of one run of the daemon.
unfoldable pub serve_commands :
    TenantReplies → List (DaemonEnv × Option Command) → TenantHandle → TenantHandle
serve_commands r [] h = h
serve_commands r ((e, c) ∷ rest) h = serve_commands r rest (process_command r e c h).1

-- Whatever commands the daemon is sent, the registry of tenants that it is attached to stays sound.
pub serve_commands-HasRegistry :
    (r : TenantReplies) (commands : List (DaemonEnv × Option Command)) (h : TenantHandle)
    → HasRegistry h
    → HasRegistry (serve_commands r commands h)
unfolding serve_commands
serve_commands-HasRegistry r [] h v = v
serve_commands-HasRegistry r ((e, c) ∷ rest) h v =
    serve_commands-HasRegistry r rest (process_command r e c h).1
      (process_command-HasRegistry r e h v c)

length-rows : (ts : List TenantInfo) → length (rows listed ts) ≡ count is_registered ts
unfolding rows
length-rows [] = refl
length-rows (t ∷ ts) = ground (arith, length-rows ts)

-- On a sound registry the number that LIST_TENANTS reports is the registry's own count of tenants,
-- and there is one object for each of them.
pub list_tenants-count :
    (r : TenantReplies) (h : TenantHandle) (s : TenantShm)
    → h.g_tenant_shm ≡ some s
    → IsRegistry s
    → ((handle_list_tenants r h).0.payload
        ≡ listing s.active_tenant_count s.version (rows listed s.tenants))
      × (length (rows listed s.tenants) ≡ s.active_tenant_count)
unfolding handle_list_tenants tenant_shm_get_ptr
list_tenants-count r h s attached sound =
    let same = length-rows s.tenants ∙ sym sound.active_exact in
    (ground (arith, attached, same), same)

module _ (r : TenantReplies) (e : DaemonEnv) (c : Command) (h : TenantHandle) (s : TenantShm)
    (id qp : ℕ) (attached : h.g_tenant_shm ≡ some s) (whole : length s.tenants ≡ max_tenants)
    (given_id : c.tenant ≡ some id) (given_qp : c.qp ≡ some qp) where
  -- An UPDATE_QUOTA with both of its required fields, on an attached registry, reports success exactly
  -- for a tenant that exists; it then replaces the quota of that tenant by the fields of the command,
  -- with the number of queue pairs for the completion queues and for a missing number of regions, 1 GB
  -- for a missing memory size and 10 protection domains, and nothing else of it but its time of last
  -- activity. Every other tenant stays what it was.
  pub update_quota-tenants :
      (j : ℕ) (t : TenantShm)
      → (handle_update_quota r e c h).1.g_tenant_shm ≡ some t
      → let quota : TenantQuota = record {
        max_qp_per_tenant = qp;
        max_mr_per_tenant = elim c.mr [ none ↦ qp | some mr ↦ mr ];
        max_memory_per_tenant = elim c.memory [ none ↦ 1073741824 | some memory ↦ memory ];
        max_cq_per_tenant = qp;
        max_pd_per_tenant = 10;
      } in
        let known = ltb id max_tenants && not (is_inactive (tenant_at s id).status) in
        ((handle_update_quota r e c h).0.success ≡ known)
        × (tenant_at t j ≡ (
            if known && j == id
            then record (tenant_at s id) { quota = quota; last_active_at = e.now }
            else tenant_at s j))
  unfolding handle_update_quota apply_quota tenant_update_quota update_quota_locked tenant_shm_lock
      tenant_shm_unlock stamp_unlocked tenant_shm_get_ptr
  update_quota-tenants j t after =
      let quota = requested_quota qp (field_or c.mr qp) (field_or c.memory default_memory) in
      let call =
        with_shm-attached r e.now failure (update_quota_locked e.now id quota) h s attached in
      let put =
        get_or-set s.tenants id j
          (record (tenant_at s id) { quota = quota; last_active_at = e.now }) zero_tenant in
      (
        ground (arith, call, given_id, given_qp),
        ground (arith, call, put, given_id, given_qp, after),
      )
