-- ===== src/Tenant/Registry/History.antt =====
-- The registry of src/shm/shared_memory_tenant.c over whole histories of calls.
use rdma_intercept_ldperload.Base.{
  ℕ, ◌≡◌, ◌≢◌, refl, sym, Bool, true, false, not, ◌||◌, List, [], ◌∷◌, Option, none, some, arith,
  ◌==◌, leb, int_pos, if◌then◌else◌, length-replicate, get_or-replicate, count-replicate,
}
use rdma_intercept_ldperload.Shm.{failure, max_processes}
use rdma_intercept_ldperload.Tenant.{
  TenantStatus, inactive, TenantQuota, TenantUsage, TenantShm, TenantHandle, max_tenants,
  zero_tenant, free_mapping,
}
use rdma_intercept_ldperload.Tenant.Segment.{
  TenantReplies, fresh_segment, tenant_shm_init, tenant_shm_lock, tenant_shm_unlock, with_shm,
}
use rdma_intercept_ldperload.Tenant.Lifecycle.{
  tenant_create, tenant_delete, tenant_get_info, tenant_set_status, tenant_update_quota,
  create_locked, delete_locked, get_info_locked, set_status_locked, update_quota_locked,
}
use rdma_intercept_ldperload.Tenant.Binding.{
  tenant_bind_process, tenant_unbind_process, tenant_get_process_tenant, bind_locked, unbind_locked,
  process_tenant_locked,
}
use rdma_intercept_ldperload.Tenant.Usage.{
  tenant_update_resource_usage, tenant_get_resource_usage, tenant_check_resource_limit,
  tenant_get_active_list, tenant_get_statistics, update_usage_locked, usage_locked,
  check_limit_locked, collect_active, statistics_locked,
}
use rdma_intercept_ldperload.Tenant.Registry.{
  is_registered, is_bound, has_pid, IsRegistry, HasRegistry,
}
use rdma_intercept_ldperload.Tenant.Registry.Create.{
  create_locked-IsRegistry, delete_locked-IsRegistry, set_status_locked-IsRegistry,
  update_quota_locked-IsRegistry, update_usage_locked-IsRegistry,
}
use rdma_intercept_ldperload.Tenant.Registry.Bind.{bind_locked-IsRegistry, unbind_locked-IsRegistry}

-- Every operation of the interface, with its arguments.
pub data TenantCall : Type 0 where
  create_call : ℕ → Option (List ℕ) → Option TenantQuota → TenantCall
  delete_call : ℕ → TenantCall
  get_info_call : ℕ → TenantCall
  set_status_call : ℕ → TenantStatus → TenantCall
  update_quota_call : ℕ → Option TenantQuota → TenantCall
  bind_call unbind_call : ℕ → ℕ → TenantCall
  get_process_tenant_call : ℕ → TenantCall
  update_usage_call : ℕ → Option TenantUsage → TenantCall
  get_usage_call : ℕ → TenantCall
  check_limit_call : ℕ → ℕ → ℕ → TenantCall
  active_list_call : ℕ → TenantCall
  statistics_call : ℕ → TenantCall

-- The handle after a call.
unfoldable pub step : TenantReplies → ℕ → TenantCall → TenantHandle → TenantHandle
step r now (create_call id name quota) h = (tenant_create r now id name quota h).1
step r now (delete_call id) h = (tenant_delete r now id h).1
step r now (get_info_call id) h = (tenant_get_info r now id h).1
step r now (set_status_call id status) h = (tenant_set_status r now id status h).1
step r now (update_quota_call id quota) h = (tenant_update_quota r now id quota h).1
step r now (bind_call pid id) h = (tenant_bind_process r now pid id h).1
step r now (unbind_call pid _) h = (tenant_unbind_process r now pid h).1
step r now (get_process_tenant_call pid) h = (tenant_get_process_tenant r now pid h).1
step r now (update_usage_call id usage) h = (tenant_update_resource_usage r now id usage h).1
step r now (get_usage_call id) h = (tenant_get_resource_usage r now id h).1
step r now (check_limit_call id t n) h = (tenant_check_resource_limit r now id t n h).1
step r now (active_list_call n) h = (tenant_get_active_list r now n h).1
step r now (statistics_call id) h = (tenant_get_statistics r now id h).1

pub run : TenantReplies → List (ℕ × TenantCall) → TenantHandle → TenantHandle
run r [] h = h
run r ((now, c) ∷ cs) h = run r cs (step r now c h)

-- The calls that the invariant needs to rule out: a status set to inactive, and pid 0.
abbrev pub IsSafe : TenantCall → Type 0
IsSafe (set_status_call id status) = status ≢ inactive
IsSafe (bind_call pid id) = pid ≢ 0
IsSafe (unbind_call pid id) = pid ≢ 0
IsSafe _ = Unit

abbrev pub AllSafe : List (ℕ × TenantCall) → Type 0
AllSafe [] = Unit
AllSafe ((now, c) ∷ cs) = IsSafe c × AllSafe cs

pub stamp-IsRegistry :
    (s : TenantShm) (lock version time : ℕ)
    → IsRegistry s
    → IsRegistry (record s { tenant_shm_lock = lock; version = version; last_update_time = time })
stamp-IsRegistry s lock version time v = record {
  tenants_whole = v.tenants_whole;
  mappings_whole = v.mappings_whole;
  zero_vacant = v.zero_vacant;
  active_exact = v.active_exact;
  total_exact = v.total_exact;
  free_clear = v.free_clear;
  owned = v.owned;
  unique = v.unique;
}

process_tenant_same :
    (pid : ℕ) (s : TenantShm) → IsRegistry s → IsRegistry (process_tenant_locked pid s).1
unfolding process_tenant_locked
process_tenant_same pid s i = ground (arith, i)

module _ (r : TenantReplies) (now : ℕ) (h : TenantHandle) (v : HasRegistry h) where
  with_shm-HasRegistry :
      {A : Type 0} (fail : A) (work : TenantShm → A × TenantShm)
      → ((s : TenantShm) → IsRegistry s → IsRegistry (work s).1)
      → HasRegistry (with_shm r now fail work h).1
  unfolding with_shm
  with_shm-HasRegistry fail work keep =
      let (s, e, i) = v in
      (
        tenant_shm_unlock now (work (tenant_shm_lock s)).1,
        ground arith,
        stamp-IsRegistry (work (tenant_shm_lock s)).1 _ _ _ (keep _ (stamp-IsRegistry s _ _ _ i)),
      )

  -- A guard that returns early leaves the handle alone.
  guard-HasRegistry :
      {A : Type 0} (b : Bool) (fail : A) (rest : A × TenantHandle)
      → (b ≡ false → HasRegistry rest.1)
      → HasRegistry (if b then (fail, h) else rest).1
  guard-HasRegistry true fail rest k = v
  guard-HasRegistry false fail rest k = k refl

  pub step-HasRegistry : (c : TenantCall) → IsSafe c → HasRegistry (step r now c h)
  unfolding step tenant_create tenant_delete tenant_get_info tenant_set_status tenant_update_quota
      tenant_bind_process tenant_unbind_process tenant_get_process_tenant
      tenant_update_resource_usage tenant_get_resource_usage tenant_check_resource_limit
      tenant_get_active_list tenant_get_statistics
  step-HasRegistry (create_call id name quota) g =
      guard-HasRegistry (id == 0 || leb max_tenants id) _ _ (λ fits.
        with_shm-HasRegistry failure (create_locked now id name quota)
          (λ s i. create_locked-IsRegistry s id i (ground arith) (ground arith) now name quota))
  step-HasRegistry (delete_call id) g =
      guard-HasRegistry (id == 0 || leb max_tenants id) _ _ (λ fits.
        with_shm-HasRegistry failure (delete_locked id)
          (λ s i. delete_locked-IsRegistry s id i (ground arith) (ground arith)))
  step-HasRegistry (get_info_call id) g =
      guard-HasRegistry (leb max_tenants id) _ _
        (λ fits. with_shm-HasRegistry (failure, none) (get_info_locked id) (λ s i. i))
  step-HasRegistry (set_status_call id status) g =
      guard-HasRegistry (leb max_tenants id) _ _ (λ fits.
        with_shm-HasRegistry failure (set_status_locked now id status)
          (λ s i. set_status_locked-IsRegistry s id i now status g))
  step-HasRegistry (update_quota_call id none) g = v
  step-HasRegistry (update_quota_call id (some quota)) g =
      guard-HasRegistry (leb max_tenants id) _ _ (λ fits.
        with_shm-HasRegistry failure (update_quota_locked now id quota)
          (λ s i. update_quota_locked-IsRegistry s id i now quota))
  step-HasRegistry (bind_call pid id) g = guard-HasRegistry (leb max_tenants id) _ _ (λ fits.
      with_shm-HasRegistry failure (bind_locked now pid id)
        (λ s i. bind_locked-IsRegistry s i now pid id g))
  step-HasRegistry (unbind_call pid _) g =
      with_shm-HasRegistry failure (unbind_locked pid) (λ s i. unbind_locked-IsRegistry s i pid g)
  step-HasRegistry (get_process_tenant_call pid) g =
      with_shm-HasRegistry (failure, 0) (process_tenant_locked pid)
        (λ s i. process_tenant_same pid s i)
  step-HasRegistry (update_usage_call id none) g = v
  step-HasRegistry (update_usage_call id (some usage)) g =
      guard-HasRegistry (leb max_tenants id) _ _ (λ fits.
        with_shm-HasRegistry failure (update_usage_locked now id usage)
          (λ s i. update_usage_locked-IsRegistry s id i now usage))
  step-HasRegistry (get_usage_call id) g =
      guard-HasRegistry (leb max_tenants id) _ _
        (λ fits. with_shm-HasRegistry none (usage_locked id) (λ s i. i))
  step-HasRegistry (check_limit_call id t n) g =
      guard-HasRegistry (leb max_tenants id) _ _
        (λ fits. with_shm-HasRegistry false (check_limit_locked id t n) (λ s i. i))
  step-HasRegistry (active_list_call n) g =
      guard-HasRegistry (not (int_pos n)) _ _
        (λ fits. with_shm-HasRegistry none (λ s. (some (collect_active n s.tenants), s)) (λ s i. i))
  step-HasRegistry (statistics_call id) g =
      guard-HasRegistry (leb max_tenants id) _ _
        (λ fits. with_shm-HasRegistry none (statistics_locked id) (λ s i. i))

-- Every history of calls on an attached segment that never sets a status to inactive and never
-- binds or unbinds pid 0 keeps the registry sound.
pub run-HasRegistry :
    (r : TenantReplies) (cs : List (ℕ × TenantCall)) (h : TenantHandle)
    → AllSafe cs
    → HasRegistry h
    → HasRegistry (run r cs h)
unfolding run
run-HasRegistry r [] h g v = v
run-HasRegistry r ((now, c) ∷ cs) h g v =
    run-HasRegistry r cs (step r now c h) g.1 (step-HasRegistry r now h v c g.0)

pub fresh_segment-IsRegistry : (now : ℕ) → IsRegistry (fresh_segment now)
unfolding fresh_segment
fresh_segment-IsRegistry now = record {
  tenants_whole = length-replicate max_tenants zero_tenant;
  mappings_whole = length-replicate max_processes free_mapping;
  zero_vacant = refl;
  active_exact = sym (count-replicate is_registered max_tenants zero_tenant refl);
  total_exact = sym (count-replicate is_bound max_processes free_mapping refl);
  free_clear = λ k e. ground (arith, get_or-replicate max_processes k free_mapping);
  owned = λ k b. ground (arith, get_or-replicate max_processes k free_mapping);
  unique = λ q n. ground (arith, count-replicate (has_pid q) max_processes free_mapping);
}

-- The first attachment to a segment never stamped before (version 0) starts a sound registry.
pub tenant_shm_init-HasRegistry :
    (r : TenantReplies) (h : TenantHandle) (fd : ℕ) (s : TenantShm)
    → h.g_tenant_shm ≡ none
    → r.opened ≡ some fd
    → r.truncated ≡ true
    → r.mapped ≡ some s
    → r.whole ≡ true
    → s.version ≡ 0
    → HasRegistry (tenant_shm_init r h).1
unfolding tenant_shm_init
tenant_shm_init-HasRegistry r h fd s e o t m w z =
    (fresh_segment r.now, ground arith, fresh_segment-IsRegistry r.now)
