-- ===== src/Tenant/Binding.antt =====
-- src/shm/shared_memory_tenant.c: tenant_bind_process, tenant_unbind_process and
-- tenant_get_process_tenant.
use rdma_intercept_ldperload.Base.{
  ℕ, suc, ◌+◌, ◌-◌, not, List, [], ◌∷◌, Option, none, some, u32, ◌==◌, ltb, leb, if◌then◌else◌,
  get_or, set, find_index?,
}
use rdma_intercept_ldperload.Shm.{Status, success, failure}
use rdma_intercept_ldperload.Tenant.{
  PidMapping, TenantShm, TenantHandle, max_tenants, free_mapping, is_active,
}
use rdma_intercept_ldperload.Tenant.Segment.{TenantReplies, with_shm}
use rdma_intercept_ldperload.Tenant.Lifecycle.{tenant_at, set_tenant}

-- The loop of `tenant_bind_process`: `found` and `empty_slot`, where `none` is -1.
unfoldable pub find_mapping : ℕ → List PidMapping → ℕ → Option ℕ → Option ℕ × Option ℕ
find_mapping pid [] i empty_slot = (none, empty_slot)
find_mapping pid (m ∷ ms) i empty_slot =
    if m.pid == pid
    then (some i, empty_slot)
    else find_mapping pid ms (suc i)
        (elim empty_slot [ some e ↦ some e | none ↦ if m.pid == 0 then some i else none ])

-- The first free entry of the tenant's process list takes the pid; a full list stays.
unfoldable pub add_process : ℕ → List ℕ → List ℕ
add_process pid ps = elim (find_index? (λ p. p == 0) ps) [ none ↦ ps | some i ↦ set ps i pid ]

unfoldable pub remove_process : ℕ → List ℕ → List ℕ
remove_process pid ps = elim (find_index? (λ p. p == pid) ps) [ none ↦ ps | some i ↦ set ps i 0 ]

abbrev pub write_mapping : ℕ → ℕ → ℕ → ℕ → TenantShm → TenantShm
write_mapping now pid id idx s = record s {
  pid_mappings = set s.pid_mappings idx (record { pid = pid; tenant_id = id; mapped_at = now });
}

-- A process that has an entry: the entry changes hands, and no count does.
unfoldable pub rebind : ℕ → ℕ → ℕ → ℕ → TenantShm → TenantShm
rebind now pid id idx s =
    set_tenant (write_mapping now pid id idx s) id
      (record (tenant_at s id) { last_active_at = now })

-- A process that has none: both counts go up, and the tenant's list takes the pid.
unfoldable pub bind_new : ℕ → ℕ → ℕ → ℕ → TenantShm → TenantShm
unfolding add_process
bind_new now pid id idx s =
    record (set_tenant (write_mapping now pid id idx s) id (record (tenant_at s id) {
      process_count = u32 ((tenant_at s id).process_count + 1);
      processes = add_process pid (tenant_at s id).processes;
      last_active_at = now;
    })) { total_process_count = u32 (s.total_process_count + 1) }

unfoldable pub bind_at : ℕ → ℕ → ℕ → Option ℕ × Option ℕ → TenantShm → Status × TenantShm
unfolding rebind bind_new
bind_at now pid id (some idx, empty_slot) s = (success, rebind now pid id idx s)
bind_at now pid id (none, some idx) s = (success, bind_new now pid id idx s)
bind_at now pid id (none, none) s = (failure, s)

unfoldable pub bind_locked : ℕ → ℕ → ℕ → TenantShm → Status × TenantShm
unfolding bind_at find_mapping
bind_locked now pid id s =
    if not (is_active (tenant_at s id).status)
    then (failure, s)
    else bind_at now pid id (find_mapping pid s.pid_mappings 0 none) s

unfoldable pub tenant_bind_process :
    TenantReplies → ℕ → ℕ → ℕ → TenantHandle → Status × TenantHandle
unfolding bind_locked with_shm
tenant_bind_process r now pid id h =
    if leb max_tenants id then (failure, h) else with_shm r now failure (bind_locked now pid id) h

abbrev pub mapping_at : TenantShm → ℕ → PidMapping
mapping_at s i = get_or s.pid_mappings i free_mapping

-- Decrement, unless 0.
abbrev pub drop_one : ℕ → ℕ
drop_one n = if ltb 0 n then n - 1 else n

-- The entry `idx` is freed; the tenant that it names loses the pid from its list and one count.
unfoldable pub unbind_at : ℕ → ℕ → TenantShm → TenantShm
unfolding remove_process
unbind_at pid idx s =
    let id = (mapping_at s idx).tenant_id in
    record (set_tenant s id (record (tenant_at s id) {
      processes = remove_process pid (tenant_at s id).processes;
      process_count = drop_one (tenant_at s id).process_count;
    })) {
      pid_mappings = set s.pid_mappings idx (record (mapping_at s idx) { pid = 0; tenant_id = 0 });
      total_process_count = drop_one s.total_process_count;
    }

unfoldable pub unbind_locked : ℕ → TenantShm → Status × TenantShm
unfolding unbind_at
unbind_locked pid s = elim (find_index? (λ m. m.pid == pid) s.pid_mappings) [
  | none ↦ (failure, s)
  | some idx ↦ (success, unbind_at pid idx s)
]

unfoldable pub tenant_unbind_process : TenantReplies → ℕ → ℕ → TenantHandle → Status × TenantHandle
unfolding unbind_locked with_shm
tenant_unbind_process r now pid h = with_shm r now failure (unbind_locked pid) h

-- The tenant of a pid, 0 where it has none.
unfoldable pub process_tenant_locked : ℕ → TenantShm → (Status × ℕ) × TenantShm
process_tenant_locked pid s = elim (find_index? (λ m. m.pid == pid) s.pid_mappings) [
  | none ↦ ((failure, 0), s)
  | some idx ↦ ((success, (mapping_at s idx).tenant_id), s)
]

unfoldable pub tenant_get_process_tenant :
    TenantReplies → ℕ → ℕ → TenantHandle → (Status × ℕ) × TenantHandle
unfolding process_tenant_locked with_shm
tenant_get_process_tenant r now pid h = with_shm r now (failure, 0) (process_tenant_locked pid) h
