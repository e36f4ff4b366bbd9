-- ===== src/Tenant/Lifecycle.antt =====
-- src/shm/shared_memory_tenant.c: tenant_create, tenant_delete, tenant_get_info,
-- tenant_set_status and tenant_update_quota. A function with `_locked` works on the segment between
-- lock and unlock.
use rdma_intercept_ldperload.Base.{
  ℕ, ◌+◌, ◌*◌, ◌-◌, not, ◌||◌, List, [], ◌∷◌, Option, none, some, u32, minus_one, ◌==◌, leb,
  if◌then◌else◌, get_or, set, take, replicate,
}
use rdma_intercept_ldperload.Shm.{Status, success, failure, max_processes}
use rdma_intercept_ldperload.Tenant.{
  TenantStatus, active, inactive, TenantQuota, TenantInfo, PidMapping, TenantShm, TenantHandle,
  max_tenants, zero_tenant, zero_tenant_usage, is_inactive,
}
use rdma_intercept_ldperload.Tenant.Segment.{TenantReplies, with_shm}

abbrev pub tenant_name_max : ℕ
tenant_name_max = 64

abbrev pub unnamed : List ℕ
unnamed = b'u' ∷ b'n' ∷ b'n' ∷ b'a' ∷ b'm' ∷ b'e' ∷ b'd' ∷ []

abbrev pub default_quota : TenantQuota
default_quota = record {
  max_qp_per_tenant = 100;
  max_mr_per_tenant = 1000;
  max_memory_per_tenant = 1024 * 1024 * 1024;
  max_cq_per_tenant = 100;
  max_pd_per_tenant = 100;
}

abbrev pub tenant_at : TenantShm → ℕ → TenantInfo
tenant_at s id = get_or s.tenants id zero_tenant

abbrev pub set_tenant : TenantShm → ℕ → TenantInfo → TenantShm
set_tenant s id t = record s { tenants = set s.tenants id t }

-- The record that `tenant_create` leaves; `name` is the bytes of a C string or NULL.
unfoldable pub new_tenant : ℕ → ℕ → Option (List ℕ) → Option TenantQuota → TenantInfo
new_tenant now id name quota = record {
  tenant_id = id;
  tenant_name = take (tenant_name_max - 1) (elim name [ none ↦ unnamed | some n ↦ n ]);
  status = active;
  quota = elim quota [ none ↦ default_quota | some q ↦ q ];
  usage = zero_tenant_usage;
  created_at = now;
  last_active_at = now;
  process_count = 0;
  processes = replicate max_processes 0;
}

unfoldable pub create_locked :
    ℕ → ℕ → Option (List ℕ) → Option TenantQuota → TenantShm → Status × TenantShm
unfolding new_tenant
create_locked now id name quota s =
    if not (is_inactive (tenant_at s id).status) then (failure, s) else (
      success,
      record (set_tenant s id (new_tenant now id name quota)) {
        active_tenant_count = u32 (s.active_tenant_count + 1);
      },
    )

unfoldable pub tenant_create :
    TenantReplies
    → ℕ
    → ℕ
    → Option (List ℕ)
    → Option TenantQuota
    → TenantHandle
    → Status × TenantHandle
unfolding create_locked with_shm
tenant_create r now id name quota h =
    if id == 0 || leb max_tenants id
    then (failure, h)
    else with_shm r now failure (create_locked now id name quota) h

-- The loop of `tenant_delete`, with the process total.
unfoldable pub clear_mappings : ℕ → List PidMapping → ℕ → List PidMapping × ℕ
clear_mappings id [] total = ([], total)
clear_mappings id (m ∷ ms) total =
    let hit = m.tenant_id == id in
    let (ms', total') = clear_mappings id ms (if hit then u32 (total + minus_one) else total) in
    ((if hit then record m { pid = 0; tenant_id = 0 } else m) ∷ ms', total')

unfoldable pub delete_locked : ℕ → TenantShm → Status × TenantShm
delete_locked id s =
    if is_inactive (tenant_at s id).status
    then (failure, s)
    else (let (ms, total) = clear_mappings id s.pid_mappings s.total_process_count in
        (
          success,
          record (set_tenant s id
              (record (tenant_at s id) { status = inactive; process_count = 0 })) {
                pid_mappings = ms;
                total_process_count = total;
                active_tenant_count = u32 (s.active_tenant_count + minus_one);
              },
        ))

unfoldable pub tenant_delete : TenantReplies → ℕ → ℕ → TenantHandle → Status × TenantHandle
unfolding delete_locked with_shm
tenant_delete r now id h =
    if id == 0 || leb max_tenants id
    then (failure, h)
    else with_shm r now failure (delete_locked id) h

-- The buffer is filled for an inactive tenant too; `none` is a buffer left alone.
unfoldable pub get_info_locked : ℕ → TenantShm → (Status × Option TenantInfo) × TenantShm
get_info_locked id s =
    ((if is_inactive (tenant_at s id).status then failure else success, some (tenant_at s id)), s)

unfoldable pub tenant_get_info :
    TenantReplies → ℕ → ℕ → TenantHandle → (Status × Option TenantInfo) × TenantHandle
unfolding get_info_locked with_shm
tenant_get_info r now id h =
    if leb max_tenants id
    then ((failure, none), h)
    else with_shm r now (failure, none) (get_info_locked id) h

unfoldable pub set_status_locked : ℕ → ℕ → TenantStatus → TenantShm → Status × TenantShm
set_status_locked now id status s = if is_inactive (tenant_at s id).status then (failure, s) else (
  success,
  set_tenant s id (record (tenant_at s id) { status = status; last_active_at = now }),
)

unfoldable pub tenant_set_status :
    TenantReplies → ℕ → ℕ → TenantStatus → TenantHandle → Status × TenantHandle
unfolding set_status_locked with_shm
tenant_set_status r now id status h =
    if leb max_tenants id
    then (failure, h)
    else with_shm r now failure (set_status_locked now id status) h

unfoldable pub update_quota_locked : ℕ → ℕ → TenantQuota → TenantShm → Status × TenantShm
update_quota_locked now id quota s = if is_inactive (tenant_at s id).status then (failure, s) else (
  success,
  set_tenant s id (record (tenant_at s id) { quota = quota; last_active_at = now }),
)

unfoldable pub tenant_update_quota :
    TenantReplies → ℕ → ℕ → Option TenantQuota → TenantHandle → Status × TenantHandle
unfolding update_quota_locked with_shm
tenant_update_quota r now id none h = (failure, h)
tenant_update_quota r now id (some quota) h =
    if leb max_tenants id
    then (failure, h)
    else with_shm r now failure (update_quota_locked now id quota) h
