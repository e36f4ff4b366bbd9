-- ===== src/Tenant/Segment.antt =====
-- src/shm/shared_memory_tenant.c: attaching, and the bracket of lock and unlock.
use rdma_intercept_ldperload.Base.{
  ℕ, ◌+◌, Bool, not, Option, none, some, u64, ◌==◌, if◌then◌else◌, replicate,
}
use rdma_intercept_ldperload.Shm.{Status, success, failure, max_processes}
use rdma_intercept_ldperload.Tenant.{
  TenantShm, TenantHandle, max_tenants, zero_tenant, free_mapping,
}

-- What the kernel answers to one call of `tenant_shm_init`: shm_open, ftruncate, mmap with the
-- segment that it shows, and whether fstat gives the whole size.
pub record TenantReplies : Type 0 where
  pub opened : Option ℕ
  pub truncated : Bool
  pub mapped : Option TenantShm
  pub whole : Bool
  pub now : ℕ

-- The segment after `memset` and the two stamps.
unfoldable pub fresh_segment : ℕ → TenantShm
fresh_segment now = record {
  tenants = replicate max_tenants zero_tenant;
  pid_mappings = replicate max_processes free_mapping;
  active_tenant_count = 0;
  total_process_count = 0;
  tenant_shm_lock = 0;
  version = 1;
  last_update_time = now;
}

unfoldable pub tenant_shm_init : TenantReplies → TenantHandle → Status × TenantHandle
unfolding fresh_segment
tenant_shm_init r h = elim h.g_tenant_shm [
  | some s ↦ (success, h)
  | none ↦ elim r.opened [
    | none ↦ (failure, record h { g_tenant_shm_fd = none })
    | some fd ↦
        if not r.truncated then (failure, record h { g_tenant_shm_fd = none }) else elim r.mapped [
          | none ↦ (failure, record { g_tenant_shm_fd = none; g_tenant_shm = none })
          | some s ↦ (
            success,
            record {
              g_tenant_shm_fd = some fd;
              g_tenant_shm =
                  some (if r.whole then (if s.version == 0 then fresh_segment r.now else s) else s);
            },
          )
        ]
  ]
]

unfoldable pub tenant_shm_destroy : TenantHandle → Status × TenantHandle
tenant_shm_destroy h = elim h.g_tenant_shm [
  | none ↦ (success, h)
  | some s ↦ (success, record { g_tenant_shm_fd = none; g_tenant_shm = none })
]

-- The handle after `tenant_shm_get_ptr`; the pointer is its field.
unfoldable pub tenant_shm_get_ptr : TenantReplies → TenantHandle → TenantHandle
unfolding tenant_shm_init
tenant_shm_get_ptr r h = elim h.g_tenant_shm [ some s ↦ h | none ↦ (tenant_shm_init r h).1 ]

unfoldable pub tenant_shm_lock : TenantShm → TenantShm
tenant_shm_lock s = record s { tenant_shm_lock = 1 }

-- The release, then the stamp.
unfoldable pub tenant_shm_unlock : ℕ → TenantShm → TenantShm
tenant_shm_unlock now s = record s {
  tenant_shm_lock = 0;
  version = u64 (s.version + 1);
  last_update_time = now;
}

-- The frame of every operation: attach, give up on NULL, else lock, work and unlock.
unfoldable pub with_shm {ℓ} :
    {A : Type ℓ}
    → TenantReplies
    → ℕ
    → A
    → (TenantShm → A × TenantShm)
    → TenantHandle
    → A × TenantHandle
unfolding tenant_shm_get_ptr tenant_shm_lock tenant_shm_unlock
with_shm r now fail work h =
    let h' = tenant_shm_get_ptr r h in
    elim h'.g_tenant_shm [
      | none ↦ (fail, h')
      | some s ↦
          let (a, s') = work (tenant_shm_lock s) in
          (a, record h' { g_tenant_shm = some (tenant_shm_unlock now s') })
    ]
