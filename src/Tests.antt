-- ===== src/Tests.antt =====
-- Test data: a segment with two tenants, of which tenant 1 owns process 100, and a segment of usage.
mod Shm
mod Locks
mod Tenant
mod Ledger
mod Hooks
mod Race
mod Optimizer
mod Policy
mod Classic
mod Config
mod Collector
mod Manager
use rdma_intercept_ldperload.Base.{ℕ, ◌≡◌, ◌≢◌, refl, arith, true, false, none, some, set, length}
use rdma_intercept_ldperload.Shm.{
  ResourceUsage, SharedMemoryData, ShmHandle, ShmReplies, init_segment, write_slot, zero_usage,
}
use rdma_intercept_ldperload.Shm.Invariant.{IsTable, write_slot-IsTable}
use rdma_intercept_ldperload.Shm.Init.{init_segment-IsTable}
use rdma_intercept_ldperload.Shm.Table.{find_slot-Picks}
use rdma_intercept_ldperload.Tenant.{TenantShm, TenantHandle}
use rdma_intercept_ldperload.Tenant.Segment.{TenantReplies, fresh_segment}
use rdma_intercept_ldperload.Tenant.Lifecycle.{create_locked, new_tenant}
use rdma_intercept_ldperload.Tenant.Binding.{bind_locked, bind_new, bind_at, rebind, find_mapping}
use rdma_intercept_ldperload.Tenant.Registry.{IsRegistry}
use rdma_intercept_ldperload.Tenant.Registry.Create.{create_locked-IsRegistry}
use rdma_intercept_ldperload.Tenant.Registry.Bind.{bind_locked-IsRegistry}
use rdma_intercept_ldperload.Tenant.Registry.History.{fresh_segment-IsRegistry}

abbrev pub usage_seven : ResourceUsage
usage_seven = record { qp_count = 7; mr_count = 2; memory_used = 4096 }

abbrev pub table : SharedMemoryData
table = init_segment 1

abbrev pub shm_handle : ShmHandle
shm_handle = record { shm_fd = some 3; shm_data_ptr = some table }

abbrev pub shm_closed : ShmHandle
shm_closed = record { shm_fd = none; shm_data_ptr = none }

-- A segment where process 100 has published seven queue pairs.
abbrev pub busy_table : SharedMemoryData
busy_table = write_slot 100 usage_seven 0 2 table

abbrev pub empty_tenants : TenantShm
empty_tenants = fresh_segment 1

abbrev pub one_tenant : TenantShm
one_tenant = (create_locked 5 1 none none empty_tenants).1

abbrev pub two_tenants : TenantShm
two_tenants = (create_locked 5 2 none none one_tenant).1

abbrev pub segment : TenantShm
segment = (bind_locked 6 100 1 two_tenants).1

pub segment-IsRegistry : IsRegistry segment
segment-IsRegistry =
    bind_locked-IsRegistry two_tenants
      (create_locked-IsRegistry one_tenant 2
        (create_locked-IsRegistry empty_tenants 1 (fresh_segment-IsRegistry 1) (omega arith)
          (omega arith) 5 none none)
        (omega arith) (omega arith) 5 none none)
      6 100 1 (omega arith)

abbrev pub handle : TenantHandle
handle = record { g_tenant_shm_fd = some 4; g_tenant_shm = some segment }

abbrev pub detached : TenantHandle
detached = record { g_tenant_shm_fd = none; g_tenant_shm = none }

abbrev pub replies : TenantReplies
replies = record { opened = some 4; truncated = true; mapped = some segment; whole = true; now = 7 }
