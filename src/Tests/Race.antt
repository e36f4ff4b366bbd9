-- ===== src/Tests/Race.antt =====
-- Two processes of a tenant whose quota is one queue pair.
use rdma_intercept_ldperload.Base.{◌+◌, ◌≡◌, refl, arith, true, some, none}
use rdma_intercept_ldperload.Shm.{
  process_usage, init_segment, shm_get_process_resources, shm_get_global_resources,
}
use rdma_intercept_ldperload.Tenant.{TenantQuota, TenantShm}
use rdma_intercept_ldperload.Tenant.Segment.{fresh_segment}
use rdma_intercept_ldperload.Tenant.Lifecycle.{tenant_at, create_locked, new_tenant, default_quota}
use rdma_intercept_ldperload.Tenant.Binding.{bind_locked, bind_new, bind_at, find_mapping}
use rdma_intercept_ldperload.Tenant.Ledger.{owner_in}
use rdma_intercept_ldperload.Hooks.{Process, rc}
use rdma_intercept_ldperload.Hooks.Checks.{type_allowed, process_limit_ok, global_limit_ok}
use rdma_intercept_ldperload.Hooks.Views.{IsBound}
use rdma_intercept_ldperload.Hooks.Race.{interleaved, IsFree, interleaved-over_quota}
use rdma_intercept_ldperload.Tests.{empty_tenants}
use rdma_intercept_ldperload.Tests.Hooks.{process, env}

abbrev one_pair : TenantQuota
one_pair = record default_quota { max_qp_per_tenant = 1 }

abbrev small_tenant : TenantShm
small_tenant = (create_locked 5 1 none (some one_pair) empty_tenants).1

abbrev shared : TenantShm
shared = (bind_locked 6 101 1 (bind_locked 6 100 1 small_tenant).1).1

abbrev first : Process
first = record process { tenant = record { g_tenant_shm_fd = some 4; g_tenant_shm = some shared } }

abbrev second : Process
second = record first { pid = 101 }

first-IsBound : IsBound first 1 shared
unfolding bind_locked create_locked new_tenant fresh_segment bind_new bind_at find_mapping owner_in
first-IsBound = record {
  ready = refl;
  attached = refl;
  whole = refl;
  nonzero = omega arith;
  below = omega arith;
  live = refl;
  mine = refl;
}

second-IsBound : IsBound second 1 shared
unfolding bind_locked create_locked new_tenant fresh_segment bind_new bind_at find_mapping owner_in
second-IsBound = record {
  ready = refl;
  attached = refl;
  whole = refl;
  nonzero = omega arith;
  below = omega arith;
  live = refl;
  mine = refl;
}

first-IsFree : IsFree rc first
unfolding type_allowed process_limit_ok global_limit_ok process_usage init_segment
    shm_get_process_resources shm_get_global_resources
first-IsFree = record { control = refl; allowed = refl; process_room = refl; global_room = refl }

second-IsFree : IsFree rc second
unfolding type_allowed process_limit_ok global_limit_ok process_usage init_segment
    shm_get_process_resources shm_get_global_resources
second-IsFree = record { control = refl; allowed = refl; process_room = refl; global_room = refl }

interleaved-over_quota_example :
    let (first_ok, second_ok, t) = interleaved env rc first second shared in
    (first_ok ≡ true)
    × (second_ok ≡ true)
    × ((tenant_at t 1).usage.qp_count ≡ (tenant_at shared 1).quota.max_qp_per_tenant + 1)
unfolding bind_locked create_locked new_tenant fresh_segment bind_new bind_at find_mapping
interleaved-over_quota_example =
    interleaved-over_quota env rc first second 1 shared first-IsBound second-IsBound first-IsFree
      second-IsFree refl (ground arith)
