-- ===== src/Tests/Ledger.antt =====
-- The theorems on the bindings of src/shm/shared_memory_tenant.c at concrete segments.
use rdma_intercept_ldperload.Base.{◌≡◌, refl, arith}
use rdma_intercept_ldperload.Shm.{success, failure}
use rdma_intercept_ldperload.Tenant.Segment.{fresh_segment}
use rdma_intercept_ldperload.Tenant.Lifecycle.{
  new_tenant, create_locked, tenant_delete, delete_locked,
}
use rdma_intercept_ldperload.Tenant.Binding.{
  bind_locked, bind_new, tenant_bind_process, tenant_get_process_tenant,
}
use rdma_intercept_ldperload.Tenant.Ledger.{owner_in}
use rdma_intercept_ldperload.Tenant.Ledger.Calls.{
  bind_process-get_process_tenant, delete-get_process_tenant,
}
use rdma_intercept_ldperload.Tests.{segment, segment-IsRegistry, handle, replies}

bind_process-get_process_tenant_example :
    (tenant_get_process_tenant replies 9 200 (tenant_bind_process replies 8 200 2 handle).1).0
    ≡ (success, 2)
unfolding bind_locked create_locked new_tenant fresh_segment bind_new tenant_bind_process
bind_process-get_process_tenant_example =
    bind_process-get_process_tenant replies 8 200 handle segment refl (omega arith) 200 2 9 refl

delete-get_process_tenant_example :
    (tenant_get_process_tenant replies 9 100 (tenant_delete replies 8 1 handle).1).0 ≡ (failure, 0)
unfolding bind_locked create_locked new_tenant fresh_segment bind_new tenant_delete delete_locked
    owner_in
delete-get_process_tenant_example =
    delete-get_process_tenant replies 8 100 handle segment refl (omega arith) 1 9 segment-IsRegistry
      refl
