-- ===== src/Tests/Tenant.antt =====
-- The theorems on the tenants of src/shm/shared_memory_tenant.c at concrete segments.
use rdma_intercept_ldperload.Base.{
  ℕ, ◌≡◌, ◌↔◌, refl, arith, true, false, none, some, List, [], ◌∷◌, ◌-◌, ◌^◌,
}
use rdma_intercept_ldperload.Tenant.{
  TenantShm, TenantHandle, TenantUsage, suspended, zero_tenant_usage, is_active,
}
use rdma_intercept_ldperload.Tenant.Segment.{TenantReplies, fresh_segment}
use rdma_intercept_ldperload.Tenant.Lifecycle.{tenant_at, new_tenant, create_locked}
use rdma_intercept_ldperload.Tenant.Binding.{bind_locked, bind_new}
use rdma_intercept_ldperload.Tenant.Usage.{tenant_check_resource_limit, update_usage_locked}
use rdma_intercept_ldperload.Tenant.Registry.{HasRegistry}
use rdma_intercept_ldperload.Tenant.Registry.History.{
  TenantCall, create_call, delete_call, bind_call, unbind_call, set_status_call, run,
  run-HasRegistry,
}
use rdma_intercept_ldperload.Tenant.Limits.{
  check_resource_limit-Fits, check_resource_limit-wraps, Fits, meter,
}
use rdma_intercept_ldperload.Tests.{segment, segment-IsRegistry, handle, replies}

abbrev calls : List (ℕ × TenantCall)
calls =
    (8, create_call 3 none none)
    ∷ (9, bind_call 200 3)
    ∷ (10, set_status_call 1 suspended)
    ∷ (11, unbind_call 100 0)
    ∷ (12, delete_call 3)
    ∷ []

run-HasRegistry_example : HasRegistry (run replies calls handle)
run-HasRegistry_example =
    run-HasRegistry replies calls handle
      (tt, (omega arith, ((λ e. ground arith), (omega arith, (tt, tt)))))
      (segment, refl, segment-IsRegistry)

abbrev new_replies : TenantReplies
new_replies = record replies { mapped = some (record segment { version = 0 }) }

check_resource_limit-Fits_example :
    ((tenant_check_resource_limit replies 8 1 0 100 handle).0 ≡ false)
    ↔ ((is_active (tenant_at segment 1).status ≡ true) × Fits 100 (meter 0 (tenant_at segment 1)))
unfolding bind_locked create_locked new_tenant fresh_segment bind_new
check_resource_limit-Fits_example =
    check_resource_limit-Fits replies 8 1 handle segment refl (omega arith) 0 100 (ground arith)

-- The segment with one queue pair charged to tenant 1.
abbrev charged_segment : TenantShm
charged_segment = (update_usage_locked 7 1 (record zero_tenant_usage { qp_count = 1 }) segment).1

abbrev charged_handle : TenantHandle
charged_handle = record { g_tenant_shm_fd = some 4; g_tenant_shm = some charged_segment }

check_resource_limit-wraps_example :
    (tenant_check_resource_limit replies 8 1 0 (2 ^ 32 - 1) charged_handle).0 ≡ false
unfolding update_usage_locked bind_locked create_locked new_tenant fresh_segment bind_new
check_resource_limit-wraps_example =
    check_resource_limit-wraps replies 8 1 charged_handle charged_segment refl (omega arith) 1 refl
      refl (omega arith) (omega arith)

abbrev usage_five : TenantUsage
usage_five = record zero_tenant_usage { qp_count = 5 }
