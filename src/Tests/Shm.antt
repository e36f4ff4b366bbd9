-- ===== src/Tests/Shm.antt =====
-- The theorems on src/shm/shared_memory.c at concrete segments.
use rdma_intercept_ldperload.Base.{ℕ, ◌≡◌, refl, true, false, none, some, List, [], ◌∷◌}
use rdma_intercept_ldperload.Shm.{
  success, ShmReplies, init_segment, write_slot, zero_usage, looks_new, shm_init, find_slot,
  update_process, shm_update_process_resources, shm_get_process_resources,
}
use rdma_intercept_ldperload.Shm.Table.{get-update_process_resources}
use rdma_intercept_ldperload.Shm.Invariant.{
  ShmCall, update_process_call, update_global_call, set_limits_call, HasTable, run, run-HasTable,
}
use rdma_intercept_ldperload.Shm.Init.{init_segment-IsTable, shm_init-attach}
use rdma_intercept_ldperload.Tests.{usage_seven, table, busy_table, shm_handle, shm_closed}

get-update_process_resources_example :
    shm_get_process_resources 100
      (shm_update_process_resources 2 100 (some usage_seven) shm_handle).1
    ≡ some usage_seven
unfolding init_segment shm_update_process_resources update_process find_slot
get-update_process_resources_example =
    get-update_process_resources 2 100 100 usage_seven shm_handle table refl refl refl

abbrev writes : List (ℕ × ShmCall)
writes =
    (2, update_process_call 100 usage_seven)
    ∷ (3, update_process_call 200 zero_usage)
    ∷ (4, update_global_call usage_seven)
    ∷ (5, set_limits_call 10 10 4096)
    ∷ (6, update_process_call 100 zero_usage)
    ∷ []

run-HasTable_example : HasTable (run writes shm_handle)
run-HasTable_example = run-HasTable writes shm_handle (table, refl, init_segment-IsTable 1)

-- A segment whose global statistics are zero although process 100 has published its usage.
abbrev granted : ShmReplies
granted = record { opened = some 3; truncated = true; mapped = some busy_table; now = 9 }

shm_init-attach_example :
    ((shm_init granted shm_closed).0 ≡ success)
    × (shm_get_process_resources 100 (shm_init granted shm_closed).1 ≡ some zero_usage)
unfolding looks_new init_segment write_slot
shm_init-attach_example = shm_init-attach granted shm_closed refl refl refl 100

abbrev refused : ShmReplies
refused = record { opened = some 3; truncated = false; mapped = none; now = 9 }
