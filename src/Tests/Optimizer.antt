-- ===== src/Tests/Optimizer.antt =====
-- The theorems on src/performance_optimizer.c at a started optimizer.
use rdma_intercept_ldperload.Base.{◌≡◌, refl, arith, true, false, some, List, [], ◌∷◌, ◌+◌, ltb}
use rdma_intercept_ldperload.Shm.{init_segment, shm_get_process_resources}
use rdma_intercept_ldperload.Shm.Init.{init_segment-IsTable}
use rdma_intercept_ldperload.Optimizer.{Optimizer, hash_pid}
use rdma_intercept_ldperload.Optimizer.Cache.{get_cached_resources, update_cached_resources}
use rdma_intercept_ldperload.Optimizer.CacheLaws.{update-get_cached_resources}
use rdma_intercept_ldperload.Optimizer.Batch.{
  flush_batch_buffer, batch_update_resource, put_pending,
}
use rdma_intercept_ldperload.Optimizer.BatchLaws.{IsBatch}
use rdma_intercept_ldperload.Optimizer.WriteBehind.{flush-batch_update}
use rdma_intercept_ldperload.Optimizer.Control.{
  zero_stats, perf_optimizer_init, check_resource_fast, Rates,
}
use rdma_intercept_ldperload.Optimizer.Bounds.{
  SettingCall, set_ttl_call, set_interval_call, round_call,
}
use rdma_intercept_ldperload.Tests.{usage_seven, table, shm_handle}

abbrev off : Optimizer
off = record {
  cache = record { entries = []; hit_count = 0; miss_count = 0; eviction_count = 0; ttl_ms = 100 };
  batch = record {
    pending_updates = [];
    pids = [];
    count = 0;
    last_flush = 0;
    flush_interval_ms = 50;
  };
  stats = zero_stats;
  running = false;
  cache_enabled = true;
  batching_enabled = true;
  shm = shm_handle;
}

abbrev on : Optimizer
on = (perf_optimizer_init 1000 true off).1

-- One record of process 100 is pending.
abbrev one_pending : Optimizer
one_pending = put_pending 0 100 usage_seven 1 on

update-get_cached_resources_example :
    (get_cached_resources 50 100 (update_cached_resources 10 100 (some usage_seven) on)).0
    ≡ some usage_seven
unfolding hash_pid perf_optimizer_init
update-get_cached_resources_example =
    update-get_cached_resources 10 50 100 100 usage_seven on refl refl

on-IsBatch : IsBatch on
unfolding perf_optimizer_init
on-IsBatch = record {
  pids_whole = refl;
  updates_whole = refl;
  count_bound = omega arith;
  unique = λ q. omega arith;
}

flush-batch_update_example :
    shm_get_process_resources 100
      (flush_batch_buffer 20 21 (batch_update_resource 10 11 100 (some usage_seven) on).1).shm
    ≡ some usage_seven
unfolding perf_optimizer_init init_segment
flush-batch_update_example =
    flush-batch_update 10 11 20 21 100 100 usage_seven on table refl (init_segment-IsTable 1)
      on-IsBatch (ground arith) refl refl

abbrev rates : Rates
rates = record { below50 = λ h t. ltb (h + h) t; above90 = λ h t. ltb (t + t) h }

abbrev settings : List SettingCall
settings = set_ttl_call 5 ∷ round_call rates 30 31 99 ∷ set_interval_call 70000 ∷ []

abbrev checked : Optimizer
checked = (check_resource_fast 50 9 100 0 1 1 8 on).1
