-- ===== src/Tests/Collector.antt =====
-- The theorems on the collector at concrete requests.
use rdma_intercept_ldperload.Base.{
  ℕ, ◌≡◌, ◌-◌, ◌^◌, ◌+◌, ◌%◌, ◌<◌, ◌↔◌, true, refl, arith, Option, none, some, List, [], ◌∷◌, leb,
  length,
}
use rdma_intercept_ldperload.Shm.{ResourceUsage}
use rdma_intercept_ldperload.Text.{Bytes, codes}
use rdma_intercept_ldperload.Collector.{Collector, Monitor, initial, buckets}
use rdma_intercept_ldperload.Collector.Table.{
  sync_ebpf_data, get_process_resource_usage, last_entry, sync-get_process_resource_usage,
}
use rdma_intercept_ldperload.Collector.Server.{serve, mr_created}
use rdma_intercept_ldperload.Collector.Client.{
  initial_client, get_stats_request, mr_create_request, check_memory_request,
  collector_check_global_memory_limit, collector_check_global_qp_limit,
}
use rdma_intercept_ldperload.Collector.Limits.{IsBounded, serve_all, serve_all-IsBounded}
use rdma_intercept_ldperload.Collector.Exchange.{
  check_memory-serve, mr_create-wraps, check_global_qp_limit-serve,
}
use rdma_intercept_ldperload.Shm.{shm_get_global_resources}
use rdma_intercept_ldperload.Shm.Invariant.{HasTable}
use rdma_intercept_ldperload.Shm.Init.{init_segment-IsTable}
use rdma_intercept_ldperload.Collector.Shared.{
  sync_ebpf_data_to_shared_memory, sync-get_global_resources,
}
use rdma_intercept_ldperload.Tests.{usage_seven, table, shm_handle}

abbrev quiet : Monitor
quiet = record { processes = none; global = none }

abbrev entries : List (ℕ × ResourceUsage)
entries = (100, usage_seven) ∷ (1124, usage_seven) ∷ []

initial-IsBounded : IsBounded initial
unfolding initial
initial-IsBounded = record {
  qp = omega arith;
  qp_word = omega arith;
  memory = omega arith;
  memory_word = omega arith;
}

abbrev requests : List (Option (List (ℕ × ResourceUsage)) × Bytes)
requests =
    (none, codes "QP_CREATE")
    ∷ (some entries, codes "GET_PROC_STATS:100")
    ∷ (none, codes "MR_CREATE 4096\n")
    ∷ (none, codes "HELLO")
    ∷ []

serve_all-IsBounded_example : IsBounded (serve_all requests initial)
serve_all-IsBounded_example = serve_all-IsBounded requests initial initial-IsBounded

sync-get_process_resource_usage_example :
    (get_process_resource_usage 100
        (sync_ebpf_data
          (record { processes = some entries; global = none })
          initial).process_resources
      ≡ last_entry 100 entries (get_process_resource_usage 100 initial.process_resources))
    × (length
          (sync_ebpf_data
            (record { processes = some entries; global = none })
            initial).process_resources
        ≡ buckets)
unfolding initial
sync-get_process_resource_usage_example =
    sync-get_process_resource_usage entries none 100 initial refl

check_memory-serve_example :
    ((collector_check_global_memory_limit (some (serve quiet (check_memory_request 4096) initial).0)
        ≡ true)
      ↔ (initial.max_global_memory < (initial.global_memory_used + 4096) % 2 ^ 64))
    × ((serve quiet (check_memory_request 4096) initial).1 ≡ initial)
check_memory-serve_example = check_memory-serve quiet 4096 initial (omega arith)

-- A server that counts 4096 bytes.
abbrev counting : Collector
unfolding initial
counting = record initial { global_memory_used = 4096 }

mr_create-wraps_example :
    ((serve quiet (mr_create_request (2 ^ 64 - 4096)) counting).0 ≡ mr_created)
    × ((serve quiet (mr_create_request (2 ^ 64 - 4096)) counting).1.global_memory_used ≡ 0)
unfolding initial
mr_create-wraps_example = mr_create-wraps quiet counting (omega arith) (omega arith)

check_global_qp_limit-serve_example :
    (collector_check_global_qp_limit
      (some (77, (serve quiet get_stats_request initial).0))
      (some (77, (serve quiet get_stats_request initial).0))
      initial_client).0
    ≡ leb 10 0
unfolding initial sync_ebpf_data
check_global_qp_limit-serve_example =
    check_global_qp_limit-serve quiet initial 77 initial_client (omega arith) (omega arith)
      (omega arith)

sync-get_global_resources_example :
    let h' =
      sync_ebpf_data_to_shared_memory
        (some usage_seven)
        (some ((5, (100, usage_seven)) ∷ (6, (0, usage_seven)) ∷ []))
        shm_handle in
    HasTable h' × (shm_get_global_resources h' ≡ some usage_seven)
sync-get_global_resources_example =
    sync-get_global_resources (some usage_seven)
      ((5, (100, usage_seven)) ∷ (6, (0, usage_seven)) ∷ []) shm_handle
      (table, refl, init_segment-IsTable 1)
