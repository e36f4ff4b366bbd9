-- ===== src/Optimizer/Control.antt =====
-- src/performance_optimizer.c: start and stop, the settings, the fast check and the adjustment.
-- `Rates` stands for the two comparisons of the hit rate, which the code makes in double.
use rdma_intercept_ldperload.Base.{
  ℕ, ◌+◌, ◌-◌, ◌*◌, ◌/◌, ◌^◌, Bool, false, not, ◌&&◌, Option, none, some, u32, u64, ◌==◌, ltb, leb,
  if◌then◌else◌, replicate,
}
use rdma_intercept_ldperload.Shm.{Status, success, failure, ResourceUsage, zero_usage}
use rdma_intercept_ldperload.Optimizer.{OptimizerStats, Optimizer, empty_entry, cache_bucket_count}
use rdma_intercept_ldperload.Optimizer.Cache.{get_cached_resources}
use rdma_intercept_ldperload.Optimizer.Batch.{flush_batch_buffer}

abbrev pub zero_stats : OptimizerStats
zero_stats = record {
  total_operations = 0;
  allowed_operations = 0;
  denied_operations = 0;
  total_latency_ns = 0;
  min_latency_ns = 2 ^ 64 - 1;
  max_latency_ns = 0;
  cache_hits = 0;
  cache_misses = 0;
  batch_flushes = 0;
  batched_updates = 0;
  start_time = 0;
}

-- `started` is whether pthread_create succeeds. The two switches keep their values.
unfoldable pub perf_optimizer_init : ℕ → Bool → Optimizer → Status × Optimizer
perf_optimizer_init now started o = (
  (if started then success else failure),
  record o {
    cache = record {
      entries = replicate cache_bucket_count empty_entry;
      hit_count = 0;
      miss_count = 0;
      eviction_count = 0;
      ttl_ms = 100;
    };
    batch = record {
      pending_updates = replicate cache_bucket_count zero_usage;
      pids = replicate cache_bucket_count 0;
      count = 0;
      last_flush = 0;
      flush_interval_ms = 50;
    };
    stats = record zero_stats { start_time = now };
    running = started;
  },
)

unfoldable pub perf_optimizer_cleanup : ℕ → ℕ → Optimizer → Optimizer
unfolding flush_batch_buffer
perf_optimizer_cleanup now_ms now_ns o =
    flush_batch_buffer now_ms now_ns (record o { running = false })

abbrev pub clamp : ℕ → ℕ → ℕ → ℕ
clamp lo hi x = let y = if ltb x lo then lo else x in if ltb hi y then hi else y

unfoldable pub set_cache_ttl : ℕ → Optimizer → Optimizer
set_cache_ttl ttl_ms o = record o { cache = record (o.cache) { ttl_ms = clamp 10 10000 ttl_ms } }

unfoldable pub set_batch_interval : ℕ → Optimizer → Optimizer
set_batch_interval interval_ms o = record o {
  batch = record (o.batch) { flush_interval_ms = clamp 10 1000 interval_ms };
}

unfoldable pub enable_cache : Bool → Optimizer → Optimizer
enable_cache enable o = record o { cache_enabled = enable }

unfoldable pub enable_batching : Bool → Optimizer → Optimizer
enable_batching enable o = record o { batching_enabled = enable }

unfoldable pub reset_stats : ℕ → Optimizer → Optimizer
reset_stats now o = record o {
  stats = record zero_stats { start_time = now };
  cache = record (o.cache) { hit_count = 0; miss_count = 0; eviction_count = 0 };
}

-- The usage that the check starts from: the cached one on a hit, for the types 0 QP, 1 MR and
-- 2 memory in megabytes.
unfoldable pub actual_current : ℕ → ℕ → Option ResourceUsage → ℕ
actual_current resource_type current none = current
actual_current resource_type current (some u) =
    if resource_type == 0
    then u.qp_count
    else if resource_type == 1
    then u.mr_count
    else if resource_type == 2
    then u32 (u.memory_used / (1024 * 1024))
    else current

unfoldable pub note_check : ℕ → Bool → OptimizerStats → OptimizerStats
note_check latency allowed st = record st {
  total_latency_ns = u64 (st.total_latency_ns + latency);
  min_latency_ns = if ltb latency st.min_latency_ns then latency else st.min_latency_ns;
  max_latency_ns = if ltb st.max_latency_ns latency then latency else st.max_latency_ns;
  allowed_operations = if allowed then u64 (st.allowed_operations + 1) else st.allowed_operations;
  denied_operations = if allowed then st.denied_operations else u64 (st.denied_operations + 1);
}

-- `latency` is the difference of the two clock readings.
unfoldable pub check_resource_fast : ℕ → ℕ → ℕ → ℕ → ℕ → ℕ → ℕ → Optimizer → Bool × Optimizer
unfolding actual_current note_check get_cached_resources
check_resource_fast now_ms latency pid resource_type current requested limit o =
    let counted = record o {
      stats = record (o.stats) { total_operations = u64 (o.stats.total_operations + 1) };
    } in
    let (cached, o') = get_cached_resources now_ms pid counted in
    let allowed = leb (u32 (actual_current resource_type current cached + requested)) limit in
    (allowed, record o' { stats = note_check latency allowed o'.stats })

pub record Rates : Type 0 where
  pub below50 : ℕ → ℕ → Bool
  pub above90 : ℕ → ℕ → Bool

unfoldable pub adaptive_adjust : Rates → Optimizer → Optimizer
adaptive_adjust r o =
    let hits = o.stats.cache_hits in
    let total = u64 (hits + o.stats.cache_misses) in
    let ttl = o.cache.ttl_ms in
    if ltb total 100
    then o
    else if r.below50 hits total && ltb 50 ttl
    then record o { cache = record (o.cache) { ttl_ms = ttl - 10 } }
    else if r.above90 hits total && ltb ttl 500
    then record o { cache = record (o.cache) { ttl_ms = ttl + 10 } }
    else o

-- One round of the flush thread after its sleep, with the static round counter.
unfoldable pub flush_round : Rates → ℕ → ℕ → ℕ → Optimizer → ℕ × Optimizer
unfolding flush_batch_buffer adaptive_adjust
flush_round r now_ms now_ns adaptive_counter o =
    if not o.running
    then (adaptive_counter, o)
    else (let o' = if o.batching_enabled then flush_batch_buffer now_ms now_ns o else o in
        if leb 100 (adaptive_counter + 1)
        then (0, adaptive_adjust r o')
        else (adaptive_counter + 1, o'))
