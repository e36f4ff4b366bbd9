-- ===== src/Optimizer.antt =====
-- include/performance_optimizer.h and src/performance_optimizer.c: the usage cache and the batch of
-- pending writes before the shared segment. The locks protect single calls, which are the steps of
-- the model; clocks are arguments.
pub mod Cache
pub mod Batch
pub mod Control
pub mod CacheLaws
pub mod BatchLaws
pub mod WriteBehind
pub mod Bounds
use rdma_intercept_ldperload.Base.{
  ℕ, ◌+◌, ◌-◌, ◌*◌, ◌%◌, ◌^◌, Bool, true, false, List, u32, replicate,
}
use rdma_intercept_ldperload.Shm.{ResourceUsage, ShmHandle, zero_usage}

abbrev pub cache_bucket_count : ℕ
cache_bucket_count = 256

-- `cache_entry_t`.
pub record CacheEntry : Type 0 where
  pub pid : ℕ
  pub usage : ResourceUsage
  pub last_update : ℕ
  pub valid : Bool

-- `resource_cache_t`.
pub record ResourceCache : Type 0 where
  pub entries : List CacheEntry
  pub hit_count : ℕ
  pub miss_count : ℕ
  pub eviction_count : ℕ
  pub ttl_ms : ℕ

-- `batch_buffer_t`.
pub record BatchBuffer : Type 0 where
  pub pending_updates : List ResourceUsage
  pub pids : List ℕ
  pub count : ℕ
  pub last_flush : ℕ
  pub flush_interval_ms : ℕ

-- The fields of `perf_optimizer_stats_t` that the file counts in.
pub record OptimizerStats : Type 0 where
  pub total_operations : ℕ
  pub allowed_operations : ℕ
  pub denied_operations : ℕ
  pub total_latency_ns : ℕ
  pub min_latency_ns : ℕ
  pub max_latency_ns : ℕ
  pub cache_hits : ℕ
  pub cache_misses : ℕ
  pub batch_flushes : ℕ
  pub batched_updates : ℕ
  pub start_time : ℕ

-- The file's variables, and the handle of the segment that it writes.
pub record Optimizer : Type 0 where
  pub cache : ResourceCache
  pub batch : BatchBuffer
  pub stats : OptimizerStats
  pub running : Bool
  pub cache_enabled : Bool
  pub batching_enabled : Bool
  pub shm : ShmHandle

abbrev pub empty_entry : CacheEntry
empty_entry = record { pid = 0; usage = zero_usage; last_update = 0; valid = false }

-- The bucket of a pid.
unfoldable pub hash_pid : ℕ → ℕ
hash_pid pid = u32 (pid * 2654435761) % cache_bucket_count
