-- ===== src/Optimizer/Bounds.antt =====
-- src/performance_optimizer.c: the settings, the counters and the answer of the fast check.
use rdma_intercept_ldperload.Base.{
  get_or-set_self, ℕ, ◌+◌, ◌-◌, ◌≤◌, ◌≡◌, Bool, true, List, [], ◌∷◌, some, arith, u32, u64, leb,
  length, ◌^◌,
}
use rdma_intercept_ldperload.Shm.{ResourceUsage}
use rdma_intercept_ldperload.Optimizer.{Optimizer, empty_entry, cache_bucket_count, hash_pid}
use rdma_intercept_ldperload.Optimizer.Cache.{get_cached_resources, update_cached_resources}
use rdma_intercept_ldperload.Optimizer.CacheLaws.{hash_pid-bound}
use rdma_intercept_ldperload.Optimizer.Batch.{flush_batch_buffer}
use rdma_intercept_ldperload.Optimizer.Control.{
  set_cache_ttl, set_batch_interval, adaptive_adjust, flush_round, check_resource_fast,
  actual_current, note_check, Rates, perf_optimizer_init,
}

-- The calls that reach the settings.
pub data SettingCall : Type 0 where
  set_ttl_call : ℕ → SettingCall
  set_interval_call : ℕ → SettingCall
  round_call : Rates → ℕ → ℕ → ℕ → SettingCall

pub step : SettingCall → Optimizer → Optimizer
step (set_ttl_call n) o = set_cache_ttl n o
step (set_interval_call n) o = set_batch_interval n o
step (round_call r now_ms now_ns k) o = (flush_round r now_ms now_ns k o).1

pub run : List SettingCall → Optimizer → Optimizer
run [] o = o
run (c ∷ cs) o = run cs (step c o)

-- The time to live and the flush interval are in the ranges that the code names.
pub record InRange (o : Optimizer) : Type 0 where
  pub ttl_low : 10 ≤ o.cache.ttl_ms
  pub ttl_high : o.cache.ttl_ms ≤ 10000
  pub interval_low : 10 ≤ o.batch.flush_interval_ms
  pub interval_high : o.batch.flush_interval_ms ≤ 1000

step-InRange : (c : SettingCall) (o : Optimizer) → InRange o → InRange (step c o)
unfolding step set_cache_ttl set_batch_interval flush_round adaptive_adjust flush_batch_buffer
step-InRange (set_ttl_call n) o i = record {
  ttl_low = ground arith;
  ttl_high = ground arith;
  interval_low = i.interval_low;
  interval_high = i.interval_high;
}
step-InRange (set_interval_call n) o i = record {
  ttl_low = i.ttl_low;
  ttl_high = i.ttl_high;
  interval_low = ground arith;
  interval_high = ground arith;
}
step-InRange (round_call r now_ms now_ns k) o i = record {
  ttl_low = ground (arith, i.ttl_low);
  ttl_high = ground (arith, i.ttl_high);
  interval_low = ground (arith, i.interval_low);
  interval_high = ground (arith, i.interval_high);
}

run-kept : (cs : List SettingCall) (o : Optimizer) → InRange o → InRange (run cs o)
unfolding run
run-kept [] o i = i
run-kept (c ∷ cs) o i = run-kept cs (step c o) (step-InRange c o i)

-- From a state that `perf_optimizer_init` leaves, no order of setting calls and rounds of the flush
-- thread takes the time to live out of 10..10000 ms or the flush interval out of 10..1000 ms.
pub run-InRange :
    (cs : List SettingCall) (now : ℕ) (started : Bool) (o : Optimizer)
    → InRange (run cs (perf_optimizer_init now started o).1)
unfolding perf_optimizer_init
run-InRange cs now started o = run-kept cs (perf_optimizer_init now started o).1 (record {
  ttl_low = omega arith;
  ttl_high = omega arith;
  interval_low = omega arith;
  interval_high = omega arith;
})

-- A check counts one operation, and exactly one of allowed and denied with it: the totals agree
-- after it, modulo 2^64, if they did before.
pub check_resource_fast-counts :
    (now_ms latency pid resource_type current requested limit : ℕ) (o : Optimizer)
    → o.stats.total_operations ≡ u64 (o.stats.allowed_operations + o.stats.denied_operations)
    → (check_resource_fast now_ms latency pid resource_type current requested limit
        o).1.stats.total_operations
      ≡ u64 (
          (check_resource_fast now_ms latency pid resource_type current requested limit
            o).1.stats.allowed_operations
          + (check_resource_fast now_ms latency pid resource_type current requested limit
              o).1.stats.denied_operations)
unfolding check_resource_fast note_check get_cached_resources
check_resource_fast-counts now_ms latency pid resource_type current requested limit o h =
    ground arith

-- While a stored record is in its time to live, a check of queue pairs for its process goes by the
-- record and not by the caller's count; it adds the request as uint32_t.
pub update-check_resource_fast :
    (now_ms later latency pid current requested limit : ℕ) (u : ResourceUsage) (o : Optimizer)
    → o.cache_enabled ≡ true
    → length o.cache.entries ≡ cache_bucket_count
    → u64 (later + 2 ^ 64 - now_ms) ≤ o.cache.ttl_ms
    → (check_resource_fast later latency pid 0 current requested limit
        (update_cached_resources now_ms pid (some u) o)).0
      ≡ leb (u32 (u.qp_count + requested)) limit
unfolding check_resource_fast actual_current get_cached_resources update_cached_resources
update-check_resource_fast now_ms later latency pid current requested limit u o on whole young =
    ground (
      arith,
      hash_pid-bound pid,
      get_or-set_self o.cache.entries (hash_pid pid)
          (record { pid = pid; usage = u; last_update = now_ms; valid = true }) empty_entry,
    )
