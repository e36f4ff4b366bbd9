-- ===== src/Optimizer/Batch.antt =====
-- src/performance_optimizer.c: the batch of pending writes to the shared segment.
use rdma_intercept_ldperload.Base.{
  ℕ, zero, suc, ◌+◌, not, List, [], ◌∷◌, Option, none, some, u64, ◌==◌, ltb, if◌then◌else◌, set,
  take, find_index?,
}
use rdma_intercept_ldperload.Shm.{
  Status, success, ResourceUsage, ShmHandle, shm_update_process_resources,
}
use rdma_intercept_ldperload.Optimizer.{Optimizer, cache_bucket_count}
use rdma_intercept_ldperload.Optimizer.Cache.{update_cached_resources}

-- The loop of the flush over the first `n` entries; refused writes are dropped.
unfoldable pub flush_loop : ℕ → ℕ → List ℕ → List ResourceUsage → ShmHandle → ShmHandle
flush_loop now_ns zero ps us h = h
flush_loop now_ns (suc n) [] us h = h
flush_loop now_ns (suc n) (p ∷ ps) [] h = h
flush_loop now_ns (suc n) (p ∷ ps) (u ∷ us) h =
    flush_loop now_ns n ps us (shm_update_process_resources now_ns p (some u) h).1

unfoldable pub flush_batch_buffer : ℕ → ℕ → Optimizer → Optimizer
unfolding flush_loop
flush_batch_buffer now_ms now_ns o = if o.batch.count == 0 then o else record o {
  shm = flush_loop now_ns o.batch.count o.batch.pids o.batch.pending_updates o.shm;
  batch = record (o.batch) { count = 0; last_flush = now_ms };
  stats = record (o.stats) { batch_flushes = u64 (o.stats.batch_flushes + 1) };
}

abbrev pub put_pending : ℕ → ℕ → ResourceUsage → ℕ → Optimizer → Optimizer
put_pending i pid usage n o = record o {
  batch = record (o.batch) {
    pids = set o.batch.pids i pid;
    pending_updates = set o.batch.pending_updates i usage;
    count = n;
  };
}

-- Where the write goes: over the pid's entry, behind the last one, or into a flushed buffer.
unfoldable pub enqueue : ℕ → ℕ → ℕ → ResourceUsage → Optimizer → Optimizer
unfolding flush_batch_buffer
enqueue now_ms now_ns pid usage o =
    elim (find_index? (λ p. p == pid) (take o.batch.count o.batch.pids)) [
      | some i ↦ record o {
        batch = record (o.batch) { pending_updates = set o.batch.pending_updates i usage };
      }
      | none ↦
          if ltb o.batch.count cache_bucket_count
          then put_pending o.batch.count pid usage (o.batch.count + 1) o
          else put_pending 0 pid usage 1 (flush_batch_buffer now_ms now_ns o)
    ]

abbrev pub count_batched : Optimizer → Optimizer
count_batched o = record o {
  stats = record (o.stats) { batched_updates = u64 (o.stats.batched_updates + 1) };
}

abbrev pub write_through : ℕ → ℕ → Option ResourceUsage → Optimizer → Status × Optimizer
write_through now_ns pid usage o =
    let (answer, h) = shm_update_process_resources now_ns pid usage o.shm in
    (answer, record o { shm = h })

unfoldable pub batch_update_resource :
    ℕ → ℕ → ℕ → Option ResourceUsage → Optimizer → Status × Optimizer
unfolding enqueue update_cached_resources
batch_update_resource now_ms now_ns pid none o = write_through now_ns pid none o
batch_update_resource now_ms now_ns pid (some usage) o =
    if not o.batching_enabled then write_through now_ns pid (some usage) o else (
      success,
      count_batched
          (update_cached_resources now_ms pid (some usage) (enqueue now_ms now_ns pid usage o)),
    )
