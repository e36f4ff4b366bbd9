-- ===== src/Optimizer/WriteBehind.antt =====
-- src/performance_optimizer.c: a batched write against a direct one.
use rdma_intercept_ldperload.Base.{
  ℕ, ◌+◌, ◌<◌, ◌≡◌, ap, ◌∙◌, inl, inr, true, false, none, some, arith, ◌==◌, ltb, if◌then◌else◌,
  set, take, find_index?, Bool-cases, Option-cases, int_pos,
}
use rdma_intercept_ldperload.Shm.{
  ResourceUsage, SharedMemoryData, process_usage, shm_get_process_resources,
}
use rdma_intercept_ldperload.Shm.Table.{is_pid}
use rdma_intercept_ldperload.Shm.Invariant.{IsTable}
use rdma_intercept_ldperload.Optimizer.{Optimizer, cache_bucket_count}
use rdma_intercept_ldperload.Optimizer.Cache.{update_cached_resources}
use rdma_intercept_ldperload.Optimizer.Batch.{
  flush_batch_buffer, enqueue, batch_update_resource, put_pending,
}
use rdma_intercept_ldperload.Optimizer.BatchLaws.{
  IsBatch, latest, latest-push, latest-replace, free_slots, get-flush_batch_buffer, Flushed,
  flush-Flushed,
}

-- A flush leaves the arrays of the buffer.
flush_keeps :
    (now_ms now_ns : ℕ) (o : Optimizer)
    → ((flush_batch_buffer now_ms now_ns o).batch.pids ≡ o.batch.pids)
      × ((flush_batch_buffer now_ms now_ns o).batch.pending_updates ≡ o.batch.pending_updates)
unfolding flush_batch_buffer
flush_keeps now_ms now_ns o = (ground arith, ground arith)

-- Neither the cache nor the counters matter to a flush.
flush-batch_update_resource :
    (now_ms now_ns later_ms later_ns pid : ℕ) (u : ResourceUsage) (o : Optimizer)
    → o.batching_enabled ≡ true
    → (flush_batch_buffer later_ms later_ns
        (batch_update_resource now_ms now_ns pid (some u) o).1).shm
      ≡ (flush_batch_buffer later_ms later_ns (enqueue now_ms now_ns pid u o)).shm
unfolding flush_batch_buffer batch_update_resource update_cached_resources
flush-batch_update_resource now_ms now_ns later_ms later_ns pid u o on = ground arith

module _ (now_ms now_ns later_ms later_ns pid q : ℕ) (u : ResourceUsage) (o : Optimizer)
    (d : SharedMemoryData) (m : o.shm.shm_data_ptr ≡ some d) (t : IsTable d) (b : IsBatch o)
    (f : o.batch.count < free_slots d) (pos : int_pos q ≡ true) where
  abbrev pending : ResourceUsage
  pending = latest q o.batch.count o.batch.pids o.batch.pending_updates (process_usage q d)

  flush_twice :
      o.batch.count ≡ cache_bucket_count
      → shm_get_process_resources q
          (flush_batch_buffer later_ms later_ns
            (put_pending 0 pid u 1 (flush_batch_buffer now_ms now_ns o))).shm
        ≡ some (if q == pid then u else pending)
  unfolding latest
  flush_twice full =
      let o' : Optimizer = flush_batch_buffer now_ms now_ns o in
      let r : Flushed o.batch.count o.batch.pids o.batch.pending_updates d o'.shm =
        flush-Flushed now_ms now_ns o d m t (omega arith) in
      let last : latest q 1 (set o'.batch.pids 0 pid) (set o'.batch.pending_updates 0 u)
            (process_usage q r.now_holds)
          ≡ (if q == pid then u else process_usage q r.now_holds) =
        latest-push q 0 pid u o'.batch.pids o'.batch.pending_updates (process_usage q r.now_holds)
          (ground (arith, (flush_keeps now_ms now_ns o).0, b.pids_whole))
          (ground (arith, (flush_keeps now_ms now_ns o).1, b.updates_whole)) in
      let read : shm_get_process_resources q
            (flush_batch_buffer later_ms later_ns (put_pending 0 pid u 1 o')).shm
          ≡ (if int_pos q
              then some (
                  latest q 1 (set o'.batch.pids 0 pid) (set o'.batch.pending_updates 0 u)
                    (process_usage q r.now_holds))
              else none) =
        get-flush_batch_buffer later_ms later_ns q (put_pending 0 pid u 1 o') r.now_holds r.mapped
          r.sound (omega (arith, r.free)) in
      ground (arith, read, last, r.reads q pos, f)

  enqueue_full :
      find_index? (is_pid pid) (take o.batch.count o.batch.pids) ≡ none
      → ltb o.batch.count cache_bucket_count ≡ false
      → enqueue now_ms now_ns pid u o ≡ put_pending 0 pid u 1 (flush_batch_buffer now_ms now_ns o)
  unfolding enqueue
  enqueue_full e full = ground arith

  flush-enqueue :
      shm_get_process_resources q
        (flush_batch_buffer later_ms later_ns (enqueue now_ms now_ns pid u o)).shm
      ≡ some (if q == pid then u else pending)
  unfolding enqueue
  flush-enqueue = elim (Option-cases (find_index? (is_pid pid) (take o.batch.count o.batch.pids))) [
    | inr (i, e) ↦
        let o' : Optimizer = record o {
          batch = record (o.batch) { pending_updates = set o.batch.pending_updates i u };
        } in
        ground (
          arith,
          get-flush_batch_buffer later_ms later_ns q o' d m t (omega arith),
          latest-replace q o.batch.count i pid u o.batch.pids o.batch.pending_updates
              (process_usage q d) e,
          b.unique pid,
          b.updates_whole,
          b.count_bound,
        )
    | inl e ↦ elim (Bool-cases (ltb o.batch.count cache_bucket_count)) [
      | inl room ↦ ground (
        arith,
        get-flush_batch_buffer later_ms later_ns q
            (put_pending o.batch.count pid u (o.batch.count + 1) o) d m t (omega arith),
        latest-push q o.batch.count pid u o.batch.pids o.batch.pending_updates (process_usage q d),
        b.pids_whole,
        b.updates_whole,
      )
      | inr full ↦
          ap (λ x. shm_get_process_resources q (flush_batch_buffer later_ms later_ns x).shm)
            (enqueue_full e full)
          ∙ flush_twice (ground (arith, b.count_bound))
    ]
  ]

-- Batching is write-behind: where the batch is on and the table has a free slot for every pending
-- record and one more, a flush after `batch_update_resource` leaves the process with the new
-- record and every other process as a flush without the call would.
pub flush-batch_update :
    (now_ms now_ns later_ms later_ns pid q : ℕ) (u : ResourceUsage) (o : Optimizer)
    (d : SharedMemoryData)
    → o.shm.shm_data_ptr ≡ some d
    → IsTable d
    → IsBatch o
    → o.batch.count < free_slots d
    → int_pos q ≡ true
    → o.batching_enabled ≡ true
    → shm_get_process_resources q
        (flush_batch_buffer later_ms later_ns
          (batch_update_resource now_ms now_ns pid (some u) o).1).shm
      ≡ (if q == pid
          then some u
          else shm_get_process_resources q (flush_batch_buffer later_ms later_ns o).shm)
flush-batch_update now_ms now_ns later_ms later_ns pid q u o d m t b f pos on = ground (
  arith,
  flush-batch_update_resource now_ms now_ns later_ms later_ns pid u o on,
  flush-enqueue now_ms now_ns later_ms later_ns pid q u o d m t b f pos,
  get-flush_batch_buffer later_ms later_ns q o d m t (omega arith),
)
