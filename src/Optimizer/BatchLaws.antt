-- ===== src/Optimizer/BatchLaws.antt =====
-- src/performance_optimizer.c: the batch buffer as a write-behind of the shared segment.
use rdma_intercept_ldperload.Base.{
  ℕ, zero, suc, ◌+◌, ◌≤◌, ◌<◌, ◌≡◌, refl, sym, subst, ap, ◌∙◌, inl, inr, true, List, [], ◌∷◌, none,
  some, arith, ◌==◌, if◌then◌else◌, length, set, take, find_index?, count, count-set,
  find_index?-count, Bool-cases, Option-cases, int_pos,
}
use rdma_intercept_ldperload.Shm.{
  ResourceUsage, ShmHandle, SharedMemoryData, write_slot, update_process, find_slot, process_usage,
  shm_get_process_resources, shm_update_process_resources,
}
use rdma_intercept_ldperload.Shm.Table.{is_pid, Picks, find_slot-Picks, process_usage-write_slot}
use rdma_intercept_ldperload.Shm.Slots.{find_slot-eq-slot_of}
use rdma_intercept_ldperload.Shm.Invariant.{IsTable, write_slot-IsTable}
use rdma_intercept_ldperload.Optimizer.{Optimizer, cache_bucket_count}
use rdma_intercept_ldperload.Optimizer.Batch.{flush_loop, flush_batch_buffer}

-- The last of the first `n` pending writes for `q`, else `d`.
unfoldable pub latest : ℕ → ℕ → List ℕ → List ResourceUsage → ResourceUsage → ResourceUsage
latest q zero ps us d = d
latest q (suc n) [] us d = d
latest q (suc n) (p ∷ ps) [] d = d
latest q (suc n) (p ∷ ps) (u ∷ us) d = latest q n ps us (if q == p then u else d)

pub latest-push :
    (q n p : ℕ) (u : ResourceUsage) (ps : List ℕ) (us : List ResourceUsage) (d : ResourceUsage)
    → n < length ps
    → n < length us
    → latest q (suc n) (set ps n p) (set us n u) d ≡ (if q == p then u else latest q n ps us d)
unfolding latest
latest-push q zero p u [] us d a b = absurd (omega arith)
latest-push q zero p u (x ∷ ps) [] d a b = absurd (omega arith)
latest-push q zero p u (x ∷ ps) (y ∷ us) d a b = refl
latest-push q (suc n) p u [] us d a b = absurd (omega arith)
latest-push q (suc n) p u (x ∷ ps) [] d a b = absurd (omega arith)
latest-push q (suc n) p u (x ∷ ps) (y ∷ us) d a b =
    latest-push q n p u ps us (if q == x then y else d) (omega arith) (omega arith)

latest-absent :
    (q n : ℕ) (ps : List ℕ) (us : List ResourceUsage) (d : ResourceUsage)
    → count (is_pid q) (take n ps) ≡ 0
    → latest q n ps us d ≡ d
unfolding latest
latest-absent q zero ps us d h = refl
latest-absent q (suc n) [] us d h = refl
latest-absent q (suc n) (p ∷ ps) [] d h = refl
latest-absent q (suc n) (p ∷ ps) (u ∷ us) d h = ground (arith, latest-absent q n ps us d)

pub latest-replace :
    (q n i p : ℕ) (u : ResourceUsage) (ps : List ℕ) (us : List ResourceUsage) (d : ResourceUsage)
    → find_index? (is_pid p) (take n ps) ≡ some i
    → count (is_pid p) (take n ps) ≤ 1
    → n ≤ length us
    → latest q n ps (set us i u) d ≡ (if q == p then u else latest q n ps us d)
unfolding latest
latest-replace q zero i p u ps us d f c l = cc
latest-replace q (suc n) i p u [] us d f c l = cc
latest-replace q (suc n) i p u (x ∷ ps) [] d f c l = absurd (omega arith)
latest-replace q (suc n) zero p u (x ∷ ps) (y ∷ us) d f c l =
    ground (arith, latest-absent p n ps us u)
latest-replace q (suc n) (suc i) p u (x ∷ ps) (y ∷ us) d f c l =
    ground (arith, latest-replace q n i p u ps us (if q == x then y else d))

-- The free slots of the process table.
abbrev pub free_slots : SharedMemoryData → ℕ
free_slots d = count (is_pid 0) d.process_pids

-- What one write does to a sound table with a free slot.
record Written (pid : ℕ) (u : ResourceUsage) (d : SharedMemoryData) (h : ShmHandle) : Type 0 where
  now_holds : SharedMemoryData
  mapped : h.shm_data_ptr ≡ some now_holds
  sound : IsTable now_holds
  free : free_slots d ≤ suc (free_slots now_holds)
  reads :
      (q : ℕ)
      → int_pos q ≡ true
      → process_usage q now_holds ≡ (if q == pid then u else process_usage q d)

free_slots-write_slot :
    (pid k now : ℕ) (u : ResourceUsage) (d : SharedMemoryData)
    → Picks pid d.process_pids k
    → free_slots d ≤ suc (free_slots (write_slot pid u k now d))
unfolding write_slot
free_slots-write_slot pid k now u d c =
    ground (arith, count-set (is_pid 0) d.process_pids k pid 0 c.below)

update-Written :
    (now pid : ℕ) (u : ResourceUsage) (h : ShmHandle) (d : SharedMemoryData)
    → h.shm_data_ptr ≡ some d
    → IsTable d
    → 0 < free_slots d
    → Written pid u d (shm_update_process_resources now pid (some u) h).1
unfolding shm_update_process_resources update_process
update-Written now pid u h d m t room = elim (Bool-cases (int_pos pid)) [
  | inr neg ↦ record {
    now_holds = d;
    mapped = ground arith;
    sound = t;
    free = omega arith;
    reads = λ q pos. ground arith;
  }
  | inl pos ↦ elim (Option-cases (find_slot pid d.process_pids 0 none)) [
    | inl full ↦ absurd (
        ground (
          arith,
          find_slot-eq-slot_of pid d.process_pids,
          find_index?-count (is_pid 0) d.process_pids,
        ))
    | inr (k, e) ↦
        let c : Picks pid d.process_pids k = find_slot-Picks pid d.process_pids k e in
        record {
          now_holds = write_slot pid u k now d;
          mapped = ground arith;
          sound = write_slot-IsTable now pid k u d c t;
          free = free_slots-write_slot pid k now u d c;
          reads = λ q i.
              process_usage-write_slot pid q k now u d (t.stats_whole ∙ sym t.pids_whole) c
                (λ z. ground arith);
        }
  ]
]

-- Flushing writes for every process the last of its pending records, and leaves a sound table.
pub record Flushed (n : ℕ) (ps : List ℕ) (us : List ResourceUsage) (d : SharedMemoryData)
    (h : ShmHandle) : Type 0 where
  pub now_holds : SharedMemoryData
  pub mapped : h.shm_data_ptr ≡ some now_holds
  pub sound : IsTable now_holds
  pub free : free_slots d ≤ n + free_slots now_holds
  pub reads :
      (q : ℕ) → int_pos q ≡ true → process_usage q now_holds ≡ latest q n ps us (process_usage q d)

flush_loop-Flushed :
    (now n : ℕ) (ps : List ℕ) (us : List ResourceUsage) (h : ShmHandle) (d : SharedMemoryData)
    → h.shm_data_ptr ≡ some d
    → IsTable d
    → n ≤ free_slots d
    → Flushed n ps us d (flush_loop now n ps us h)
unfolding flush_loop latest
flush_loop-Flushed now zero ps us h d m t f = record {
  now_holds = d;
  mapped = m;
  sound = t;
  free = omega arith;
  reads = λ q i. refl;
}
flush_loop-Flushed now (suc n) [] us h d m t f = record {
  now_holds = d;
  mapped = m;
  sound = t;
  free = omega arith;
  reads = λ q i. refl;
}
flush_loop-Flushed now (suc n) (p ∷ ps) [] h d m t f = record {
  now_holds = d;
  mapped = m;
  sound = t;
  free = omega arith;
  reads = λ q i. refl;
}
flush_loop-Flushed now (suc n) (p ∷ ps) (u ∷ us) h d m t f =
    let w : Written p u d (shm_update_process_resources now p (some u) h).1 =
      update-Written now p u h d m t (omega arith) in
    let r : Flushed n ps us w.now_holds
        (flush_loop now n ps us (shm_update_process_resources now p (some u) h).1) =
      flush_loop-Flushed now n ps us (shm_update_process_resources now p (some u) h).1 w.now_holds
        w.mapped w.sound (omega (arith, w.free)) in
    record {
      now_holds = r.now_holds;
      mapped = r.mapped;
      sound = r.sound;
      free = omega (arith, r.free, w.free);
      reads = λ q i. r.reads q i ∙ ap (latest q n ps us) (w.reads q i);
    }

-- The buffer is sound: its arrays are whole, and no process has two pending records.
pub record IsBatch (o : Optimizer) : Type 0 where
  pub pids_whole : length o.batch.pids ≡ cache_bucket_count
  pub updates_whole : length o.batch.pending_updates ≡ cache_bucket_count
  pub count_bound : o.batch.count ≤ cache_bucket_count
  pub unique : (q : ℕ) → count (is_pid q) (take o.batch.count o.batch.pids) ≤ 1

-- What a handle shows after a flush, and the buffer that is left.
flush-shm :
    (now_ms now_ns : ℕ) (o : Optimizer)
    → (flush_batch_buffer now_ms now_ns o).shm
      ≡ flush_loop now_ns o.batch.count o.batch.pids o.batch.pending_updates o.shm
unfolding flush_batch_buffer flush_loop
flush-shm now_ms now_ns o = ground arith

pub flush-Flushed :
    (now_ms now_ns : ℕ) (o : Optimizer) (d : SharedMemoryData)
    → o.shm.shm_data_ptr ≡ some d
    → IsTable d
    → o.batch.count ≤ free_slots d
    → Flushed o.batch.count o.batch.pids o.batch.pending_updates d
        (flush_batch_buffer now_ms now_ns o).shm
flush-Flushed now_ms now_ns o d m t f =
    subst (Flushed o.batch.count o.batch.pids o.batch.pending_updates d)
      (sym (flush-shm now_ms now_ns o))
      (flush_loop-Flushed now_ns o.batch.count o.batch.pids o.batch.pending_updates o.shm d m t f)

-- A flush into a sound table with a free slot for each pending record leaves every process with
-- its last pending record, or with the usage it had if none is pending.
pub get-flush_batch_buffer :
    (now_ms now_ns q : ℕ) (o : Optimizer) (d : SharedMemoryData)
    → o.shm.shm_data_ptr ≡ some d
    → IsTable d
    → o.batch.count ≤ free_slots d
    → shm_get_process_resources q (flush_batch_buffer now_ms now_ns o).shm ≡ (
        if int_pos q
        then some (latest q o.batch.count o.batch.pids o.batch.pending_updates (process_usage q d))
        else none)
unfolding shm_get_process_resources
get-flush_batch_buffer now_ms now_ns q o d m t f =
    let r : Flushed o.batch.count o.batch.pids o.batch.pending_updates d
        (flush_batch_buffer now_ms now_ns o).shm =
      flush-Flushed now_ms now_ns o d m t f in
    ground (arith, r.mapped, r.reads q)
