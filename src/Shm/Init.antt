-- ===== src/Shm/Init.antt =====
-- Attaching to the segment of src/shm/shared_memory.c.
use rdma_intercept_ldperload.Base.{
  ℕ, ◌≡◌, true, false, none, some, arith, ◌&&◌, ◌==◌, if◌then◌else◌, int_pos, length-replicate,
  count-replicate, replicate, get_or-replicate, find_index?, Option-cases, inl, inr, Bool-cases,
  ◌⊎◌, ◌↔◌,
}
use rdma_intercept_ldperload.Shm.{
  success, failure, SharedMemoryData, ShmHandle, ShmReplies, zero_usage, looks_new, init_segment,
  shm_init, process_usage, shm_get_process_resources, max_processes,
}
use rdma_intercept_ldperload.Shm.Table.{is_pid}
use rdma_intercept_ldperload.Shm.Invariant.{IsTable, HasTable}

init_segment-usage : (q now : ℕ) → process_usage q (init_segment now) ≡ zero_usage
unfolding process_usage init_segment
init_segment-usage q now =
    elim (Option-cases (find_index? (is_pid q) (replicate max_processes 0))) [
      | inl e ↦ ground arith
      | inr (i, e) ↦ ground (arith, get_or-replicate max_processes i zero_usage)
    ]

pub init_segment-IsTable : (now : ℕ) → IsTable (init_segment now)
unfolding init_segment
init_segment-IsTable now = record {
  stats_whole = length-replicate max_processes zero_usage;
  pids_whole = length-replicate {A = ℕ} max_processes 0;
  unique = λ q h. ground (arith, count-replicate (is_pid q) max_processes 0);
}

module _ (r : ShmReplies) (h : ShmHandle) {fd : ℕ} {d : SharedMemoryData}
    (opened : r.opened ≡ some fd) (truncated : r.truncated ≡ true)
    (mapped : r.mapped ≡ some d) where
  -- When the kernel grants all three calls, `shm_init` succeeds, and what is then read of a process,
  -- whose pid is positive, is what the segment held, unless its global statistics are all zero: then
  -- every process's usage is zero, whatever the process table of the segment held.
  pub shm_init-attach :
      (q : ℕ)
      → ((shm_init r h).0 ≡ success)
        × (shm_get_process_resources q (shm_init r h).1 ≡ (
            if int_pos q
            then some (
                if d.global_stats.qp_count == 0
                  && d.global_stats.mr_count == 0
                  && d.global_stats.memory_used == 0
                then record { qp_count = 0; mr_count = 0; memory_used = 0 }
                else process_usage q d)
            else none))
  unfolding shm_init shm_get_process_resources looks_new
  shm_init-attach q = (ground arith, ground (arith, init_segment-usage q r.now))

  -- The handle has a sound table after a granted `shm_init`, if a segment that is not taken for new
  -- had one.
  pub shm_init-HasTable : (looks_new d ≡ false → IsTable d) → HasTable (shm_init r h).1
  unfolding shm_init
  shm_init-HasTable t = elim (Bool-cases (looks_new d)) [
    | inl new ↦ (init_segment r.now, ground arith, init_segment-IsTable r.now)
    | inr old ↦ (d, ground arith, t old)
  ]

-- `shm_init` reports -1 exactly when one of shm_open, ftruncate and mmap fails.
pub shm_init-failure :
    (r : ShmReplies) (h : ShmHandle)
    → ((shm_init r h).0 ≡ failure) ↔ ((r.opened ≡ none) ⊎ (r.truncated ≡ false) ⊎ (r.mapped ≡ none))
unfolding shm_init
shm_init-failure r h = (λ e. ground arith, λ e. ground arith)

-- After an attachment that fails no descriptor is left; the old mapping stays where mmap was not
-- reached, and is gone where mmap failed.
pub shm_init-cleanup :
    (r : ShmReplies) (h : ShmHandle)
    → (shm_init r h).0 ≡ failure
    → ((shm_init r h).1.shm_fd ≡ none)
      × ((((r.opened ≡ none) ⊎ (r.truncated ≡ false))
            × ((shm_init r h).1.shm_data_ptr ≡ h.shm_data_ptr))
          ⊎ ((r.mapped ≡ none) × ((shm_init r h).1.shm_data_ptr ≡ none)))
unfolding shm_init
shm_init-cleanup r h e = elim (Option-cases r.opened) [
  | inl closed ↦ (ground arith, inl (inl closed, ground arith))
  | inr (fd, o) ↦ elim (Bool-cases r.truncated) [
    | inr short ↦ (ground arith, inl (inr short, ground arith))
    | inl long ↦ (ground arith, inr (ground arith, ground arith))
  ]
]
