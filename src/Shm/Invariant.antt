-- ===== src/Shm/Invariant.antt =====
-- The process table of src/shm/shared_memory.c under any history of writes.
use rdma_intercept_ldperload.Base.{
  ℕ, ◌≤◌, ◌≡◌, ◌∙◌, ◌≢◌, inl, inr, List, [], ◌∷◌, none, some, arith, ◌==◌, Bool-cases, Option-cases,
  length, length-set, count, count-set, int_pos, find_index?-get_or, find_index?-count,
}
use rdma_intercept_ldperload.Shm.{
  bump_version, SharedMemoryData, ShmHandle, ResourceUsage, find_slot, write_slot, update_process,
  shm_update_process_resources, shm_update_global_resources, shm_set_global_limits, max_processes,
}
use rdma_intercept_ldperload.Shm.Table.{is_pid, Picks, find_slot-Picks, claim}

-- The table is sound: both arrays are whole, and no process has two entries.
pub record IsTable (d : SharedMemoryData) : Type 0 where
  pub stats_whole : length d.process_stats ≡ max_processes
  pub pids_whole : length d.process_pids ≡ max_processes
  pub unique : (q : ℕ) → q ≢ 0 → count (is_pid q) d.process_pids ≤ 1

-- The calls that write to a mapped segment.
pub data ShmCall : Type 0 where
  update_process_call : ℕ → ResourceUsage → ShmCall
  update_global_call : ResourceUsage → ShmCall
  set_limits_call : ℕ → ℕ → ℕ → ShmCall

pub step : ℕ → ShmCall → ShmHandle → ShmHandle
step now (update_process_call pid u) h = (shm_update_process_resources now pid (some u) h).1
step now (update_global_call u) h = (shm_update_global_resources now (some u) h).1
step now (set_limits_call q m b) h = (shm_set_global_limits q m b h).1

pub run : List (ℕ × ShmCall) → ShmHandle → ShmHandle
run [] h = h
run ((now, c) ∷ cs) h = run cs (step now c h)

abbrev pub HasTable : ShmHandle → Type 0
HasTable h = (d : SharedMemoryData) × (h.shm_data_ptr ≡ some d) × IsTable d

count-claim :
    (pid q k : ℕ) (ps : List ℕ)
    → Picks pid ps k
    → q ≢ 0
    → count (is_pid q) ps ≤ 1
    → count (is_pid q) (claim pid k ps) ≤ 1
count-claim pid q k ps c h u = elim (Bool-cases (q == pid)) [
  | inl e ↦ ground (
    arith,
    count-set (is_pid q) ps k pid 0 c.below,
    find_index?-count (is_pid pid) ps,
    find_index?-get_or (is_pid pid) ps k 0,
  )
  | inr n ↦ ground (arith, count-set (is_pid q) ps k pid 0 c.below)
]

pub write_slot-IsTable :
    (now pid k : ℕ) (u : ResourceUsage) (d : SharedMemoryData)
    → Picks pid d.process_pids k
    → IsTable d
    → IsTable (write_slot pid u k now d)
unfolding write_slot
write_slot-IsTable now pid k u d c t = record {
  stats_whole = length-set d.process_stats k u ∙ t.stats_whole;
  pids_whole = ground (arith, length-set d.process_pids k pid, t.pids_whole);
  unique = λ q h. count-claim pid q k d.process_pids c h (t.unique q h);
}

pub update_process-HasTable :
    (now pid : ℕ) (u : ResourceUsage) (h : ShmHandle)
    → HasTable h
    → HasTable (shm_update_process_resources now pid (some u) h).1
unfolding shm_update_process_resources update_process
update_process-HasTable now pid u h (d, m, t) = elim (Bool-cases (int_pos pid)) [
  | inl pos ↦ elim (Option-cases (find_slot pid d.process_pids 0 none)) [
    | inl full ↦ (d, ground arith, t)
    | inr (k, e) ↦ (
      write_slot pid u k now d,
      ground arith,
      write_slot-IsTable now pid k u d (find_slot-Picks pid d.process_pids k e) t,
    )
  ]
  | inr neg ↦ (d, ground arith, t)
]

update_global-HasTable :
    (now : ℕ) (u : ResourceUsage) (h : ShmHandle)
    → HasTable h
    → HasTable (shm_update_global_resources now (some u) h).1
unfolding shm_update_global_resources
update_global-HasTable now u h (d, m, t) = (
  bump_version now (record d { global_stats = u }),
  ground arith,
  record { stats_whole = t.stats_whole; pids_whole = t.pids_whole; unique = t.unique },
)

set_limits-HasTable :
    (q m b : ℕ) (h : ShmHandle) → HasTable h → HasTable (shm_set_global_limits q m b h).1
unfolding shm_set_global_limits
set_limits-HasTable q m b h (d, e, t) = (
  record d { max_global_qp = q; max_global_mr = m; max_global_memory = b },
  ground arith,
  record { stats_whole = t.stats_whole; pids_whole = t.pids_whole; unique = t.unique },
)

step-HasTable : (now : ℕ) (c : ShmCall) (h : ShmHandle) → HasTable h → HasTable (step now c h)
unfolding step
step-HasTable now (update_process_call pid u) h t = update_process-HasTable now pid u h t
step-HasTable now (update_global_call u) h t = update_global-HasTable now u h t
step-HasTable now (set_limits_call q m b) h t = set_limits-HasTable q m b h t

-- Every history of writes to a mapped segment keeps it mapped, keeps both arrays at 1024 entries,
-- and keeps every pid in at most one slot.
pub run-HasTable : (cs : List (ℕ × ShmCall)) (h : ShmHandle) → HasTable h → HasTable (run cs h)
unfolding run
run-HasTable [] h t = t
run-HasTable ((now, c) ∷ cs) h t = run-HasTable cs (step now c h) (step-HasTable now c h t)
