-- ===== src/Shm.antt =====
-- src/shm/shared_memory.h and src/shm/shared_memory.c: the segment of per-process usage.
-- `ShmHandle` is the pair of file-level variables of one process; what the kernel answers to
-- shm_open, ftruncate, mmap and clock_gettime is an argument. An output pointer is a result.
pub mod Slots
pub mod Table
pub mod Init
pub mod Invariant
use rdma_intercept_ldperload.Base.{
  ℕ, suc, ◌+◌, ◌*◌, ◌%◌, ◌^◌, ◌≡◌, Bool, true, false, not, ◌&&◌, List, [], ◌∷◌, Option, none, some,
  u64, int_pos, ◌==◌, if◌then◌else◌, length, get_or, set, replicate, find_index?,
}

-- The return codes 0 and -1.
pub data Status : Type 0 where
  success failure : Status

abbrev pub max_processes : ℕ
max_processes = 1024

-- `resource_usage_t`; the two `int` fields are 32-bit patterns.
pub record ResourceUsage : Type 0 where
  pub qp_count : ℕ
  pub mr_count : ℕ
  pub memory_used : ℕ

abbrev pub zero_usage : ResourceUsage
zero_usage = record { qp_count = 0; mr_count = 0; memory_used = 0 }

-- `shared_memory_data_t`.
pub record SharedMemoryData : Type 0 where
  pub global_stats : ResourceUsage
  pub process_stats : List ResourceUsage
  pub process_pids : List ℕ
  pub max_global_qp : ℕ
  pub max_global_mr : ℕ
  pub max_global_memory : ℕ
  pub shm_lock : ℕ
  pub version : ℕ
  pub last_update_time : ℕ

-- `shm_fd`, where `none` is -1, and `shm_data_ptr`, where `none` is NULL.
pub record ShmHandle : Type 0 where
  pub shm_fd : Option ℕ
  pub shm_data_ptr : Option SharedMemoryData

-- What the kernel answers to one call of `shm_init`; the segment that mmap shows is one of them.
pub record ShmReplies : Type 0 where
  pub opened : Option ℕ
  pub truncated : Bool
  pub mapped : Option SharedMemoryData
  pub now : ℕ

-- The test on which `shm_init` takes a segment for a new one.
unfoldable pub looks_new : SharedMemoryData → Bool
looks_new d =
    d.global_stats.qp_count == 0 && d.global_stats.mr_count == 0 && d.global_stats.memory_used == 0

-- Every field is written, so nothing of the old segment is left.
unfoldable pub init_segment : ℕ → SharedMemoryData
init_segment now = record {
  global_stats = zero_usage;
  process_stats = replicate max_processes zero_usage;
  process_pids = replicate max_processes 0;
  max_global_qp = 1000;
  max_global_mr = 1000;
  max_global_memory = 1024 * 1024 * 1024;
  shm_lock = 0;
  version = 1;
  last_update_time = now;
}

unfoldable pub shm_init : ShmReplies → ShmHandle → Status × ShmHandle
unfolding looks_new init_segment
shm_init r h = elim r.opened [
  | none ↦ (failure, record h { shm_fd = none })
  | some fd ↦ if not r.truncated then (failure, record h { shm_fd = none }) else elim r.mapped [
    | none ↦ (failure, record { shm_fd = none; shm_data_ptr = none })
    | some d ↦ (
      success,
      record {
        shm_fd = some fd;
        shm_data_ptr = some (if looks_new d then init_segment r.now else d);
      },
    )
  ]
]

-- `unlinked` is the answer of `shm_unlink`.
unfoldable pub shm_destroy : Bool → ShmHandle → Status × ShmHandle
shm_destroy unlinked h =
    (if unlinked then success else failure, record { shm_fd = none; shm_data_ptr = none })

-- The loop of `shm_update_process_resources`: the entry of `pid`, else the first free slot.
unfoldable pub find_slot : ℕ → List ℕ → ℕ → Option ℕ → Option ℕ
find_slot pid [] i slot = slot
find_slot pid (p ∷ ps) i slot =
    if p == pid
    then some i
    else find_slot pid ps (suc i)
        (elim slot [ none ↦ if p == 0 then some i else none | some s ↦ some s ])

-- The stamp that the writers leave under the lock.
abbrev pub bump_version : ℕ → SharedMemoryData → SharedMemoryData
bump_version now d = record d { version = u64 (d.version + 1); last_update_time = now }

unfoldable pub write_slot : ℕ → ResourceUsage → ℕ → ℕ → SharedMemoryData → SharedMemoryData
write_slot pid usage slot now d = bump_version now (record d {
  process_pids =
      if get_or d.process_pids slot 0 == 0 then set d.process_pids slot pid else d.process_pids;
  process_stats = set d.process_stats slot usage;
})

unfoldable pub shm_get_global_resources : ShmHandle → Option ResourceUsage
shm_get_global_resources h = elim h.shm_data_ptr [ none ↦ none | some d ↦ some d.global_stats ]

-- The body of `shm_get_process_resources` on a mapped segment.
unfoldable pub process_usage : ℕ → SharedMemoryData → ResourceUsage
process_usage pid d = elim (find_index? (λ p. p == pid) d.process_pids) [
  | none ↦ zero_usage
  | some i ↦ get_or d.process_stats i zero_usage
]

-- `none` is the return code -1.
unfoldable pub shm_get_process_resources : ℕ → ShmHandle → Option ResourceUsage
shm_get_process_resources pid h = elim h.shm_data_ptr [
  | none ↦ none
  | some d ↦ if int_pos pid then some (process_usage pid d) else none
]

-- `usage` is `none` where the caller passes NULL.
unfoldable pub shm_update_global_resources :
    ℕ → Option ResourceUsage → ShmHandle → Status × ShmHandle
shm_update_global_resources now none h = (failure, h)
shm_update_global_resources now (some u) h = elim h.shm_data_ptr [
  | none ↦ (failure, h)
  | some d ↦
      (success, record h { shm_data_ptr = some (bump_version now (record d { global_stats = u })) })
]

-- The body of `shm_update_process_resources` on a mapped segment, between lock and unlock.
unfoldable pub update_process : ℕ → ResourceUsage → ℕ → SharedMemoryData → Status × SharedMemoryData
update_process pid u now d = elim (find_slot pid d.process_pids 0 none) [
  | none ↦ (failure, d)
  | some slot ↦ (success, write_slot pid u slot now d)
]

unfoldable pub shm_update_process_resources :
    ℕ → ℕ → Option ResourceUsage → ShmHandle → Status × ShmHandle
shm_update_process_resources now pid none h = (failure, h)
shm_update_process_resources now pid (some u) h = elim h.shm_data_ptr [
  | none ↦ (failure, h)
  | some d ↦
      if int_pos pid
      then (let (r, d') = update_process pid u now d in (r, record h { shm_data_ptr = some d' }))
      else (failure, h)
]

unfoldable pub shm_set_global_limits : ℕ → ℕ → ℕ → ShmHandle → Status × ShmHandle
shm_set_global_limits max_qp max_mr max_memory h = elim h.shm_data_ptr [
  | none ↦ (failure, h)
  | some d ↦ (
    success,
    record h {
      shm_data_ptr = some (record d {
        max_global_qp = max_qp;
        max_global_mr = max_mr;
        max_global_memory = max_memory;
      });
    },
  )
]
