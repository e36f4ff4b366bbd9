-- ===== src/Collector/Shared.antt =====
-- src/collector_server_shm.c: the collector that copies the eBPF maps into the usage segment.
use rdma_intercept_ldperload.Base.{
  ℕ, ◌+◌, ◌*◌, ◌==◌, ◌≡◌, ◌∙◌, refl, Bool, Option, none, some, List, [], ◌∷◌, if◌then◌else◌, u32,
  u64, arith,
}
use rdma_intercept_ldperload.Shm.{
  Status, success, failure, ResourceUsage, SharedMemoryData, ShmHandle, ShmReplies, shm_init,
  update_process, shm_get_global_resources, shm_update_process_resources, shm_set_global_limits,
  write_slot,
}
use rdma_intercept_ldperload.Shm.Invariant.{IsTable, HasTable, update_process-HasTable}
use rdma_intercept_ldperload.Text.{Bytes}
use rdma_intercept_ldperload.Text.Decimal.{strtol}
use rdma_intercept_ldperload.Collector.{LimitVariables}

-- The file-level limits, and the handle of the usage segment.
pub record SharedCollector : Type 0 where
  pub max_global_qp : ℕ
  pub max_global_memory : ℕ
  pub shm : ShmHandle

unfoldable pub initial : ShmHandle → SharedCollector
initial h = record { max_global_qp = 10; max_global_memory = 1024 * 1024 * 1024 * 10; shm = h }

-- `atoi` as a `uint32_t`.
unfoldable pub update_max_global_qp : Option Bytes → SharedCollector → SharedCollector
update_max_global_qp none c = c
update_max_global_qp (some text) c =
    let new_max = u32 (strtol text) in
    if new_max == 0 then c else record c { max_global_qp = new_max }

-- `atoll` as a `uint64_t`.
unfoldable pub update_max_global_memory : Option Bytes → SharedCollector → SharedCollector
update_max_global_memory none c = c
update_max_global_memory (some text) c =
    let new_max = strtol text in
    if new_max == 0 then c else record c { max_global_memory = new_max }

-- `threaded` is whether the sync thread was created.
unfoldable pub initialize_service :
    ShmReplies → LimitVariables → Bool → SharedCollector → Status × SharedCollector
unfolding update_max_global_qp update_max_global_memory
initialize_service r l threaded c =
    let (started, h) = shm_init r c.shm in
    elim started [
      | failure ↦ (failure, record c { shm = h })
      | success ↦
          let c' =
            update_max_global_memory l.max_memory_str
              (update_max_global_qp l.max_qp_str (record c { shm = h })) in
          (
            if threaded then success else failure,
            record c' {
              shm = (shm_set_global_limits c'.max_global_qp 1000 c'.max_global_memory c'.shm).1;
            },
          )
    ]

-- The entry of `global_resources`, written under the lock; the time of the segment is left alone.
unfoldable pub sync_global : ResourceUsage → SharedMemoryData → SharedMemoryData
sync_global u d = record d { global_stats = u; version = u64 (d.version + 1) }

-- The entries of `process_resources` in the order of the walk, each with the clock at its write. A
-- refused write is passed over.
unfoldable pub sync_processes : List (ℕ × (ℕ × ResourceUsage)) → ShmHandle → ShmHandle
sync_processes [] h = h
sync_processes ((now, (pid, usage)) ∷ entries) h =
    sync_processes entries (shm_update_process_resources now pid (some usage) h).1

-- `global` and `processes` are what the maps hold; `none` stands for a map that is not there or not
-- readable.
unfoldable pub sync_ebpf_data_to_shared_memory :
    Option ResourceUsage → Option (List (ℕ × (ℕ × ResourceUsage))) → ShmHandle → ShmHandle
unfolding sync_global sync_processes
sync_ebpf_data_to_shared_memory global processes h = elim h.shm_data_ptr [
  | none ↦ h
  | some d ↦
      let h' : ShmHandle = elim global [
        | none ↦ h
        | some u ↦ record h { shm_data_ptr = some (sync_global u d) }
      ] in
      elim processes [ none ↦ h' | some entries ↦ sync_processes entries h' ]
]

sync_processes-HasTable :
    (entries : List (ℕ × (ℕ × ResourceUsage))) (h : ShmHandle)
    → HasTable h
    → HasTable (sync_processes entries h)
unfolding sync_processes
sync_processes-HasTable [] h t = t
sync_processes-HasTable ((now, (pid, u)) ∷ entries) h t =
    sync_processes-HasTable entries _ (update_process-HasTable now pid u h t)

update_process-get_global :
    (now pid : ℕ) (u : ResourceUsage) (h : ShmHandle)
    → shm_get_global_resources (shm_update_process_resources now pid (some u) h).1
      ≡ shm_get_global_resources h
unfolding shm_get_global_resources shm_update_process_resources update_process write_slot
update_process-get_global now pid u h = ground arith

sync_processes-get_global :
    (entries : List (ℕ × (ℕ × ResourceUsage))) (h : ShmHandle)
    → shm_get_global_resources (sync_processes entries h) ≡ shm_get_global_resources h
unfolding sync_processes
sync_processes-get_global [] h = refl
sync_processes-get_global ((now, (pid, u)) ∷ entries) h =
    sync_processes-get_global entries _ ∙ update_process-get_global now pid u h

sync_global-HasTable :
    (u : ResourceUsage) (h : ShmHandle) (d : SharedMemoryData)
    → IsTable d
    → HasTable (record h { shm_data_ptr = some (sync_global u d) })
unfolding sync_global
sync_global-HasTable u h d t = (
  sync_global u d,
  refl,
  record { stats_whole = t.stats_whole; pids_whole = t.pids_whole; unique = t.unique },
)

sync-unread :
    (entries : List (ℕ × (ℕ × ResourceUsage))) (h : ShmHandle) (d : SharedMemoryData)
    → h.shm_data_ptr ≡ some d
    → sync_ebpf_data_to_shared_memory none (some entries) h ≡ sync_processes entries h
unfolding sync_ebpf_data_to_shared_memory
sync-unread entries h d m = ground arith

sync-read :
    (u : ResourceUsage) (entries : List (ℕ × (ℕ × ResourceUsage))) (h : ShmHandle)
    (d : SharedMemoryData)
    → h.shm_data_ptr ≡ some d
    → sync_ebpf_data_to_shared_memory (some u) (some entries) h
      ≡ sync_processes entries (record h { shm_data_ptr = some (sync_global u d) })
unfolding sync_ebpf_data_to_shared_memory
sync-read u entries h d m = ground arith

-- A round of the sync thread on a mapped segment with a sound process table, where the map of the
-- processes is readable, whatever entries it holds: the table stays sound, and the global statistics
-- that a reader of the segment gets are those of the global map, or what they were if that map is
-- not readable.
pub sync-get_global_resources :
    (global : Option ResourceUsage) (entries : List (ℕ × (ℕ × ResourceUsage))) (h : ShmHandle)
    → HasTable h
    → let h' = sync_ebpf_data_to_shared_memory global (some entries) h in
      HasTable h'
      × (shm_get_global_resources h'
          ≡ elim global [ none ↦ shm_get_global_resources h | some u ↦ some u ])
unfolding shm_get_global_resources sync_global
sync-get_global_resources none entries h (d, m, t) =
    rw (sync-unread entries h d m)
      (sync_processes-HasTable entries h (d, m, t), sync_processes-get_global entries h)
sync-get_global_resources (some u) entries h (d, m, t) =
    let h' : ShmHandle = record h { shm_data_ptr = some (sync_global u d) } in
    rw (sync-read u entries h d m) (
      sync_processes-HasTable entries h' (sync_global-HasTable u h d t),
      sync_processes-get_global entries h',
    )
