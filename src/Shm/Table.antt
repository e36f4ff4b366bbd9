-- ===== src/Shm/Table.antt =====
-- What src/shm/shared_memory.c promises of the process table: a bounded map from pids to usage.
use rdma_intercept_ldperload.Base.{
  ℕ, ◌<◌, ◌≡◌, ap, ◌∙◌, ◌≢◌, ◌⊎◌, inl, inr, Bool, true, List, none, some, arith, ◌==◌, ◌&&◌, ==_iff,
  if◌then◌else◌, Bool-cases, Option-cases, length, get_or, set, count, get_or-set_self,
  get_or-set_ne, int_pos, find_index?, find_index?-lt, find_index?-get_or, find_index?-count,
  count-find_index?, find_index?-set_found, find_index?-set_new, find_index?-set_other,
}
use rdma_intercept_ldperload.Shm.{
  success, failure, SharedMemoryData, ShmHandle, ResourceUsage, zero_usage, find_slot, write_slot,
  update_process, process_usage, shm_get_process_resources, shm_update_process_resources,
}
use rdma_intercept_ldperload.Shm.Slots.{find_slot-eq-slot_of}

abbrev pub is_pid : ℕ → ℕ → Bool
is_pid q p = p == q

-- What the loop guarantees of the slot that it picks.
pub record Picks (pid : ℕ) (ps : List ℕ) (k : ℕ) : Type 0 where
  pub below : k < length ps
  pub held :
      (find_index? (is_pid pid) ps ≡ some k)
      ⊎ (find_index? (is_pid pid) ps ≡ none) × (get_or ps k 0 ≡ 0)

pub find_slot-Picks :
    (pid : ℕ) (ps : List ℕ) (k : ℕ) → find_slot pid ps 0 none ≡ some k → Picks pid ps k
find_slot-Picks pid ps k e = elim (Option-cases (find_index? (is_pid pid) ps)) [
  | inl absent ↦
      let free : find_index? (is_pid 0) ps ≡ some k = ground (arith, find_slot-eq-slot_of pid ps) in
      record {
        below = find_index?-lt (is_pid 0) ps k free;
        held = inr (absent, (==_iff _ _).0 (find_index?-get_or (is_pid 0) ps k 0 free));
      }
  | inr (j, present) ↦
      let same : j ≡ k = ground (arith, find_slot-eq-slot_of pid ps) in
      record {
        below = find_index?-lt (is_pid pid) ps k (present ∙ ap some same);
        held = inl (present ∙ ap some same);
      }
]

-- The pid array after a write into the picked slot.
abbrev pub claim : ℕ → ℕ → List ℕ → List ℕ
claim pid k ps = if get_or ps k 0 == 0 then set ps k pid else ps

pub find_index?-claim_self :
    (pid k : ℕ) (ps : List ℕ) → Picks pid ps k → find_index? (is_pid pid) (claim pid k ps) ≡ some k
find_index?-claim_self pid k ps c =
    ground (
      arith,
      find_index?-set_found (is_pid pid) ps k pid,
      find_index?-set_new (is_pid pid) ps k pid,
    )

find_index?-claim_other :
    (pid q k : ℕ) (ps : List ℕ)
    → q ≢ 0
    → q ≢ pid
    → find_index? (is_pid q) (claim pid k ps) ≡ find_index? (is_pid q) ps
find_index?-claim_other pid q k ps h n = ground (arith, find_index?-set_other (is_pid q) ps k pid 0)

-- The picked slot belongs to no other process.
other_slot :
    (pid q k j : ℕ) (ps : List ℕ)
    → Picks pid ps k
    → q ≢ 0
    → q ≢ pid
    → find_index? (is_pid q) ps ≡ some j
    → k ≢ j
other_slot pid q k j ps c h n e s =
    ground (arith, find_index?-get_or (is_pid pid) ps k 0, find_index?-get_or (is_pid q) ps j 0)

pub process_usage-write_slot :
    (pid q k now : ℕ) (u : ResourceUsage) (d : SharedMemoryData)
    → length d.process_stats ≡ length d.process_pids
    → Picks pid d.process_pids k
    → q ≢ 0
    → process_usage q (write_slot pid u k now d) ≡ (if q == pid then u else process_usage q d)
unfolding process_usage write_slot
process_usage-write_slot pid q k now u d same c h = elim (Bool-cases (q == pid)) [
  | inl e ↦ ground (
    arith,
    find_index?-claim_self pid k d.process_pids c,
    get_or-set_self d.process_stats k u zero_usage,
  )
  | inr n ↦ elim (Option-cases (find_index? (is_pid q) d.process_pids)) [
    | inl absent ↦ ground (arith, find_index?-claim_other pid q k d.process_pids h)
    | inr (j, found) ↦ ground (
      arith,
      find_index?-claim_other pid q k d.process_pids h,
      get_or-set_ne d.process_stats k j u zero_usage,
      other_slot pid q k j d.process_pids c h,
    )
  ]
]

-- A write that is taken is what the process reads from then on, and no other process's usage
-- changes; both arrays have the same length.
pub get-update_process_resources :
    (now pid q : ℕ) (u : ResourceUsage) (h : ShmHandle) (d : SharedMemoryData)
    → h.shm_data_ptr ≡ some d
    → length d.process_stats ≡ length d.process_pids
    → (shm_update_process_resources now pid (some u) h).0 ≡ success
    → shm_get_process_resources q (shm_update_process_resources now pid (some u) h).1
      ≡ (if int_pos q then some (if q == pid then u else process_usage q d) else none)
unfolding shm_update_process_resources shm_get_process_resources update_process
get-update_process_resources now pid q u h d m same ok =
    elim (Option-cases (find_slot pid d.process_pids 0 none)) [
      | inl full ↦ ground arith
      | inr (k, e) ↦ ground (
        arith,
        process_usage-write_slot pid q k now u d same (find_slot-Picks pid d.process_pids k e),
      )
    ]

-- On a mapped segment an update for a positive pid is refused exactly when the process has no
-- entry and no slot is free; a refused update changes nothing.
pub update_process_resources-full :
    (now pid : ℕ) (u : ResourceUsage) (h : ShmHandle) (d : SharedMemoryData)
    → h.shm_data_ptr ≡ some d
    → int_pos pid ≡ true
    → shm_update_process_resources now pid (some u) h ≡ (
        if count (is_pid pid) d.process_pids == 0 && count (is_pid 0) d.process_pids == 0
        then (failure, h)
        else (success, (shm_update_process_resources now pid (some u) h).1))
unfolding shm_update_process_resources update_process
update_process_resources-full now pid u h d m pos = ground (
  arith,
  find_slot-eq-slot_of pid d.process_pids,
  find_index?-count (is_pid pid) d.process_pids,
  find_index?-count (is_pid 0) d.process_pids,
  count-find_index? (is_pid pid) d.process_pids,
  count-find_index? (is_pid 0) d.process_pids,
)
