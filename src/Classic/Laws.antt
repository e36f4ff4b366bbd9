-- ===== src/Classic/Laws.antt =====
-- The limits on queue pairs under the hooks of src/rdma_hooks.c.
use rdma_intercept_ldperload.Base.{
  ℕ, ◌+◌, ◌^◌, ◌≤◌, ◌<◌, ◌≡◌, ◌↔◌, true, Option, none, some, List, [], ◌∷◌, u32, ◌==◌, length,
  length-set, find_index?, int_pos, arith, Bool-cases, Option-cases, inl, inr,
}
use rdma_intercept_ldperload.Shm.{
  ResourceUsage, SharedMemoryData, find_slot, write_slot, update_process, process_usage,
  shm_get_process_resources, shm_get_global_resources, shm_update_process_resources,
}
use rdma_intercept_ldperload.Shm.Slots.{find_slot-eq-slot_of}
use rdma_intercept_ldperload.Shm.Table.{
  is_pid, find_index?-claim_self, find_slot-Picks, process_usage-write_slot,
}
use rdma_intercept_ldperload.Hooks.Checks.{type_allowed}
use rdma_intercept_ldperload.Hooks.Qp.{own_usage}
use rdma_intercept_ldperload.Classic.{ClassicProcess, Answers, is_on}
use rdma_intercept_ldperload.Classic.Qp.{
  InitAttr, effective_qp_count, global_room, check_qp_creation_restrictions, record_create_qp,
  ibv_create_qp, record_destroy_qp, ibv_destroy_qp,
}

-- What a creation must meet under QP control.
pub record Admits (a : Answers) (attr : InitAttr) (p : ClassicProcess) : Type 0 where
  pub kind : type_allowed attr.qp_type p.core.config ≡ true
  pub process_room : u32 (effective_qp_count a p + 1) ≤ p.core.config.max_qp_per_process
  pub global_room :
      (u : ResourceUsage)
      → shm_get_global_resources p.shm ≡ some u
      → u.qp_count < p.core.config.max_global_qp
  pub send_room : attr.max_send_wr ≤ p.core.config.max_send_wr_limit
  pub recv_room : attr.max_recv_wr ≤ p.core.config.max_recv_wr_limit

global_room_lem :
    (p : ClassicProcess)
    → (global_room p ≡ true) ↔ (
        (u : ResourceUsage)
        → shm_get_global_resources p.shm ≡ some u
        → u.qp_count < p.core.config.max_global_qp)
unfolding global_room
global_room_lem p = elim (Option-cases (shm_get_global_resources p.shm)) [
  | inl e ↦ (λ ok u f. cc (e, f), λ room. ground arith)
  | inr (v, e) ↦ (λ ok u f. ground arith, λ room. ground (arith, room v e))
]

-- With interception and QP control on, a creation reaches the driver exactly when the type is
-- allowed, one more queue pair than the effective count stays within the process limit, the global
-- count is below its limit where it is known, and both work request sizes are within theirs.
pub create_qp-Admits :
    (a : Answers) (made : Option ℕ) (attr : InitAttr) (p : ClassicProcess)
    → is_on p ≡ true
    → p.core.config.enable_qp_control ≡ true
    → ((ibv_create_qp a (some made) attr p).0.called ≡ true) ↔ Admits a attr p
unfolding ibv_create_qp check_qp_creation_restrictions
create_qp-Admits a made attr p on control = (
  λ c. record {
    kind = ground arith;
    process_room = ground arith;
    global_room = (global_room_lem p).0 (ground arith);
    send_room = ground arith;
    recv_room = ground arith;
  },
  λ r. ground (
    arith,
    r.kind,
    r.process_room,
    (global_room_lem p).1 r.global_room,
    r.send_room,
    r.recv_room,
  ),
)

-- One call of a process's history.
pub data ClassicEvent : Type 0 where
  creates : InitAttr → Option ℕ → ClassicEvent
  destroys : ℕ → ClassicEvent

unfoldable pub step : Answers → ClassicEvent → ClassicProcess → ClassicProcess
step a (creates attr made) p = (ibv_create_qp a (some made) attr p).1
step a (destroys result) p = (ibv_destroy_qp (some result) p).1

unfoldable pub run : List (Answers × ClassicEvent) → ClassicProcess → ClassicProcess
unfolding step
run [] p = p
run ((a, e) ∷ evs) p = run evs (step a e p)

-- A process that has its entry in the mapped segment, with a published count that is at least its
-- own, and its own count within `max`.
pub record IsWithin (p : ClassicProcess) (max : ℕ) (d : SharedMemoryData) (k : ℕ) : Type 0 where
  pub enabled : is_on p ≡ true
  pub controlled : p.core.config.enable_qp_control ≡ true
  pub limit : p.core.config.max_qp_per_process ≡ max
  pub word : max + 1 < 2 ^ 32
  pub real_pid : int_pos p.pid ≡ true
  pub mapped : p.shm.shm_data_ptr ≡ some d
  pub same_length : length d.process_stats ≡ length d.process_pids
  pub present : find_index? (is_pid p.pid) d.process_pids ≡ some k
  pub published : p.core.qp_count ≤ (process_usage p.pid d).qp_count
  pub within : (process_usage p.pid d).qp_count ≤ max

module _ (p : ClassicProcess) (max : ℕ) (d : SharedMemoryData) (k : ℕ)
    (w : IsWithin p max d k) where
  picked : find_slot p.pid d.process_pids 0 none ≡ some k
  picked = ground (arith, find_slot-eq-slot_of p.pid d.process_pids, w.present)

  -- The segment after a published creation.
  abbrev after : Answers → SharedMemoryData
  after a =
      write_slot p.pid (own_usage (record (p.core) { qp_count = u32 (p.core.qp_count + 1) })) k
        a.now_ns d

  usage-after : (a : Answers) → (process_usage p.pid (after a)).qp_count ≡ u32 (p.core.qp_count + 1)
  usage-after a = ground (
    arith,
    process_usage-write_slot p.pid p.pid k a.now_ns
        (own_usage (record (p.core) { qp_count = u32 (p.core.qp_count + 1) })) d w.same_length
        (find_slot-Picks p.pid d.process_pids k picked),
    w.real_pid,
  )

  record_create_qp-IsWithin :
      (a : Answers)
      → (process_usage p.pid d).qp_count + 1 ≤ max
      → IsWithin (record_create_qp a p) max (after a) k
  unfolding record_create_qp shm_update_process_resources update_process is_on write_slot
  record_create_qp-IsWithin a room = record {
    enabled = w.enabled;
    controlled = w.controlled;
    limit = w.limit;
    word = w.word;
    real_pid = w.real_pid;
    mapped = ground (arith, w.mapped, w.real_pid, picked);
    same_length = ground (
      arith,
      w.same_length,
      length-set d.process_stats k
          (own_usage (record (p.core) { qp_count = u32 (p.core.qp_count + 1) })),
      length-set d.process_pids k p.pid,
    );
    present =
        find_index?-claim_self p.pid k d.process_pids
          (find_slot-Picks p.pid d.process_pids k picked);
    published = ground (arith, usage-after a);
    within = ground (arith, usage-after a, w.published, w.word);
  }

  create_qp-IsWithin :
      (a : Answers) (attr : InitAttr) (made : Option ℕ)
      → (d' : SharedMemoryData) × IsWithin (ibv_create_qp a (some made) attr p).1 max d' k
  unfolding ibv_create_qp check_qp_creation_restrictions effective_qp_count
      shm_get_process_resources
  create_qp-IsWithin a attr none = elim (Bool-cases (check_qp_creation_restrictions a attr p)) [
    | inl ok ↦ rw (w.enabled, ok) (d, w)
    | inr refused ↦ rw (w.enabled, refused) (d, w)
  ]
  create_qp-IsWithin a attr (some q) = elim (Bool-cases (check_qp_creation_restrictions a attr p)) [
    | inl ok ↦
        rw (w.enabled, ok)
          (
            after a,
            record_create_qp-IsWithin a
                (ground (arith, w.mapped, w.real_pid, w.controlled, w.limit, w.word, w.within)),
          )
    | inr refused ↦ rw (w.enabled, refused) (d, w)
  ]

  destroy_qp-IsWithin :
      (result : ℕ) → (d' : SharedMemoryData) × IsWithin (ibv_destroy_qp (some result) p).1 max d' k
  unfolding ibv_destroy_qp record_destroy_qp is_on
  destroy_qp-IsWithin result = elim (Bool-cases (result == 0)) [
    | inl gone ↦
        rw (w.enabled, gone)
          (
            d,
            record {
              enabled = w.enabled;
              controlled = w.controlled;
              limit = w.limit;
              word = w.word;
              real_pid = w.real_pid;
              mapped = w.mapped;
              same_length = w.same_length;
              present = w.present;
              published = ground (arith, w.published);
              within = w.within;
            },
          )
    | inr kept ↦ rw (w.enabled, kept) (d, w)
  ]

run_lem :
    (evs : List (Answers × ClassicEvent)) (p : ClassicProcess) (max : ℕ) (d : SharedMemoryData)
    (k : ℕ)
    → IsWithin p max d k
    → (d' : SharedMemoryData) × IsWithin (run evs p) max d' k
unfolding run step
run_lem [] p max d k w = (d, w)
run_lem ((a, creates attr made) ∷ evs) p max d k w =
    let (d', w') = create_qp-IsWithin p max d k w a attr made in
    run_lem evs (ibv_create_qp a (some made) attr p).1 max d' k w'
run_lem ((a, destroys result) ∷ evs) p max d k w =
    let (d', w') = destroy_qp-IsWithin p max d k w result in
    run_lem evs (ibv_destroy_qp (some result) p).1 max d' k w'

-- With interception and QP control on, a process of a positive pid that has its entry in the mapped
-- segment (whose two arrays have the same length), with a published count of queue pairs that is at
-- least its own count and within its limit (below 2^32 - 1), never counts more queue pairs than the
-- limit, whatever it creates and destroys and whatever the driver, the monitor and the collector
-- answer.
pub run-IsWithin_limit :
    (evs : List (Answers × ClassicEvent)) (p : ClassicProcess) (max : ℕ) (d : SharedMemoryData)
    (k : ℕ)
    → IsWithin p max d k
    → (run evs p).core.qp_count ≤ max
run-IsWithin_limit evs p max d k w =
    let (d', w') = run_lem evs p max d k w in ground (arith, w'.published, w'.within)
