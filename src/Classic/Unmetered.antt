-- ===== src/Classic/Unmetered.antt =====
-- What the limits of src/rdma_hooks.c do not see.
use rdma_intercept_ldperload.Base.{
  ℕ, ◌+◌, ◌≤◌, ◌<◌, ◌≡◌, refl, true, false, Option, none, some, List, [], ◌∷◌, count,
  count-find_index?, int_pos, arith,
}
use rdma_intercept_ldperload.Shm.{
  SharedMemoryData, zero_usage, find_slot, update_process, process_usage, shm_get_process_resources,
  shm_get_global_resources, shm_update_process_resources,
}
use rdma_intercept_ldperload.Shm.Slots.{find_slot-eq-slot_of}
use rdma_intercept_ldperload.Shm.Table.{is_pid}
use rdma_intercept_ldperload.Hooks.Checks.{type_allowed}
use rdma_intercept_ldperload.Classic.{ClassicProcess, Answers, is_on}
use rdma_intercept_ldperload.Classic.Qp.{
  InitAttr, effective_qp_count, global_room, check_qp_creation_restrictions, record_create_qp,
  ibv_create_qp,
}
use rdma_intercept_ldperload.Classic.Mr.{
  metered_usage, mr_refused, record_reg_mr, ibv_reg_mr, record_dereg_mr, ibv_dereg_mr,
}

-- One call of a process's history.
pub data MrEvent : Type 0 where
  registers : Option ℕ → ℕ → MrEvent
  deregisters : ℕ → Option ℕ → MrEvent

unfoldable pub step : Answers → MrEvent → ClassicProcess → ClassicProcess
step a (registers made length) p = (ibv_reg_mr a (some made) length p).1
step a (deregisters result mr) p = (ibv_dereg_mr (some result) mr p).1

unfoldable pub run : List (Answers × MrEvent) → ClassicProcess → ClassicProcess
unfolding step
run [] p = p
run ((a, e) ∷ evs) p = run evs (step a e p)

-- What the hooks of memory regions leave alone.
record Same (p q : ClassicProcess) : Type 0 where
  pid : q.pid ≡ p.pid
  config : q.core.config ≡ p.core.config
  initialized : q.core.initialized ≡ p.core.initialized
  shm : q.shm ≡ p.shm

step-Same : (a : Answers) (e : MrEvent) (p : ClassicProcess) → Same p (step a e p)
unfolding step ibv_reg_mr record_reg_mr ibv_dereg_mr record_dereg_mr
step-Same a (registers made length) p = record {
  pid = ground arith;
  config = ground arith;
  initialized = ground arith;
  shm = ground arith;
}
step-Same a (deregisters result mr) p = record {
  pid = ground arith;
  config = ground arith;
  initialized = ground arith;
  shm = ground arith;
}

run-Same : (evs : List (Answers × MrEvent)) (p : ClassicProcess) → Same p (run evs p)
unfolding run
run-Same [] p = record { pid = refl; config = refl; initialized = refl; shm = refl }
run-Same ((a, e) ∷ evs) p =
    let s = step-Same a e p in
    let r = run-Same evs (step a e p) in
    record {
      pid = ground (arith, s.pid, r.pid);
      config = ground (arith, s.config, r.config);
      initialized = ground (arith, s.initialized, r.initialized);
      shm = ground (arith, s.shm, r.shm);
    }

-- A process attached to the segment whose published usage leaves room for a region gets it
-- registered after any history of registrations and deregistrations, however much it holds by
-- then; the collector's global limit must not stand in the way.
pub reg_mr-run :
    (evs : List (Answers × MrEvent)) (a : Answers) (made : Option ℕ) (length : ℕ)
    (p : ClassicProcess) (d : SharedMemoryData)
    → is_on p ≡ true
    → p.shm.shm_data_ptr ≡ some d
    → int_pos p.pid ≡ true
    → (process_usage p.pid d).mr_count < p.core.config.max_mr_per_process
    → (process_usage p.pid d).memory_used + length ≤ p.core.config.max_memory_per_process
    → a.memory_limit length ≡ false
    → (ibv_reg_mr a (some made) length (run evs p)).0.called ≡ true
unfolding ibv_reg_mr mr_refused metered_usage shm_get_process_resources is_on
reg_mr-run evs a made length p d on mapped real count_room memory_room unlimited =
    let s = run-Same evs p in ground (arith, s.pid, s.config, s.initialized, s.shm)

-- Any number of creations, each with what the monitor and the driver answer.
unfoldable pub create_all : List (Answers × Option ℕ) → InitAttr → ClassicProcess → ClassicProcess
create_all [] attr p = p
create_all ((a, made) ∷ rest) attr p = create_all rest attr (ibv_create_qp a (some made) attr p).1

-- The process of which the segment has no entry and no room for one.
pub record IsCrowded (attr : InitAttr) (p : ClassicProcess) (d : SharedMemoryData) : Type 0 where
  pub enabled : is_on p ≡ true
  pub mapped : p.shm.shm_data_ptr ≡ some d
  pub real_pid : int_pos p.pid ≡ true
  pub no_entry : count (is_pid p.pid) d.process_pids ≡ 0
  pub no_room : count (is_pid 0) d.process_pids ≡ 0
  pub kind : type_allowed attr.qp_type p.core.config ≡ true
  pub process_limit : 0 < p.core.config.max_qp_per_process
  pub global_limit : d.global_stats.qp_count < p.core.config.max_global_qp
  pub send_room : attr.max_send_wr ≤ p.core.config.max_send_wr_limit
  pub recv_room : attr.max_recv_wr ≤ p.core.config.max_recv_wr_limit

module _ (attr : InitAttr) (p : ClassicProcess) (d : SharedMemoryData)
    (w : IsCrowded attr p d) where
  no_slot : find_slot p.pid d.process_pids 0 none ≡ none
  no_slot = ground (
    arith,
    find_slot-eq-slot_of p.pid d.process_pids,
    count-find_index? (is_pid p.pid) d.process_pids w.no_entry,
    count-find_index? (is_pid 0) d.process_pids w.no_room,
  )

  unread : process_usage p.pid d ≡ zero_usage
  unfolding process_usage
  unread = ground (arith, count-find_index? (is_pid p.pid) d.process_pids w.no_entry)

  check-IsCrowded : (a : Answers) → check_qp_creation_restrictions a attr p ≡ true
  unfolding check_qp_creation_restrictions effective_qp_count global_room shm_get_process_resources
      shm_get_global_resources
  check-IsCrowded a = ground (
    arith, unread, w.mapped, w.real_pid, w.kind, w.process_limit, w.global_limit, w.send_room,
    w.recv_room,
  )

  record-IsCrowded : (a : Answers) → IsCrowded attr (record_create_qp a p) d
  unfolding record_create_qp shm_update_process_resources update_process is_on
  record-IsCrowded a = record {
    enabled = w.enabled;
    mapped = ground (arith, no_slot, w.mapped, w.real_pid);
    real_pid = w.real_pid;
    no_entry = w.no_entry;
    no_room = w.no_room;
    kind = w.kind;
    process_limit = w.process_limit;
    global_limit = w.global_limit;
    send_room = w.send_room;
    recv_room = w.recv_room;
  }

  create_qp-IsCrowded :
      (a : Answers) (made : Option ℕ)
      → ((ibv_create_qp a (some made) attr p).0.called ≡ true)
        × IsCrowded attr (ibv_create_qp a (some made) attr p).1 d
  unfolding ibv_create_qp
  create_qp-IsCrowded a none = rw (w.enabled, check-IsCrowded a) (refl, w)
  create_qp-IsCrowded a (some q) = rw (w.enabled, check-IsCrowded a) (refl, record-IsCrowded a)

-- A process that is attached to a segment without an entry for it and without a free one creates
-- queue pairs without end: after any number of creations the next one still reaches the driver. Its
-- type and work request sizes are allowed, the process limit is not 0, and the global count, which
-- the hooks do not raise, is below its limit.
pub create_qp-create_all :
    (made : List (Answers × Option ℕ)) (a : Answers) (next : Option ℕ) (attr : InitAttr)
    (p : ClassicProcess) (d : SharedMemoryData)
    → IsCrowded attr p d
    → (ibv_create_qp a (some next) attr (create_all made attr p)).0.called ≡ true
unfolding create_all
create_qp-create_all [] a next attr p d w = (create_qp-IsCrowded attr p d w a next).0
create_qp-create_all ((b, q) ∷ made) a next attr p d w =
    create_qp-create_all made a next attr (ibv_create_qp b (some q) attr p).1 d
      (create_qp-IsCrowded attr p d w b q).1
