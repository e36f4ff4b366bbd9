-- ===== src/Classic/Qp.antt =====
-- src/rdma_hooks.c: the checks of a creation, ibv_create_qp and ibv_destroy_qp.
use rdma_intercept_ldperload.Base.{
  ℕ, ◌+◌, ◌-◌, Bool, true, false, not, ◌&&◌, Option, none, some, u32, minus_one, ◌==◌, ltb,
  if◌then◌else◌,
}
use rdma_intercept_ldperload.Shm.{
  ResourceUsage, shm_get_process_resources, shm_get_global_resources, shm_update_process_resources,
}
use rdma_intercept_ldperload.Hooks.{QpType, Outcome, enosys, eperm}
use rdma_intercept_ldperload.Hooks.Checks.{type_allowed}
use rdma_intercept_ldperload.Hooks.Qp.{own_usage}
use rdma_intercept_ldperload.Classic.{ClassicProcess, Answers, is_on}

-- The fields of `struct ibv_qp_init_attr` that the checks read.
pub record InitAttr : Type 0 where
  pub qp_type : QpType
  pub max_send_wr : ℕ
  pub max_recv_wr : ℕ

-- `ebpf_get_process_resources`, asked only if the monitor is up.
abbrev pub ebpf_usage : Answers → ClassicProcess → Option ResourceUsage
ebpf_usage a p = if p.ebpf_initialized then a.ebpf else none

-- The count that the per-process limit is held against: the segment's, else the monitor's, else the
-- process's own; a zero of the monitor gives way to a positive count of the process.
unfoldable pub effective_qp_count : Answers → ClassicProcess → ℕ
effective_qp_count a p = elim (shm_get_process_resources p.pid p.shm) [
  | some u ↦ u.qp_count
  | none ↦ elim (ebpf_usage a p) [
    | none ↦ p.core.qp_count
    | some u ↦ if u.qp_count == 0 && ltb 0 p.core.qp_count then p.core.qp_count else u.qp_count
  ]
]

unfoldable pub global_room : ClassicProcess → Bool
global_room p = elim (shm_get_global_resources p.shm) [
  | none ↦ true
  | some u ↦ ltb u.qp_count p.core.config.max_global_qp
]

unfoldable pub check_qp_creation_restrictions : Answers → InitAttr → ClassicProcess → Bool
unfolding effective_qp_count global_room
check_qp_creation_restrictions a attr p =
    let c = p.core.config in
    if not c.enable_qp_control
    then true
    else if not (type_allowed attr.qp_type c)
    then false
    else if ltb c.max_qp_per_process (u32 (effective_qp_count a p + 1))
    then false
    else if not (global_room p)
    then false
    else if ltb c.max_send_wr_limit attr.max_send_wr
    then false
    else not (ltb c.max_recv_wr_limit attr.max_recv_wr)

-- What `ibv_create_qp` records of a queue pair that the driver made.
unfoldable pub record_create_qp : Answers → ClassicProcess → ClassicProcess
record_create_qp a p =
    let core = record (p.core) { qp_count = u32 (p.core.qp_count + 1) } in
    record p {
      core = core;
      shm = (shm_update_process_resources a.now_ns p.pid (some (own_usage core)) p.shm).1;
    }

unfoldable pub ibv_create_qp :
    Answers → Option (Option ℕ) → InitAttr → ClassicProcess → Outcome (Option ℕ) × ClassicProcess
unfolding record_create_qp
ibv_create_qp a none attr p = (record { value = none; errno = some enosys; called = false }, p)
ibv_create_qp a (some qp) attr p =
    if not (is_on p)
    then (record { value = qp; errno = none; called = true }, p)
    else if not (check_qp_creation_restrictions a attr p)
    then (record { value = none; errno = some eperm; called = false }, p)
    else (
      record { value = qp; errno = none; called = true },
      elim qp [ none ↦ p | some q ↦ record_create_qp a p ],
    )

-- The usage read back after it goes to the log only.
unfoldable pub record_destroy_qp : ClassicProcess → ClassicProcess
record_destroy_qp p = record p {
  core = record (p.core) {
    qp_count = if ltb 0 p.core.qp_count then p.core.qp_count - 1 else p.core.qp_count;
  };
}

unfoldable pub ibv_destroy_qp : Option ℕ → ClassicProcess → Outcome ℕ × ClassicProcess
unfolding record_destroy_qp
ibv_destroy_qp none p = (record { value = minus_one; errno = some enosys; called = false }, p)
ibv_destroy_qp (some result) p = (
  record { value = result; errno = none; called = true },
  (if not (is_on p) then p else if result == 0 then record_destroy_qp p else p),
)
