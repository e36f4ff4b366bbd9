-- ===== src/Classic/Mr.antt =====
-- src/rdma_hooks.c: ibv_reg_mr, ibv_dereg_mr and ibv_destroy_mr.
use rdma_intercept_ldperload.Base.{
  ℕ, ◌+◌, ◌-◌, Bool, true, false, not, ◌||◌, Option, none, some, u32, u64, minus_one, ◌==◌, ltb,
  leb, if◌then◌else◌,
}
use rdma_intercept_ldperload.Shm.{ResourceUsage, shm_get_process_resources}
use rdma_intercept_ldperload.Hooks.{Outcome, enosys, eperm}
use rdma_intercept_ldperload.Hooks.Qp.{own_usage}
use rdma_intercept_ldperload.Classic.{ClassicProcess, Answers, is_on}
use rdma_intercept_ldperload.Classic.Qp.{ebpf_usage}

-- The usage that the limits are held against: the segment's, else the monitor's, else the process's.
unfoldable pub metered_usage : Answers → ClassicProcess → ResourceUsage
metered_usage a p = elim (shm_get_process_resources p.pid p.shm) [
  | some u ↦ u
  | none ↦ elim (ebpf_usage a p) [ none ↦ own_usage p.core | some u ↦ u ]
]

-- The three copies of the test under `enable_mr_control`.
unfoldable pub mr_refused : Answers → ℕ → ClassicProcess → Bool
unfolding metered_usage
mr_refused a length p =
    let c = p.core.config in
    let u = metered_usage a p in
    leb c.max_mr_per_process u.mr_count
    || ltb c.max_memory_per_process (u64 (u.memory_used + length))

-- What `ibv_reg_mr` records of a region that the driver made; nothing is published.
unfoldable pub record_reg_mr : ℕ → ClassicProcess → ClassicProcess
record_reg_mr length p = record p {
  core = record (p.core) {
    mr_count = u32 (p.core.mr_count + 1);
    memory_used = u64 (p.core.memory_used + length);
  };
}

unfoldable pub ibv_reg_mr :
    Answers → Option (Option ℕ) → ℕ → ClassicProcess → Outcome (Option ℕ) × ClassicProcess
unfolding mr_refused record_reg_mr
ibv_reg_mr a none length p = (record { value = none; errno = some enosys; called = false }, p)
ibv_reg_mr a (some mr) length p =
    if not (is_on p)
    then (record { value = mr; errno = none; called = true }, p)
    else if (if p.core.config.enable_mr_control then mr_refused a length p else false)
    then (record { value = none; errno = some eperm; called = false }, p)
    else if a.memory_limit length
    then (record { value = none; errno = some eperm; called = false }, p)
    else (
      record { value = mr; errno = none; called = true },
      elim mr [ none ↦ p | some m ↦ record_reg_mr length p ],
    )

unfoldable pub record_dereg_mr : ℕ → ClassicProcess → ClassicProcess
record_dereg_mr length p = record p {
  core = record (p.core) {
    mr_count = if ltb 0 p.core.mr_count then p.core.mr_count - 1 else p.core.mr_count;
    memory_used =
        if leb length p.core.memory_used then p.core.memory_used - length else p.core.memory_used;
  };
}

-- `mr` is the length of the region, or `none` for a NULL pointer.
unfoldable pub ibv_dereg_mr : Option ℕ → Option ℕ → ClassicProcess → Outcome ℕ × ClassicProcess
unfolding record_dereg_mr
ibv_dereg_mr none mr p = (record { value = minus_one; errno = some enosys; called = false }, p)
ibv_dereg_mr (some result) mr p = (
  record { value = result; errno = none; called = true },
  (if not (is_on p)
      then p
      else if result == 0
      then record_dereg_mr (elim mr [ none ↦ 0 | some length ↦ length ]) p
      else p),
)
