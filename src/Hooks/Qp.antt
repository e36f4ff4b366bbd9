-- ===== src/Hooks/Qp.antt =====
-- src/rdma_hooks_tenant.c: ibv_create_qp and ibv_destroy_qp.
-- `real` is the driver's function: `none` for a NULL pointer, else what this call of it returns.
use rdma_intercept_ldperload.Base.{
  ℕ, ◌+◌, ◌-◌, true, false, not, Option, none, some, u32, minus_one, ◌==◌, ltb, if◌then◌else◌,
}
use rdma_intercept_ldperload.Shm.{ResourceUsage, shm_update_process_resources}
use rdma_intercept_ldperload.Hooks.{
  Process, InterceptState, Env, QpType, Outcome, enosys, eperm, rdma_intercept_is_enabled,
}
use rdma_intercept_ldperload.Hooks.Tenancy.{charge}
use rdma_intercept_ldperload.Hooks.Checks.{check_qp_creation_restrictions}

-- The usage that a successful creation publishes: the process's own counters.
abbrev pub own_usage : InterceptState → ResourceUsage
own_usage c = record { qp_count = c.qp_count; mr_count = c.mr_count; memory_used = c.memory_used }

-- What `ibv_create_qp` records of a queue pair that the driver made.
unfoldable pub record_create_qp : Env → Process → Process
record_create_qp e p =
    let core = record (p.core) { qp_count = u32 (p.core.qp_count + 1) } in
    let shm = (shm_update_process_resources e.now_ns p.pid (some (own_usage core)) p.shm).1 in
    charge e 0 1 (record p { core = core; shm = shm })

unfoldable pub ibv_create_qp :
    Env → Option (Option ℕ) → QpType → Process → Outcome (Option ℕ) × Process
ibv_create_qp e none qp_type p = (record { value = none; errno = some enosys; called = false }, p)
ibv_create_qp e (some qp) qp_type p =
    if not (rdma_intercept_is_enabled p)
    then (record { value = qp; errno = none; called = true }, p)
    else (let (ok, p') = check_qp_creation_restrictions e qp_type p in
        if not ok then (record { value = none; errno = some eperm; called = false }, p') else (
          record { value = qp; errno = none; called = true },
          elim qp [ none ↦ p' | some q ↦ record_create_qp e p' ],
        ))

-- `p.core.qp_count` does not pass below 0; the tenant's counter is not guarded.
unfoldable pub record_destroy_qp : Env → Process → Process
record_destroy_qp e p = charge e 0 minus_one (record p {
  core = record (p.core) {
    qp_count = if ltb 0 p.core.qp_count then p.core.qp_count - 1 else p.core.qp_count;
  };
})

unfoldable pub ibv_destroy_qp : Env → Option ℕ → Process → Outcome ℕ × Process
ibv_destroy_qp e none p = (record { value = minus_one; errno = some enosys; called = false }, p)
ibv_destroy_qp e (some result) p = (
  record { value = result; errno = none; called = true },
  (if not (rdma_intercept_is_enabled p)
      then p
      else if result == 0
      then record_destroy_qp e p
      else p),
)
