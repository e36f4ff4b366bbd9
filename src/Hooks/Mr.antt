-- ===== src/Hooks/Mr.antt =====
-- src/rdma_hooks_tenant.c: ibv_reg_mr and ibv_dereg_mr.
use rdma_intercept_ldperload.Base.{
  ℕ, ◌+◌, ◌-◌, true, false, not, Option, none, some, u32, u64, minus_one, ◌==◌, ltb, leb,
  if◌then◌else◌,
}
use rdma_intercept_ldperload.Hooks.{Process, Env, Outcome, enosys, eperm, rdma_intercept_is_enabled}
use rdma_intercept_ldperload.Hooks.Tenancy.{
  get_current_tenant_id, update_tenant_resource_count, charge,
}
use rdma_intercept_ldperload.Hooks.Checks.{check_tenant_mr_limit_inline}

unfoldable pub record_reg_mr : Env → ℕ → ℕ → Process → Process
record_reg_mr e id length p = update_tenant_resource_count e id 1 1 (record p {
  core = record (p.core) {
    mr_count = u32 (p.core.mr_count + 1);
    memory_used = u64 (p.core.memory_used + length);
  };
})

unfoldable pub ibv_reg_mr : Env → Option (Option ℕ) → ℕ → Process → Outcome (Option ℕ) × Process
ibv_reg_mr e none length p = (record { value = none; errno = some enosys; called = false }, p)
ibv_reg_mr e (some mr) length p =
    if not (rdma_intercept_is_enabled p)
    then (record { value = mr; errno = none; called = true }, p)
    else (let (id, p₁) = get_current_tenant_id e p in
        let (ok, p₂) = check_tenant_mr_limit_inline e id length p₁ in
        if not ok then (record { value = none; errno = some eperm; called = false }, p₂) else (
          record { value = mr; errno = none; called = true },
          elim mr [ none ↦ p₂ | some m ↦ record_reg_mr e id length p₂ ],
        ))

unfoldable pub record_dereg_mr : Env → ℕ → Process → Process
record_dereg_mr e length p = charge e 1 minus_one (record p {
  core = record (p.core) {
    mr_count = if ltb 0 p.core.mr_count then p.core.mr_count - 1 else p.core.mr_count;
    memory_used =
        if leb length p.core.memory_used then p.core.memory_used - length else p.core.memory_used;
  };
})

-- `mr` is the length of the region, or `none` for a NULL pointer.
unfoldable pub ibv_dereg_mr : Env → Option ℕ → Option ℕ → Process → Outcome ℕ × Process
ibv_dereg_mr e none mr p = (record { value = minus_one; errno = some enosys; called = false }, p)
ibv_dereg_mr e (some result) mr p = (
  record { value = result; errno = none; called = true },
  (if not (rdma_intercept_is_enabled p)
      then p
      else if result == 0
      then record_dereg_mr e (elim mr [ none ↦ 0 | some length ↦ length ]) p
      else p),
)
