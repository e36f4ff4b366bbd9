-- ===== src/Hooks/Cq.antt =====
-- src/rdma_hooks_tenant.c: ibv_create_cq, ibv_destroy_cq, ibv_alloc_pd and ibv_dealloc_pd, which
-- count for the tenant and check nothing.
use rdma_intercept_ldperload.Base.{
  ℕ, true, false, not, Option, none, some, minus_one, ◌==◌, if◌then◌else◌,
}
use rdma_intercept_ldperload.Hooks.{Process, Env, Outcome, enosys, rdma_intercept_is_enabled}
use rdma_intercept_ldperload.Hooks.Tenancy.{charge}

unfoldable pub ibv_create_cq : Env → Option (Option ℕ) → Process → Outcome (Option ℕ) × Process
ibv_create_cq e none p = (record { value = none; errno = some enosys; called = false }, p)
ibv_create_cq e (some cq) p = (
  record { value = cq; errno = none; called = true },
  (if not (rdma_intercept_is_enabled p) then p else elim cq [ none ↦ p | some c ↦ charge e 3 1 p ]),
)

unfoldable pub ibv_destroy_cq : Env → Option ℕ → Process → Outcome ℕ × Process
ibv_destroy_cq e none p = (record { value = minus_one; errno = some enosys; called = false }, p)
ibv_destroy_cq e (some result) p = (
  record { value = result; errno = none; called = true },
  (if not (rdma_intercept_is_enabled p)
      then p
      else if result == 0
      then charge e 3 minus_one p
      else p),
)

unfoldable pub ibv_alloc_pd : Env → Option (Option ℕ) → Process → Outcome (Option ℕ) × Process
ibv_alloc_pd e none p = (record { value = none; errno = some enosys; called = false }, p)
ibv_alloc_pd e (some pd) p = (
  record { value = pd; errno = none; called = true },
  (if not (rdma_intercept_is_enabled p) then p else elim pd [ none ↦ p | some d ↦ charge e 4 1 p ]),
)

unfoldable pub ibv_dealloc_pd : Env → Option ℕ → Process → Outcome ℕ × Process
ibv_dealloc_pd e none p = (record { value = minus_one; errno = some enosys; called = false }, p)
ibv_dealloc_pd e (some result) p = (
  record { value = result; errno = none; called = true },
  (if not (rdma_intercept_is_enabled p)
      then p
      else if result == 0
      then charge e 4 minus_one p
      else p),
)
