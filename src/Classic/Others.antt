-- ===== src/Classic/Others.antt =====
-- src/rdma_hooks.c: the hooks that check nothing and count nothing. Each returns what the driver
-- returns, or fails with ENOSYS without the driver's function; the process is left alone.
use rdma_intercept_ldperload.Base.{ℕ, true, false, Option, none, some, minus_one}
use rdma_intercept_ldperload.Hooks.{Outcome, enosys}

-- A hook that returns a pointer.
abbrev make : Option (Option ℕ) → Outcome (Option ℕ)
make none = record { value = none; errno = some enosys; called = false }
make (some made) = record { value = made; errno = none; called = true }

-- A hook that returns an `int`.
abbrev ask : Option ℕ → Outcome ℕ
ask none = record { value = minus_one; errno = some enosys; called = false }
ask (some result) = record { value = result; errno = none; called = true }

unfoldable pub ibv_create_ah : Option (Option ℕ) → Outcome (Option ℕ)
ibv_create_ah real = make real

unfoldable pub ibv_modify_ah : Option ℕ → Outcome ℕ
ibv_modify_ah real = ask real

unfoldable pub ibv_destroy_ah : Option ℕ → Outcome ℕ
ibv_destroy_ah real = ask real

unfoldable pub ibv_create_srq : Option (Option ℕ) → Outcome (Option ℕ)
ibv_create_srq real = make real

unfoldable pub ibv_modify_srq : Option ℕ → Outcome ℕ
ibv_modify_srq real = ask real

unfoldable pub ibv_query_srq : Option ℕ → Outcome ℕ
ibv_query_srq real = ask real

unfoldable pub ibv_destroy_srq : Option ℕ → Outcome ℕ
ibv_destroy_srq real = ask real

unfoldable pub ibv_destroy_mr : Option ℕ → Outcome ℕ
ibv_destroy_mr real = ask real

unfoldable pub ibv_create_cq : Option (Option ℕ) → Outcome (Option ℕ)
ibv_create_cq real = make real

unfoldable pub ibv_destroy_cq : Option ℕ → Outcome ℕ
ibv_destroy_cq real = ask real

unfoldable pub ibv_alloc_pd : Option (Option ℕ) → Outcome (Option ℕ)
ibv_alloc_pd real = make real

unfoldable pub ibv_dealloc_pd : Option ℕ → Outcome ℕ
ibv_dealloc_pd real = ask real
