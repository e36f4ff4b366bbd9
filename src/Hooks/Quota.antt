-- ===== src/Hooks/Quota.antt =====
-- The tenant's quota of queue pairs under the hooks of src/rdma_hooks_tenant.c.
pub mod History
use rdma_intercept_ldperload.Base.{
  ℕ, ◌+◌, ◌-◌, ◌^◌, ◌≤◌, ◌<◌, ◌≡◌, ◌≢◌, ◌↔◌, ◌⊎◌, ◌∙◌, refl, sym, ap, Bool, true, false, not, ◌&&◌,
  ◌||◌, Option, none, some, List, [], ◌∷◌, ◌==◌, leb, ltb, if◌then◌else◌, get_or, set, length,
  arith, u32, minus_one, int_pos, int_neg, Bool-cases, Option-cases, inl, inr,
}
use rdma_intercept_ldperload.Shm.{
  ResourceUsage, shm_get_process_resources, shm_get_global_resources, shm_update_process_resources,
}
use rdma_intercept_ldperload.Tenant.{TenantInfo, TenantUsage, TenantShm}
use rdma_intercept_ldperload.Tenant.Segment.{tenant_shm_lock, tenant_shm_unlock}
use rdma_intercept_ldperload.Tenant.Lifecycle.{tenant_at}
use rdma_intercept_ldperload.Hooks.{
  Process, InterceptState, Env, QpType, Outcome, Errno, eperm, rdma_intercept_is_enabled,
}
use rdma_intercept_ldperload.Hooks.Tenancy.{count_usage, charge}
use rdma_intercept_ldperload.Hooks.Checks.{
  type_allowed, process_limit_ok, global_limit_ok, check_qp_creation_restrictions,
}
use rdma_intercept_ldperload.Hooks.Qp.{
  ibv_create_qp, ibv_destroy_qp, record_create_qp, record_destroy_qp, own_usage,
}
use rdma_intercept_ldperload.Hooks.Views.{
  IsBound, stamped, at_segment, stamped-IsBound, get_current_tenant_id-IsBound,
  check_tenant_qp_limit-IsBound, charged, recharged, charged-IsBound, charged-usage, charged-quota,
  charge-IsBound,
}

-- What a creation must meet, limit by limit.
pub record Admits (qp_type : QpType) (p : Process) (t : TenantInfo) : Type 0 where
  pub kind : type_allowed qp_type p.core.config ≡ true
  pub tenant_room : t.usage.qp_count < t.quota.max_qp_per_tenant
  pub process_room :
      (u : ResourceUsage)
      → shm_get_process_resources p.pid p.shm ≡ some u
      → u32 (u.qp_count + 1) ≤ p.core.config.max_qp_per_process
  pub global_room :
      (u : ResourceUsage)
      → shm_get_global_resources p.shm ≡ some u
      → u.qp_count < p.core.config.max_global_qp

process_limit_ok-room :
    (p : Process)
    → (process_limit_ok p ≡ true) ↔ (
        (u : ResourceUsage)
        → shm_get_process_resources p.pid p.shm ≡ some u
        → u32 (u.qp_count + 1) ≤ p.core.config.max_qp_per_process)
unfolding process_limit_ok
process_limit_ok-room p = elim (Option-cases (shm_get_process_resources p.pid p.shm)) [
  | inl e ↦ (λ ok u f. cc (e, f), λ room. ground arith)
  | inr (v, e) ↦ (λ ok u f. ground arith, λ room. ground (arith, room v e))
]

global_limit_ok-room :
    (p : Process)
    → (global_limit_ok p ≡ true) ↔ (
        (u : ResourceUsage)
        → shm_get_global_resources p.shm ≡ some u
        → u.qp_count < p.core.config.max_global_qp)
unfolding global_limit_ok
global_limit_ok-room p = elim (Option-cases (shm_get_global_resources p.shm)) [
  | inl e ↦ (λ ok u f. cc (e, f), λ room. ground arith)
  | inr (v, e) ↦ (λ ok u f. ground arith, λ room. ground (arith, room v e))
]

abbrev pub verdict : QpType → Process → TenantInfo → Bool
verdict qp_type p t =
    type_allowed qp_type p.core.config
    && not (leb t.quota.max_qp_per_tenant t.usage.qp_count)
    && process_limit_ok p
    && global_limit_ok p

pub check_restrictions-IsBound :
    (e : Env) (qp_type : QpType) (p : Process) (id : ℕ) (s : TenantShm)
    → IsBound p id s
    → p.core.config.enable_qp_control ≡ true
    → check_qp_creation_restrictions e qp_type p ≡ (
      verdict qp_type p (tenant_at s id),
      (if type_allowed qp_type p.core.config
          then at_segment p (stamped e.now (stamped e.now s))
          else p),
    )
unfolding check_qp_creation_restrictions process_limit_ok global_limit_ok tenant_shm_lock
    tenant_shm_unlock
check_restrictions-IsBound e qp_type p id s b on = ground (
  arith,
  get_current_tenant_id-IsBound e p id s b,
  check_tenant_qp_limit-IsBound e (at_segment p (stamped e.now s)) id (stamped e.now s)
      (stamped-IsBound e p id s b),
)

-- The segment after the tests of one creation.
abbrev pub checked : Env → TenantShm → TenantShm
checked e s = stamped e.now (stamped e.now s)

pub checked-IsBound :
    (e : Env) (p : Process) (id : ℕ) (s : TenantShm)
    → IsBound p id s
    → IsBound (at_segment p (checked e s)) id (checked e s)
checked-IsBound e p id s b =
    stamped-IsBound e (at_segment p (stamped e.now s)) id (stamped e.now s)
      (stamped-IsBound e p id s b)

-- The core counters and the published usage after a recorded creation.
abbrev pub counted_core : InterceptState → InterceptState
counted_core c = record c { qp_count = u32 (c.qp_count + 1) }

abbrev pub published : Env → Process → Process
published e p = record p {
  core = counted_core p.core;
  shm =
      (shm_update_process_resources e.now_ns p.pid (some (own_usage (counted_core p.core)))
        p.shm).1;
}

pub published-IsBound :
    (e : Env) (p : Process) (id : ℕ) (s : TenantShm) → IsBound p id s → IsBound (published e p) id s
published-IsBound e p id s b = record {
  ready = b.ready;
  attached = b.attached;
  whole = b.whole;
  nonzero = b.nonzero;
  below = b.below;
  live = b.live;
  mine = b.mine;
}

module _ (e : Env) (qp_type : QpType) (p : Process) (id : ℕ) (s : TenantShm) (b : IsBound p id s)
    (enabled : rdma_intercept_is_enabled p ≡ true)
    (control : p.core.config.enable_qp_control ≡ true) where
  -- For a process that belongs to an active tenant, with interception and QP control on: the driver
  -- is called exactly when the type is allowed, the tenant's count is below its quota, and the
  -- process and global limits hold.
  pub create_qp-admission :
      (made : Option ℕ)
      → ((ibv_create_qp e (some made) qp_type p).0.called ≡ true)
        ↔ Admits qp_type p (tenant_at s id)
  unfolding ibv_create_qp
  create_qp-admission made =
      let checks = check_restrictions-IsBound e qp_type p id s b control in
      (
        λ c. record {
          kind = ground (arith, checks);
          tenant_room = ground (arith, checks);
          process_room = (process_limit_ok-room p).0 (ground (arith, checks));
          global_room = (global_limit_ok-room p).0 (ground (arith, checks));
        },
        λ a. ground (
          arith,
          checks,
          a.kind,
          a.tenant_room,
          (process_limit_ok-room p).1 a.process_room,
          (global_limit_ok-room p).1 a.global_room,
        ),
      )

  -- A creation of such a process that does not reach the driver returns NULL with EPERM, and leaves
  -- the process's counters, its published usage and the tenants as they were.
  pub create_qp-denied :
      (made : Option ℕ) (t : TenantShm)
      → (ibv_create_qp e (some made) qp_type p).0.called ≡ false
      → (ibv_create_qp e (some made) qp_type p).1.tenant.g_tenant_shm ≡ some t
      → ((ibv_create_qp e (some made) qp_type p).0.value ≡ none)
        × ((ibv_create_qp e (some made) qp_type p).0.errno ≡ some eperm)
        × ((ibv_create_qp e (some made) qp_type p).1.core ≡ p.core)
        × ((ibv_create_qp e (some made) qp_type p).1.shm ≡ p.shm)
        × (t.tenants ≡ s.tenants)
  unfolding ibv_create_qp tenant_shm_lock tenant_shm_unlock
  create_qp-denied made t c i =
      let checks = check_restrictions-IsBound e qp_type p id s b control in
      (
        ground (arith, checks),
        ground (arith, checks),
        ground (arith, checks),
        ground (arith, checks),
        ground (arith, checks, b.attached),
      )

  -- The state that an admitted creation leaves.
  pub create_qp-made :
      (q : ℕ)
      → (ibv_create_qp e (some (some q)) qp_type p).0.called ≡ true
      → (ibv_create_qp e (some (some q)) qp_type p).1
        ≡ at_segment (published e p) (recharged e id 0 1 (checked e s))
  unfolding ibv_create_qp record_create_qp
  create_qp-made q c = ground (
    arith,
    check_restrictions-IsBound e qp_type p id s b control,
    charge-IsBound e (published e (at_segment p (checked e s))) id (checked e s)
        (published-IsBound e (at_segment p (checked e s)) id (checked e s)
          (checked-IsBound e p id s b))
        0 1,
  )

  pub create_qp-unmade :
      (made : Option ℕ)
      → (made ≡ none) ⊎ ((ibv_create_qp e (some made) qp_type p).0.called ≡ false)
      → (ibv_create_qp e (some made) qp_type p).1
        ≡ (if type_allowed qp_type p.core.config then at_segment p (checked e s) else p)
  unfolding ibv_create_qp
  create_qp-unmade made c = ground (arith, check_restrictions-IsBound e qp_type p id s b control)
