-- ===== src/Hooks/Stale.antt =====
-- Counters of src/rdma_hooks_tenant.c that a destroyed queue pair leaves wrong.
use rdma_intercept_ldperload.Base.{
  ℕ, ◌+◌, ◌-◌, ◌^◌, ◌≤◌, ◌<◌, ◌≡◌, ◌∙◌, refl, true, false, Option, some, List, [], ◌∷◌, ltb,
  if◌then◌else◌, arith, minus_one, int_pos, Bool-cases, inl, inr,
}
use rdma_intercept_ldperload.Shm.{SharedMemoryData, process_usage, shm_get_process_resources}
use rdma_intercept_ldperload.Tenant.{TenantShm}
use rdma_intercept_ldperload.Tenant.Segment.{tenant_shm_lock, tenant_shm_unlock}
use rdma_intercept_ldperload.Tenant.Lifecycle.{tenant_at}
use rdma_intercept_ldperload.Hooks.{Process, Env, QpType, rdma_intercept_is_enabled}
use rdma_intercept_ldperload.Hooks.Tenancy.{
  get_current_tenant_id, update_tenant_resource_count, count_usage, charge,
}
use rdma_intercept_ldperload.Hooks.Checks.{
  check_tenant_qp_limit, process_limit_ok, check_qp_creation_restrictions,
}
use rdma_intercept_ldperload.Hooks.Qp.{ibv_create_qp, ibv_destroy_qp, record_destroy_qp}
use rdma_intercept_ldperload.Hooks.Views.{
  IsBound, stamped, at_segment, stamped-IsBound, recharged, charged-IsBound, charged-usage,
  charged-quota, charge-IsBound,
}
use rdma_intercept_ldperload.Hooks.Quota.{create_qp-admission}

-- The hooks keep these parts of a process, whatever the tenant's registry holds.
record SameLimits (p q : Process) : Type 0 where
  same_pid : q.pid ≡ p.pid
  same_config : q.core.config ≡ p.core.config
  same_init : q.core.initialized ≡ p.core.initialized
  same_shm : q.shm ≡ p.shm

SameLimits-trans : (p q r : Process) → SameLimits p q → SameLimits q r → SameLimits p r
SameLimits-trans p q r a b = record {
  same_pid = b.same_pid ∙ a.same_pid;
  same_config = b.same_config ∙ a.same_config;
  same_init = b.same_init ∙ a.same_init;
  same_shm = b.same_shm ∙ a.same_shm;
}

current-SameLimits : (e : Env) (p : Process) → SameLimits p (get_current_tenant_id e p).1
unfolding get_current_tenant_id
current-SameLimits e p = ground arith

update_count-SameLimits :
    (e : Env) (id k delta : ℕ) (p : Process)
    → SameLimits p (update_tenant_resource_count e id k delta p)
unfolding update_tenant_resource_count
update_count-SameLimits e id k delta p = ground arith

charge-SameLimits : (e : Env) (k delta : ℕ) (p : Process) → SameLimits p (charge e k delta p)
unfolding charge
charge-SameLimits e k delta p =
    SameLimits-trans p (get_current_tenant_id e p).1 _ (current-SameLimits e p) (
      update_count-SameLimits e (get_current_tenant_id e p).0 k delta (get_current_tenant_id e p).1)

destroy_qp-SameLimits :
    (e : Env) (result : ℕ) (p : Process) → SameLimits p (ibv_destroy_qp e (some result) p).1
unfolding ibv_destroy_qp record_destroy_qp
destroy_qp-SameLimits e result p = ground (
  arith,
  charge-SameLimits e 0 minus_one (record p {
    core = record (p.core) {
      qp_count = if ltb 0 p.core.qp_count then p.core.qp_count - 1 else p.core.qp_count;
    };
  }),
)

-- A run of destructions, each with the driver's answer.
pub destroy_all : List (Env × ℕ) → Process → Process
destroy_all [] p = p
destroy_all ((e, result) ∷ ds) p = destroy_all ds (ibv_destroy_qp e (some result) p).1

destroy_all-SameLimits : (ds : List (Env × ℕ)) (p : Process) → SameLimits p (destroy_all ds p)
unfolding destroy_all
destroy_all-SameLimits [] p = record {
  same_pid = refl;
  same_config = refl;
  same_init = refl;
  same_shm = refl;
}
destroy_all-SameLimits ((e, result) ∷ ds) p =
    SameLimits-trans p (ibv_destroy_qp e (some result) p).1 _ (destroy_qp-SameLimits e result p)
      (destroy_all-SameLimits ds (ibv_destroy_qp e (some result) p).1)

full_process-denied :
    (e : Env) (made : Option ℕ) (qp_type : QpType) (p : Process)
    → rdma_intercept_is_enabled p ≡ true
    → p.core.config.enable_qp_control ≡ true
    → process_limit_ok p ≡ false
    → (ibv_create_qp e (some made) qp_type p).0.called ≡ false
unfolding ibv_create_qp check_qp_creation_restrictions check_tenant_qp_limit get_current_tenant_id
    process_limit_ok
full_process-denied e made qp_type p on control full = ground arith

-- With interception and QP control on, and the segment mapped: once the published count of queue
-- pairs of a process (below 2^32 - 1; its pid is positive) is at the per-process limit or above it,
-- no creation reaches the driver however many queue pairs the process destroys first: destroying
-- does not lower what is published.
pub create_qp-stale_limit :
    (ds : List (Env × ℕ)) (e : Env) (made : Option ℕ) (qp_type : QpType) (p : Process)
    (d : SharedMemoryData)
    → rdma_intercept_is_enabled p ≡ true
    → p.core.config.enable_qp_control ≡ true
    → p.shm.shm_data_ptr ≡ some d
    → int_pos p.pid ≡ true
    → p.core.config.max_qp_per_process ≤ (process_usage p.pid d).qp_count
    → (process_usage p.pid d).qp_count + 1 < 2 ^ 32
    → (ibv_create_qp e (some made) qp_type (destroy_all ds p)).0.called ≡ false
unfolding rdma_intercept_is_enabled process_limit_ok shm_get_process_resources
create_qp-stale_limit ds e made qp_type p d on control attached pos full word =
    let q = destroy_all ds p in
    let k = destroy_all-SameLimits ds p in
    full_process-denied e made qp_type q (rw (k.same_config, k.same_init) on)
      (rw k.same_config control) (ground (arith, k.same_pid, k.same_config, k.same_shm))

module _ (e : Env) (p : Process) (id : ℕ) (s : TenantShm) (b : IsBound p id s)
    (on : rdma_intercept_is_enabled p ≡ true) where
  -- The process after it has counted a destruction for itself.
  dropped : Process
  dropped = record p {
    core = record (p.core) {
      qp_count = if ltb 0 p.core.qp_count then p.core.qp_count - 1 else p.core.qp_count;
    };
  }

  dropped-IsBound : IsBound dropped id s
  unfolding dropped
  dropped-IsBound = record {
    ready = b.ready;
    attached = b.attached;
    whole = b.whole;
    nonzero = b.nonzero;
    below = b.below;
    live = b.live;
    mine = b.mine;
  }

  destroy_qp-charged :
      (ibv_destroy_qp e (some 0) p).1 ≡ at_segment dropped (recharged e id 0 minus_one s)
  unfolding ibv_destroy_qp record_destroy_qp dropped
  destroy_qp-charged = ground (arith, charge-IsBound e dropped id s dropped-IsBound 0 minus_one)

  recharged-IsBound :
      IsBound (at_segment dropped (recharged e id 0 minus_one s)) id (recharged e id 0 minus_one s)
  recharged-IsBound =
      charged-IsBound e (at_segment dropped (stamped e.now s)) id (stamped e.now s)
        (stamped-IsBound e dropped id s dropped-IsBound) 0 minus_one

  recharged-count :
      (tenant_at s id).usage.qp_count ≡ 0
      → (tenant_at (recharged e id 0 minus_one s) id).usage.qp_count ≡ 2 ^ 32 - 1
  unfolding count_usage tenant_shm_lock tenant_shm_unlock
  recharged-count z = ground (
    arith,
    charged-usage e (at_segment dropped (stamped e.now s)) id (stamped e.now s)
        (stamped-IsBound e dropped id s dropped-IsBound) 0 minus_one id,
  )

  recharged-limit : (tenant_at (recharged e id 0 minus_one s) id).quota ≡ (tenant_at s id).quota
  unfolding tenant_shm_lock tenant_shm_unlock
  recharged-limit =
      charged-quota e (at_segment dropped (stamped e.now s)) id (stamped e.now s)
        (stamped-IsBound e dropped id s dropped-IsBound) 0 minus_one id

  -- Where the count of an active tenant is 0, a queue pair that is destroyed leaves the count at
  -- 2^32 - 1, and then no creation reaches the driver, whatever the tenant's quota (below 2^32);
  -- interception and QP control are on.
  pub destroy_qp-underflow :
      (e' : Env) (made : Option ℕ) (qp_type : QpType) (t : TenantShm)
      → p.core.config.enable_qp_control ≡ true
      → (tenant_at s id).usage.qp_count ≡ 0
      → (tenant_at s id).quota.max_qp_per_tenant < 2 ^ 32
      → (ibv_destroy_qp e (some 0) p).1.tenant.g_tenant_shm ≡ some t
      → ((tenant_at t id).usage.qp_count ≡ 2 ^ 32 - 1)
        × ((ibv_create_qp e' (some made) qp_type (ibv_destroy_qp e (some 0) p).1).0.called ≡ false)
  unfolding rdma_intercept_is_enabled dropped
  destroy_qp-underflow e' made qp_type t control zero_count word i =
      let r = at_segment dropped (recharged e id 0 minus_one s) in
      (
        ground (arith, destroy_qp-charged, recharged-count zero_count),
        rw destroy_qp-charged (elim (Bool-cases (ibv_create_qp e' (some made) qp_type r).0.called) [
          | inr denied ↦ denied
          | inl called ↦
              let room =
                ((create_qp-admission e' qp_type r id (recharged e id 0 minus_one s)
                    recharged-IsBound on control made).0
                  called).tenant_room in
              absurd (ground (arith, room, recharged-count zero_count, recharged-limit))
        ]),
      )
