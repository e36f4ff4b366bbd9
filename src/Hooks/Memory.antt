-- ===== src/Hooks/Memory.antt =====
-- Memory regions under the hooks of src/rdma_hooks_tenant.c.
use rdma_intercept_ldperload.Base.{
  ℕ, ◌+◌, ◌-◌, ◌^◌, ◌≤◌, ◌<◌, ◌≡◌, ◌↔◌, ◌⊎◌, refl, sym, subst, true, false, Option, none, some,
  List, [], ◌∷◌, ◌==◌, leb, ltb, if◌then◌else◌, length, arith, u32, u64, minus_one, Bool-cases, inl,
  inr,
}
use rdma_intercept_ldperload.Tenant.{TenantShm}
use rdma_intercept_ldperload.Tenant.Segment.{tenant_shm_lock, tenant_shm_unlock}
use rdma_intercept_ldperload.Tenant.Lifecycle.{tenant_at}
use rdma_intercept_ldperload.Tenant.Ledger.Drift.{segment_or}
use rdma_intercept_ldperload.Hooks.{Process, Env, eperm, rdma_intercept_is_enabled}
use rdma_intercept_ldperload.Hooks.Tenancy.{count_usage}
use rdma_intercept_ldperload.Hooks.Checks.{mr_fits}
use rdma_intercept_ldperload.Hooks.Mr.{ibv_reg_mr, ibv_dereg_mr, record_reg_mr, record_dereg_mr}
use rdma_intercept_ldperload.Hooks.Views.{
  IsBound, stamped, at_segment, stamped-IsBound, get_current_tenant_id-IsBound,
  check_tenant_mr_limit-IsBound, charged, recharged, charged-IsBound, charged-usage, charge-IsBound,
  update_count-IsBound,
}

-- The process with other counters of its own.
abbrev recounted : Process → ℕ → ℕ → Process
recounted p n m = record p { core = record (p.core) { mr_count = n; memory_used = m } }

recounted-IsBound :
    (p : Process) (id n m : ℕ) (s : TenantShm) → IsBound p id s → IsBound (recounted p n m) id s
recounted-IsBound p id n m s b = record {
  ready = b.ready;
  attached = b.attached;
  whole = b.whole;
  nonzero = b.nonzero;
  below = b.below;
  live = b.live;
  mine = b.mine;
}

-- A process of a tenant whose memory record stands at `bytes` and whose quota is fixed.
record Holds (p : Process) (id bytes : ℕ) (s : TenantShm) : Type 0 where
  bound : IsBound p id s
  enabled : rdma_intercept_is_enabled p ≡ true
  memory : (tenant_at s id).usage.memory_used ≡ bytes

module _ (e : Env) (p : Process) (id bytes : ℕ) (s : TenantShm) (w : Holds p id bytes s) where
  stamped-Holds : Holds (at_segment p (stamped e.now s)) id bytes (stamped e.now s)
  unfolding tenant_shm_lock tenant_shm_unlock rdma_intercept_is_enabled
  stamped-Holds = record {
    bound = stamped-IsBound e p id s w.bound;
    enabled = w.enabled;
    memory = w.memory;
  }

  recounted-Holds : (n m : ℕ) → Holds (recounted p n m) id bytes s
  unfolding rdma_intercept_is_enabled
  recounted-Holds n m = record {
    bound = recounted-IsBound p id n m s w.bound;
    enabled = w.enabled;
    memory = w.memory;
  }

  charged-Holds :
      (delta : ℕ) → Holds (at_segment p (charged e id 1 delta s)) id bytes (charged e id 1 delta s)
  unfolding count_usage rdma_intercept_is_enabled
  charged-Holds delta = record {
    bound = charged-IsBound e p id s w.bound 1 delta;
    enabled = w.enabled;
    memory = ground (arith, charged-usage e p id s w.bound 1 delta id, w.memory);
  }

abbrev looked : Env → TenantShm → TenantShm
looked e s = stamped e.now (stamped e.now s)

module _ (e : Env) (p : Process) (id bytes : ℕ) (s : TenantShm) (w : Holds p id bytes s) where
  looked-Holds : Holds (at_segment p (looked e s)) id bytes (looked e s)
  looked-Holds =
      stamped-Holds e (at_segment p (stamped e.now s)) id bytes (stamped e.now s)
        (stamped-Holds e p id bytes s w)

  reg_mr_lem :
      (made : Option ℕ) (length : ℕ)
      → ibv_reg_mr e (some made) length p ≡ (
          if mr_fits length (tenant_at s id)
          then (
            record { value = made; errno = none; called = true },
            elim made [
              | none ↦ at_segment p (looked e s)
              | some m ↦
                  at_segment
                    (recounted p (u32 (p.core.mr_count + 1)) (u64 (p.core.memory_used + length)))
                    (charged e id 1 1 (looked e s))
            ],
          )
          else (
            record { value = none; errno = some eperm; called = false },
            at_segment p (looked e s),
          ))
  unfolding ibv_reg_mr record_reg_mr mr_fits tenant_shm_lock tenant_shm_unlock
  reg_mr_lem made length =
      let q = recounted p (u32 (p.core.mr_count + 1)) (u64 (p.core.memory_used + length)) in
      ground (
        arith,
        w.enabled,
        get_current_tenant_id-IsBound e p id s w.bound,
        check_tenant_mr_limit-IsBound e (at_segment p (stamped e.now s)) id (stamped e.now s)
            (stamped-IsBound e p id s w.bound) length,
        update_count-IsBound e (at_segment q (looked e s)) id (looked e s)
            (recounted-IsBound (at_segment p (looked e s)) id (u32 (p.core.mr_count + 1))
              (u64 (p.core.memory_used + length)) (looked e s) looked-Holds.bound)
            1 1,
      )

  reg_mr-Holds :
      (made : Option ℕ) (length : ℕ)
      → (t : TenantShm) × Holds (ibv_reg_mr e (some made) length p).1 id bytes t
  reg_mr-Holds none length =
      rw (reg_mr_lem none length) (elim (Bool-cases (mr_fits length (tenant_at s id))) [
        | inl ok ↦ rw ok (looked e s, looked-Holds)
        | inr no_room ↦ rw no_room (looked e s, looked-Holds)
      ])
  reg_mr-Holds (some m) length =
      rw (reg_mr_lem (some m) length) (elim (Bool-cases (mr_fits length (tenant_at s id))) [
        | inl ok ↦ rw ok (
          charged e id 1 1 (looked e s),
          charged-Holds e
              (recounted (at_segment p (looked e s)) (u32 (p.core.mr_count + 1))
                (u64 (p.core.memory_used + length)))
              id bytes (looked e s)
              (recounted-Holds e (at_segment p (looked e s)) id bytes (looked e s) looked-Holds _ _)
              1,
        )
        | inr no_room ↦ rw no_room (looked e s, looked-Holds)
      ])

  recorded_dereg-Holds :
      (length : ℕ) → (t : TenantShm) × Holds (record_dereg_mr e length p) id bytes t
  unfolding record_dereg_mr
  recorded_dereg-Holds length =
      let n = if ltb 0 p.core.mr_count then p.core.mr_count - 1 else p.core.mr_count in
      let m =
        if leb length p.core.memory_used then p.core.memory_used - length else p.core.memory_used in
      let w' = recounted-Holds e p id bytes s w n m in
      (
        recharged e id 1 minus_one s,
        subst (λ r. Holds r id bytes (recharged e id 1 minus_one s))
            (sym (charge-IsBound e (recounted p n m) id s w'.bound 1 minus_one))
            (charged-Holds e (at_segment (recounted p n m) (stamped e.now s)) id bytes
              (stamped e.now s) (stamped-Holds e (recounted p n m) id bytes s w') minus_one),
      )

  dereg_mr-Holds :
      (result : ℕ) (mr : Option ℕ)
      → (t : TenantShm) × Holds (ibv_dereg_mr e (some result) mr p).1 id bytes t
  unfolding ibv_dereg_mr
  dereg_mr-Holds result mr = elim (Bool-cases (result == 0)) [
    | inl gone ↦ rw (w.enabled, gone) (recorded_dereg-Holds _)
    | inr kept ↦ rw (w.enabled, kept) (s, w)
  ]

pub data MrEvent : Type 0 where
  registers : Option ℕ → ℕ → MrEvent
  deregisters : ℕ → Option ℕ → MrEvent

pub step : Env → MrEvent → Process → Process
step e (registers made length) p = (ibv_reg_mr e (some made) length p).1
step e (deregisters result mr) p = (ibv_dereg_mr e (some result) mr p).1

pub run : List (Env × MrEvent) → Process → Process
run [] p = p
run ((e, ev) ∷ evs) p = run evs (step e ev p)

run-Holds :
    (evs : List (Env × MrEvent)) (p : Process) (id bytes : ℕ) (s : TenantShm)
    → Holds p id bytes s
    → (t : TenantShm) × Holds (run evs p) id bytes t
unfolding run step
run-Holds [] p id bytes s w = (s, w)
run-Holds ((e, registers made length) ∷ evs) p id bytes s w =
    let (t, w') = reg_mr-Holds e p id bytes s w made length in
    run-Holds evs (ibv_reg_mr e (some made) length p).1 id bytes t w'
run-Holds ((e, deregisters result mr) ∷ evs) p id bytes s w =
    let (t, w') = dereg_mr-Holds e p id bytes s w result mr in
    run-Holds evs (ibv_dereg_mr e (some result) mr p).1 id bytes t w'

-- However many regions a process of an active tenant registers and deregisters, the tenant's record
-- of memory used stays where it was, and the process stays attached: the hooks never charge a
-- region's bytes.
pub memory_used-run :
    (evs : List (Env × MrEvent)) (p : Process) (id : ℕ) (s : TenantShm)
    → IsBound p id s
    → rdma_intercept_is_enabled p ≡ true
    → let t = segment_or (run evs p).tenant s in
      ((run evs p).tenant.g_tenant_shm ≡ some t)
      × ((tenant_at t id).usage.memory_used ≡ (tenant_at s id).usage.memory_used)
memory_used-run evs p id s b on =
    let w : Holds p id (tenant_at s id).usage.memory_used s = record {
      bound = b;
      enabled = on;
      memory = refl;
    } in
    let (t', w') = run-Holds evs p id (tenant_at s id).usage.memory_used s w in
    (ground (arith, w'.bound.attached), ground (arith, w'.memory, w'.bound.attached))

-- For a process of an active tenant with interception on, a registration reaches the driver exactly
-- when the tenant's count of regions is below its quota and the bytes fit its memory quota, where a
-- memory quota of 0 is none; the sum of the bytes does not wrap.
pub reg_mr-admission :
    (e : Env) (made : Option ℕ) (length : ℕ) (p : Process) (id : ℕ) (s : TenantShm)
    → IsBound p id s
    → rdma_intercept_is_enabled p ≡ true
    → (tenant_at s id).usage.memory_used + length < 2 ^ 64
    → ((ibv_reg_mr e (some made) length p).0.called ≡ true) ↔ (
        ((tenant_at s id).usage.mr_count < (tenant_at s id).quota.max_mr_per_tenant)
        × (((tenant_at s id).quota.max_memory_per_tenant ≡ 0)
            ⊎ ((tenant_at s id).usage.memory_used + length
                ≤ (tenant_at s id).quota.max_memory_per_tenant)))
unfolding mr_fits
reg_mr-admission e made length p id s b on word =
    let w : Holds p id (tenant_at s id).usage.memory_used s = record {
      bound = b;
      enabled = on;
      memory = refl;
    } in
    let shape = reg_mr_lem e p id (tenant_at s id).usage.memory_used s w made length in
    (λ c. ground (arith, shape), λ a. ground (arith, shape))
