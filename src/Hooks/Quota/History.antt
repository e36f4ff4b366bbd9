-- ===== src/Hooks/Quota/History.antt =====
-- The quota of queue pairs over whole histories of src/rdma_hooks_tenant.c.
use rdma_intercept_ldperload.Base.{
  ℕ, ◌+◌, ◌-◌, ◌^◌, ◌≤◌, ◌<◌, ◌≡◌, ◌⊎◌, ◌∙◌, refl, sym, subst, true, false, Option, none, some,
  List, [], ◌∷◌, ◌==◌, ltb, if◌then◌else◌, arith, u32, minus_one, Bool-cases, inl, inr,
}
use rdma_intercept_ldperload.Tenant.{TenantQuota, TenantShm}
use rdma_intercept_ldperload.Tenant.Segment.{tenant_shm_lock, tenant_shm_unlock}
use rdma_intercept_ldperload.Tenant.Lifecycle.{tenant_at}
use rdma_intercept_ldperload.Hooks.{Process, Env, QpType, rdma_intercept_is_enabled}
use rdma_intercept_ldperload.Hooks.Tenancy.{count_usage, charge}
use rdma_intercept_ldperload.Hooks.Checks.{type_allowed}
use rdma_intercept_ldperload.Hooks.Qp.{ibv_create_qp, ibv_destroy_qp, record_destroy_qp}
use rdma_intercept_ldperload.Hooks.Views.{
  IsBound, stamped, at_segment, stamped-IsBound, charged, recharged, charged-IsBound, charged-usage,
  charged-quota, charge-IsBound,
}
use rdma_intercept_ldperload.Hooks.Quota.{
  checked, published, create_qp-admission, create_qp-made, create_qp-unmade,
}

-- What the application asks of the hooks, with what the driver answers.
pub data QpEvent : Type 0 where
  creates : QpType → Option ℕ → QpEvent
  destroys : ℕ → QpEvent

pub step : Env → QpEvent → Process → Process
step e (creates qp_type made) p = (ibv_create_qp e (some made) qp_type p).1
step e (destroys result) p = (ibv_destroy_qp e (some result) p).1

pub run : List (Env × QpEvent) → Process → Process
run [] p = p
run ((e, ev) ∷ evs) p = run evs (step e ev p)

-- The tenant's count of queue pairs, as the process sees it.
abbrev pub qp_count_of : ℕ → Process → ℕ
qp_count_of id p = elim p.tenant.g_tenant_shm [
  | none ↦ 0
  | some s ↦ (tenant_at s id).usage.qp_count
]

-- Queue pairs are destroyed only while the tenant is charged for some.
abbrev pub Sound : ℕ → List (Env × QpEvent) → Process → Type 0
Sound id [] p = Unit
Sound id ((e, creates qp_type made) ∷ evs) p = Sound id evs (step e (creates qp_type made) p)
Sound id ((e, destroys result) ∷ evs) p =
    (0 < qp_count_of id p) × Sound id evs (step e (destroys result) p)

-- A controlled process of a tenant that keeps its quota.
pub record IsWithin (p : Process) (id : ℕ) (quota : TenantQuota) (s : TenantShm) : Type 0 where
  pub bound : IsBound p id s
  pub enabled : rdma_intercept_is_enabled p ≡ true
  pub controlled : p.core.config.enable_qp_control ≡ true
  pub same_quota : (tenant_at s id).quota ≡ quota
  pub word : quota.max_qp_per_tenant < 2 ^ 32
  pub within : (tenant_at s id).usage.qp_count ≤ quota.max_qp_per_tenant

module _ (e : Env) (p : Process) (id : ℕ) (quota : TenantQuota) (s : TenantShm) where
  stamped-IsWithin :
      IsWithin p id quota s → IsWithin (at_segment p (stamped e.now s)) id quota (stamped e.now s)
  unfolding tenant_shm_lock tenant_shm_unlock rdma_intercept_is_enabled
  stamped-IsWithin w = record {
    bound = stamped-IsBound e p id s w.bound;
    enabled = w.enabled;
    controlled = w.controlled;
    same_quota = w.same_quota;
    word = w.word;
    within = w.within;
  }

  -- One event charged to the tenant, if the count that it leaves is within the quota.
  charged-IsWithin :
      (delta : ℕ)
      → IsWithin p id quota s
      → u32 ((tenant_at s id).usage.qp_count + delta) ≤ quota.max_qp_per_tenant
      → IsWithin (at_segment p (charged e id 0 delta s)) id quota (charged e id 0 delta s)
  unfolding count_usage rdma_intercept_is_enabled
  charged-IsWithin delta w l = record {
    bound = charged-IsBound e p id s w.bound 0 delta;
    enabled = w.enabled;
    controlled = w.controlled;
    same_quota = charged-quota e p id s w.bound 0 delta id ∙ w.same_quota;
    word = w.word;
    within = ground (arith, charged-usage e p id s w.bound 0 delta id);
  }

-- The process's own counters play no part.
counted-IsWithin :
    (p q : Process) (id : ℕ) (quota : TenantQuota) (s : TenantShm)
    → q.tenant ≡ p.tenant
    → q.pid ≡ p.pid
    → q.tenant_initialized ≡ p.tenant_initialized
    → q.core.config ≡ p.core.config
    → q.core.initialized ≡ p.core.initialized
    → IsWithin p id quota s
    → IsWithin q id quota s
unfolding rdma_intercept_is_enabled
counted-IsWithin p q id quota s t i r c n w = record {
  bound = record {
    ready = r ∙ w.bound.ready;
    attached = rw t w.bound.attached;
    whole = w.bound.whole;
    nonzero = w.bound.nonzero;
    below = w.bound.below;
    live = w.bound.live;
    mine = rw i w.bound.mine;
  };
  enabled = rw (c, n) w.enabled;
  controlled = rw c w.controlled;
  same_quota = w.same_quota;
  word = w.word;
  within = w.within;
}

module _ (e : Env) (p : Process) (id : ℕ) (quota : TenantQuota) (s : TenantShm)
    (w : IsWithin p id quota s) where
  checked-IsWithin : IsWithin (at_segment p (checked e s)) id quota (checked e s)
  checked-IsWithin =
      stamped-IsWithin e (at_segment p (stamped e.now s)) id quota (stamped e.now s)
        (stamped-IsWithin e p id quota s w)

  unmade-IsWithin :
      (qp_type : QpType) (made : Option ℕ)
      → (made ≡ none) ⊎ ((ibv_create_qp e (some made) qp_type p).0.called ≡ false)
      → (t : TenantShm) × IsWithin (ibv_create_qp e (some made) qp_type p).1 id quota t
  unmade-IsWithin qp_type made c =
      rw (create_qp-unmade e qp_type p id s w.bound w.enabled w.controlled made c)
        (elim (Bool-cases (type_allowed qp_type p.core.config)) [
          | inl ok ↦ rw ok (checked e s, checked-IsWithin)
          | inr denied ↦ rw denied (s, w)
        ])

  made-IsWithin :
      (qp_type : QpType) (q : ℕ)
      → (ibv_create_qp e (some (some q)) qp_type p).0.called ≡ true
      → (t : TenantShm) × IsWithin (ibv_create_qp e (some (some q)) qp_type p).1 id quota t
  unfolding tenant_shm_lock tenant_shm_unlock
  made-IsWithin qp_type q called =
      let room =
        ((create_qp-admission e qp_type p id s w.bound w.enabled w.controlled (some q)).0
          called).tenant_room in
      rw (create_qp-made e qp_type p id s w.bound w.enabled w.controlled q called) (
        recharged e id 0 1 (checked e s),
        charged-IsWithin e (at_segment (published e p) (stamped e.now (checked e s))) id quota
            (stamped e.now (checked e s)) 1
            (counted-IsWithin (at_segment p (stamped e.now (checked e s)))
              (at_segment (published e p) (stamped e.now (checked e s))) id quota
              (stamped e.now (checked e s)) refl refl refl refl refl
              (stamped-IsWithin e (at_segment p (checked e s)) id quota (checked e s)
                checked-IsWithin))
            (ground (arith, room, w.word, w.same_quota)),
      )

  create_qp-IsWithin :
      (qp_type : QpType) (made : Option ℕ)
      → (t : TenantShm) × IsWithin (step e (creates qp_type made) p) id quota t
  unfolding step
  create_qp-IsWithin qp_type none = unmade-IsWithin qp_type none (inl refl)
  create_qp-IsWithin qp_type (some q) =
      elim (Bool-cases (ibv_create_qp e (some (some q)) qp_type p).0.called) [
        | inl called ↦ made-IsWithin qp_type q called
        | inr denied ↦ unmade-IsWithin qp_type (some q) (inr denied)
      ]

  destroyed-IsWithin :
      0 < qp_count_of id p → (t : TenantShm) × IsWithin (record_destroy_qp e p) id quota t
  unfolding record_destroy_qp charge tenant_shm_lock tenant_shm_unlock
  destroyed-IsWithin live =
      let q = record p {
        core = record (p.core) {
          qp_count = if ltb 0 p.core.qp_count then p.core.qp_count - 1 else p.core.qp_count;
        };
      } in
      let w' = counted-IsWithin p q id quota s refl refl refl refl refl w in
      (
        recharged e id 0 minus_one s,
        subst (λ r. IsWithin r id quota (recharged e id 0 minus_one s))
            (sym (charge-IsBound e q id s w'.bound 0 minus_one))
            (charged-IsWithin e (at_segment q (stamped e.now s)) id quota (stamped e.now s)
              minus_one (stamped-IsWithin e q id quota s w')
              (ground (arith, w.within, w.word, w.bound.attached))),
      )

  destroy_qp-IsWithin :
      (result : ℕ)
      → 0 < qp_count_of id p
      → (t : TenantShm) × IsWithin (step e (destroys result) p) id quota t
  unfolding step ibv_destroy_qp
  destroy_qp-IsWithin result live = elim (Bool-cases (result == 0)) [
    | inl gone ↦ rw (gone, w.enabled) (destroyed-IsWithin live)
    | inr kept ↦ rw (kept, w.enabled) (s, w)
  ]

-- Whatever a process of an active tenant asks and whatever the driver answers, the tenant's count
-- of queue pairs never passes its quota; interception and QP control are on, the count starts
-- within the quota, and queue pairs are destroyed only while the tenant is charged for some.
pub run-IsWithin :
    (evs : List (Env × QpEvent)) (p : Process) (id : ℕ) (quota : TenantQuota) (s : TenantShm)
    → IsWithin p id quota s
    → Sound id evs p
    → qp_count_of id (run evs p) ≤ quota.max_qp_per_tenant
unfolding run
run-IsWithin [] p id quota s w g = ground (arith, w.within, w.bound.attached)
run-IsWithin ((e, creates qp_type made) ∷ evs) p id quota s w g =
    let (t, w') = create_qp-IsWithin e p id quota s w qp_type made in
    run-IsWithin evs (step e (creates qp_type made) p) id quota t w' g
run-IsWithin ((e, destroys result) ∷ evs) p id quota s w g =
    let (t, w') = destroy_qp-IsWithin e p id quota s w result g.0 in
    run-IsWithin evs (step e (destroys result) p) id quota t w' g.1
