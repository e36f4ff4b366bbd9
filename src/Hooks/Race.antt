-- ===== src/Hooks/Race.antt =====
-- Two processes of one tenant that create queue pairs through src/rdma_hooks_tenant.c at the same
-- time: the tests and the count are separate calls on the shared segment.
use rdma_intercept_ldperload.Base.{ℕ, ◌+◌, ◌^◌, ◌<◌, ◌≡◌, refl, Bool, true, u32, arith, some}
use rdma_intercept_ldperload.Tenant.{TenantShm}
use rdma_intercept_ldperload.Tenant.Lifecycle.{tenant_at}
use rdma_intercept_ldperload.Tenant.Segment.{tenant_shm_lock, tenant_shm_unlock}
use rdma_intercept_ldperload.Tenant.Ledger.Drift.{segment_or}
use rdma_intercept_ldperload.Hooks.{Process, Env, QpType}
use rdma_intercept_ldperload.Hooks.Tenancy.{count_usage}
use rdma_intercept_ldperload.Hooks.Checks.{
  type_allowed, process_limit_ok, global_limit_ok, check_qp_creation_restrictions,
}
use rdma_intercept_ldperload.Hooks.Qp.{record_create_qp}
use rdma_intercept_ldperload.Hooks.Views.{
  IsBound, stamped, at_segment, stamped-IsBound, charged-usage, recharged, charged-IsBound,
  charge-IsBound,
}
use rdma_intercept_ldperload.Hooks.Quota.{
  check_restrictions-IsBound, checked, checked-IsBound, published, published-IsBound,
}

-- Both processes test, then both record what the driver made for them.
pub interleaved : Env → QpType → Process → Process → TenantShm → Bool × Bool × TenantShm
interleaved e kind p q s =
    let (p_ok, p) = check_qp_creation_restrictions e kind (at_segment p s) in
    let s = segment_or p.tenant s in
    let (q_ok, q) = check_qp_creation_restrictions e kind (at_segment q s) in
    let s = segment_or q.tenant s in
    let s = segment_or (record_create_qp e (at_segment p s)).tenant s in
    let s = segment_or (record_create_qp e (at_segment q s)).tenant s in (p_ok, q_ok, s)

-- A process that nothing but the tenant's quota can deny.
pub record IsFree (kind : QpType) (p : Process) : Type 0 where
  pub control : p.core.config.enable_qp_control ≡ true
  pub allowed : type_allowed kind p.core.config ≡ true
  pub process_room : process_limit_ok p ≡ true
  pub global_room : global_limit_ok p ≡ true

module _ (e : Env) (kind : QpType) (p : Process) (id : ℕ) (s : TenantShm) (b : IsBound p id s)
    (f : IsFree kind p) where
  passes :
      (tenant_at s id).usage.qp_count < (tenant_at s id).quota.max_qp_per_tenant
      → check_qp_creation_restrictions e kind (at_segment p s) ≡ (true, at_segment p (checked e s))
  unfolding process_limit_ok global_limit_ok
  passes room = ground (
    arith,
    b.attached,
    check_restrictions-IsBound e kind p id s b f.control,
    f.allowed,
    f.process_room,
    f.global_room,
  )

  records : (record_create_qp e (at_segment p s)).tenant.g_tenant_shm ≡ some (recharged e id 0 1 s)
  unfolding record_create_qp
  records =
      ground (
        arith,
        b.attached,
        charge-IsBound e (published e p) id s (published-IsBound e p id s b) 0 1,
      )

  -- One recorded creation, seen from any process of the tenant.
  recharged_count :
      (tenant_at (recharged e id 0 1 s) id).usage.qp_count
      ≡ u32 ((tenant_at s id).usage.qp_count + 1)
  unfolding count_usage tenant_shm_lock tenant_shm_unlock
  recharged_count = ground (
    arith,
    charged-usage e (at_segment p (stamped e.now s)) id (stamped e.now s)
        (stamped-IsBound e p id s b) 0 1 id,
  )

  recharged-IsBound : IsBound (at_segment p (recharged e id 0 1 s)) id (recharged e id 0 1 s)
  recharged-IsBound =
      charged-IsBound e (at_segment p (stamped e.now s)) id (stamped e.now s)
        (stamped-IsBound e p id s b) 0 1

at_segment-IsFree :
    (kind : QpType) (p : Process) (s : TenantShm) → IsFree kind p → IsFree kind (at_segment p s)
unfolding process_limit_ok global_limit_ok
at_segment-IsFree kind p s f = record {
  control = f.control;
  allowed = f.allowed;
  process_room = f.process_room;
  global_room = f.global_room;
}

-- Where a tenant is one queue pair below its quota and two of its processes test before either
-- records, both pass, and the tenant's count ends one above its quota. Nothing but the quota could
-- deny either of them.
pub interleaved-over_quota :
    (e : Env) (kind : QpType) (p q : Process) (id : ℕ) (s : TenantShm)
    → IsBound p id s
    → IsBound q id s
    → IsFree kind p
    → IsFree kind q
    → (tenant_at s id).usage.qp_count + 1 ≡ (tenant_at s id).quota.max_qp_per_tenant
    → (tenant_at s id).quota.max_qp_per_tenant + 1 < 2 ^ 32
    → let (p_ok, q_ok, t) = interleaved e kind p q s in
      (p_ok ≡ true)
      × (q_ok ≡ true)
      × ((tenant_at t id).usage.qp_count ≡ (tenant_at s id).quota.max_qp_per_tenant + 1)
unfolding interleaved tenant_shm_lock tenant_shm_unlock
interleaved-over_quota e kind p q id s bp bq fp fq last word =
    let s1 = checked e s in
    let s2 = checked e s1 in
    let s3 = recharged e id 0 1 s2 in
    let bp1 = checked-IsBound e p id s bp in
    let bq1 = checked-IsBound e q id s bq in
    let bp2 = checked-IsBound e (at_segment p s1) id s1 bp1 in
    let bq2 = checked-IsBound e (at_segment q s1) id s1 bq1 in
    let fp2 = at_segment-IsFree kind p s2 fp in
    let fq1 = at_segment-IsFree kind q s1 fq in
    let fq2 = at_segment-IsFree kind q s2 fq in
    let fq3 = at_segment-IsFree kind q s3 fq in
    let bq3 = recharged-IsBound e kind (at_segment q s2) id s2 bq2 fq2 in
    let first : segment_or (record_create_qp e (at_segment p s2)).tenant s2 ≡ s3 =
      ground (arith, records e kind (at_segment p s2) id s2 bp2 fp2) in
    let second : segment_or (record_create_qp e (at_segment q s3)).tenant s3
        ≡ recharged e id 0 1 s3 =
      ground (arith, records e kind (at_segment q s3) id s3 bq3 fq3) in
    rw
      (
        passes e kind p id s bp fp (ground arith),
        passes e kind (at_segment q s1) id s1 bq1 fq1 (ground arith),
        first,
        second,
      )
      (
        refl,
        refl,
        ground (
          arith,
          recharged_count e kind (at_segment p s2) id s2 bp2 fp2,
          recharged_count e kind (at_segment q s3) id s3 bq3 fq3,
        ),
      )
