-- ===== src/Policy/Laws.antt =====
-- src/dynamic_policy_manager.c: what a limit that is set, switched off or reset does to the checks.
use rdma_intercept_ldperload.Base.{ℕ, ◌<◌, ◌≡◌, ◌^◌, Bool, true, some, arith, ◌==◌, if◌then◌else◌}
use rdma_intercept_ldperload.Shm.{success, ResourceUsage}
use rdma_intercept_ldperload.Policy.{
  Resource, resource_qp, resource_mr, resource_cq, resource_pd, resource_memory, resource_other,
  ResourceLimit, PolicyState,
}
use rdma_intercept_ldperload.Policy.Rules.{
  resource_code, put_limit, set_limit, get_limit, check_limit, put_enabled, enable_rule,
  set_default_config, set_default,
}

-- A limit that is accepted is what a reader of that resource gets; a reader of any other resource
-- gets what it got before.
pub set_limit-get_limit :
    (r q : Resource) (l : ResourceLimit) (s : PolicyState)
    → (set_limit r (some l) s).0 ≡ success
    → get_limit q (set_limit r (some l) s).1
      ≡ (if resource_code q == resource_code r then some l else get_limit q s)
unfolding set_limit put_limit get_limit
set_limit-get_limit resource_qp q l s ok = ground arith
set_limit-get_limit resource_mr q l s ok = ground arith
set_limit-get_limit resource_cq q l s ok = ground arith
set_limit-get_limit resource_pd q l s ok = ground arith
set_limit-get_limit resource_memory q l s ok = ground arith
set_limit-get_limit resource_other q l s ok = ground arith

-- Switching a rule on or off changes no answer of the limit check, for any resource.
pub enable_rule-check_limit :
    (stack : ResourceUsage) (r q : Resource) (enable : Bool) (current requested : ℕ)
    (s : PolicyState)
    → check_limit stack q current requested (enable_rule r enable s).1
      ≡ check_limit stack q current requested s
unfolding check_limit get_limit enable_rule put_enabled
enable_rule-check_limit stack resource_qp q b n m s = ground arith
enable_rule-check_limit stack resource_mr q b n m s = ground arith
enable_rule-check_limit stack resource_cq q b n m s = ground arith
enable_rule-check_limit stack resource_pd q b n m s = ground arith
enable_rule-check_limit stack resource_memory q b n m s = ground arith
enable_rule-check_limit stack resource_other q b n m s = ground arith

-- After `dynamic_policy_set_default` the limit check denies every request for memory that is not
-- empty and fits 32 bits, whatever is in use.
pub set_default-check_limit :
    (stack : ResourceUsage) (now current requested : ℕ) (s : PolicyState)
    → 0 < requested
    → requested < 2 ^ 32
    → check_limit stack resource_memory current requested (set_default now s).1 ≡ true
unfolding check_limit get_limit set_default set_default_config
set_default-check_limit stack now current requested s some_asked word = ground arith
