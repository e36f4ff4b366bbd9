-- ===== src/Policy/TenantPolicies.antt =====
-- src/dynamic_policy_manager.c: the policies of the tenants, in the process's own memory.
use rdma_intercept_ldperload.Base.{
  ℕ, zero, suc, ◌+◌, Bool, false, not, List, [], ◌∷◌, Option, none, some, u32, ◌==◌, ltb, leb,
  int_pos, if◌then◌else◌, get_or, set,
}
use rdma_intercept_ldperload.Shm.{Status, success, failure}
use rdma_intercept_ldperload.Tenant.{max_tenants}
use rdma_intercept_ldperload.Policy.{
  static_type, Resource, resource_qp, PolicyRule, PolicyConfig, TenantPolicy, PolicyState,
}
use rdma_intercept_ldperload.Policy.Rules.{zero_limit, rule_of}

-- What `memset(…, 0, …)` leaves.
abbrev pub zero_rule : PolicyRule
zero_rule = record {
  rule_id = 0;
  kind = static_type;
  resource = resource_qp;
  limit = zero_limit;
  priority = 0;
  created_at = 0;
  expires_at = 0;
  enabled = false;
}

abbrev pub zero_config : PolicyConfig
zero_config = record {
  qp_policy = zero_rule;
  mr_policy = zero_rule;
  cq_policy = zero_rule;
  pd_policy = zero_rule;
  memory_policy = zero_rule;
  auto_adjust = false;
  adjust_interval = 0;
  high_watermark = 0;
  low_watermark = 0;
}

abbrev pub zero_policy : TenantPolicy
zero_policy = record { tenant_id = 0; tenant_name = []; policy = zero_config; last_updated = 0 }

unfoldable pub set_tenant_policy : ℕ → ℕ → Option TenantPolicy → PolicyState → Status × PolicyState
set_tenant_policy now id none s = (failure, s)
set_tenant_policy now id (some t) s = if leb max_tenants id then (failure, s) else (
  success,
  record s { tenant_policies = set s.tenant_policies id (record t { last_updated = now }) },
)

-- `none` is the return code -1.
unfoldable pub get_tenant_policy : ℕ → PolicyState → Option TenantPolicy
get_tenant_policy id s =
    if leb max_tenants id then none else some (get_or s.tenant_policies id zero_policy)

unfoldable pub delete_tenant_policy : ℕ → PolicyState → Status × PolicyState
delete_tenant_policy id s =
    if leb max_tenants id
    then (failure, s)
    else (success, record s { tenant_policies = set s.tenant_policies id zero_policy })

-- True is a denial.
unfoldable pub check_tenant_limit : ℕ → Resource → ℕ → ℕ → PolicyState → Bool
unfolding get_tenant_policy
check_tenant_limit id resource current_usage requested s = elim (get_tenant_policy id s) [
  | none ↦ false
  | some t ↦ elim (rule_of resource t.policy) [
    | none ↦ false
    | some rule ↦ ltb rule.limit.max_per_process (u32 (current_usage + requested))
  ]
]

-- The loop of `dynamic_policy_get_all_tenant_policies`, with room for `n` more.
unfoldable pub collect_policies : ℕ → List TenantPolicy → List TenantPolicy
collect_policies n [] = []
collect_policies zero (t ∷ ts) = []
collect_policies (suc n) (t ∷ ts) =
    if not (t.tenant_id == 0) then t ∷ collect_policies n ts else collect_policies (suc n) ts

unfoldable pub get_all_tenant_policies : ℕ → PolicyState → Option (List TenantPolicy)
unfolding collect_policies
get_all_tenant_policies max_count s =
    if int_pos max_count then some (collect_policies max_count s.tenant_policies) else none
