-- ===== src/Manager/Commands.antt =====
-- src/tenant_manager.c: the commands of the command line tool that change the tenants.
use rdma_intercept_ldperload.Base.{ℕ, ◌*◌, Option, none, some, take, u32}
use rdma_intercept_ldperload.Text.{Bytes, codes}
use rdma_intercept_ldperload.Text.Decimal.{skip_number, scan_unsigned}
use rdma_intercept_ldperload.Text.{after_prefix}
use rdma_intercept_ldperload.Shm.{Status, failure}
use rdma_intercept_ldperload.Tenant.{TenantQuota, TenantHandle}
use rdma_intercept_ldperload.Tenant.Segment.{TenantReplies}
use rdma_intercept_ldperload.Tenant.Lifecycle.{tenant_create, tenant_delete}
use rdma_intercept_ldperload.Policy.{TenantPolicy, PolicyState}
use rdma_intercept_ldperload.Policy.TenantPolicies.{
  zero_rule, zero_config, set_tenant_policy, delete_tenant_policy,
}

-- What one process of the tool works on: the tenants and the policies.
pub record Tool : Type 0 where
  pub tenants : TenantHandle
  pub policies : PolicyState

abbrev pub tool_quota : TenantQuota
tool_quota = record {
  max_qp_per_tenant = 100;
  max_mr_per_tenant = 1000;
  max_memory_per_tenant = 1024 * 1024 * 1024;
  max_cq_per_tenant = 100;
  max_pd_per_tenant = 100;
}

-- A number of `sscanf` with `%u`, and what follows it.
unfoldable pub scan_u32 : Bytes → Option (ℕ × Bytes)
scan_u32 s = elim (scan_unsigned s) [ none ↦ none | some n ↦ some (u32 n, skip_number s) ]

-- The same in front of a comma.
unfoldable pub scan_comma : Bytes → Option (ℕ × Bytes)
unfolding scan_u32
scan_comma s = elim (scan_u32 s) [
  | none ↦ none
  | some (n, rest) ↦ elim (after_prefix (codes ",") rest) [ none ↦ none | some t ↦ some (n, t) ]
]

-- `sscanf(quota_str, "%u,%u,%u", &qp, &mr, &mem_mb) == 3`, over the default quota.
unfoldable pub scan_quota : Bytes → Option TenantQuota
unfolding scan_comma
scan_quota text = elim (scan_comma text) [
  | none ↦ none
  | some (qp, more) ↦ elim (scan_comma more) [
    | none ↦ none
    | some (mr, last) ↦ elim (scan_u32 last) [
      | none ↦ none
      | some (mem_mb, rest) ↦ some (record tool_quota {
        max_qp_per_tenant = qp;
        max_mr_per_tenant = mr;
        max_memory_per_tenant = mem_mb * 1024 * 1024;
      })
    ]
  ]
]

abbrev pub chosen_name : Option Bytes → Bytes
chosen_name none = codes "unnamed"
chosen_name (some n) = n

-- The policy that a created tenant gets.
unfoldable pub tool_policy : ℕ → Option Bytes → TenantQuota → TenantPolicy
tool_policy id name quota = record {
  tenant_id = id;
  tenant_name = take 63 (chosen_name name);
  policy = record zero_config {
    qp_policy = record zero_rule {
      limit = record {
        max_per_process = quota.max_qp_per_tenant;
        max_global = quota.max_qp_per_tenant;
        max_memory = 0;
      };
    };
    mr_policy = record zero_rule {
      limit = record {
        max_per_process = quota.max_mr_per_tenant;
        max_global = quota.max_mr_per_tenant;
        max_memory = 0;
      };
    };
    memory_policy = record zero_rule {
      limit = record {
        max_per_process = 0;
        max_global = 0;
        max_memory = quota.max_memory_per_tenant;
      };
    };
  };
  last_updated = 0;
}

-- The policy, then the tenant; the policy's result is not looked at.
unfoldable pub create_with :
    TenantReplies → ℕ → ℕ → Option Bytes → TenantQuota → Tool → Status × Tool
unfolding tool_policy
create_with r now id name quota t =
    let policies = (set_tenant_policy now id (some (tool_policy id name quota)) t.policies).1 in
    let (result, tenants) = tenant_create r now id name (some quota) t.tenants in
    (result, record { tenants = tenants; policies = policies })

-- `quota_str` is `none` where the option is not given.
unfoldable pub cmd_create_tenant :
    TenantReplies → ℕ → ℕ → Option Bytes → Option Bytes → Tool → Status × Tool
unfolding create_with scan_quota
cmd_create_tenant r now id name none t = create_with r now id name tool_quota t
cmd_create_tenant r now id name (some quota_str) t = elim (scan_quota quota_str) [
  | none ↦ (failure, t)
  | some quota ↦ create_with r now id name quota t
]

unfoldable pub cmd_delete_tenant : TenantReplies → ℕ → ℕ → Tool → Status × Tool
cmd_delete_tenant r now id t =
    let policies = (delete_tenant_policy id t.policies).1 in
    let (result, tenants) = tenant_delete r now id t.tenants in
    (result, record { tenants = tenants; policies = policies })
