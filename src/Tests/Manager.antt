-- ===== src/Tests/Manager.antt =====
-- The theorems on the tenant manager at concrete commands.
use rdma_intercept_ldperload.Base.{
  ◌*◌, ◌≡◌, refl, arith, not, ◌&&◌, none, some, [], ◌∷◌, ◌==◌, ltb, if◌then◌else◌, replicate,
}
use rdma_intercept_ldperload.Text.{codes, after_prefix, read_digits, skip_spaces}
use rdma_intercept_ldperload.Text.Decimal.{
  print_unsigned, put_digits, scan_unsigned, read_signed, read_number, to_unsigned, skip_number,
  skip_digits,
}
use rdma_intercept_ldperload.Shm.{success, failure}
use rdma_intercept_ldperload.Tenant.{
  TenantQuota, TenantInfo, active, TenantShm, max_tenants, is_inactive,
}
use rdma_intercept_ldperload.Tenant.Segment.{fresh_segment}
use rdma_intercept_ldperload.Tenant.Lifecycle.{
  tenant_at, new_tenant, create_locked, tenant_create, tenant_get_info, tenant_update_quota,
  update_quota_locked,
}
use rdma_intercept_ldperload.Tenant.Binding.{bind_locked, bind_new}
use rdma_intercept_ldperload.Tenant.Ledger.{owner_in}
use rdma_intercept_ldperload.Tenant.Ledger.Drift.{segment_or}
use rdma_intercept_ldperload.Tenant.Registry.{HasRegistry}
use rdma_intercept_ldperload.Policy.{TenantPolicy, PolicyState}
use rdma_intercept_ldperload.Policy.TenantPolicies.{
  zero_rule, zero_config, zero_policy, get_tenant_policy,
}
use rdma_intercept_ldperload.Manager.{Command, DaemonEnv}
use rdma_intercept_ldperload.Manager.Daemon.{apply_quota, stamp_unlocked, handle_update_quota}
use rdma_intercept_ldperload.Manager.Commands.{
  Tool, tool_quota, cmd_create_tenant, create_with, scan_quota, scan_comma, scan_u32,
}
use rdma_intercept_ldperload.Manager.Service.{
  serve_commands, serve_commands-HasRegistry, update_quota-tenants,
}
use rdma_intercept_ldperload.Manager.Creation.{
  quota_text, scan_quota-quota_text, cmd_create_tenant-get_info, cmd_create_tenant-refused,
}
use rdma_intercept_ldperload.Tests.{handle, segment, segment-IsRegistry, replies, shm_handle}

abbrev quota_command : Command
quota_command = record {
  cmd = some (codes "UPDATE_QUOTA");
  tenant = some 1;
  name = none;
  qp = some 50;
  mr = none;
  memory = none;
}

abbrev delete_command : Command
delete_command = record quota_command { cmd = some (codes "DELETE") }

abbrev clocks : DaemonEnv
clocks = record { now = 30; now_ns = 31 }

serve_commands-HasRegistry_example : HasRegistry (
    serve_commands replies
      ((clocks, some quota_command) ∷ (clocks, none) ∷ (clocks, some delete_command) ∷ [])
      handle)
serve_commands-HasRegistry_example =
    serve_commands-HasRegistry replies
      ((clocks, some quota_command) ∷ (clocks, none) ∷ (clocks, some delete_command) ∷ []) handle
      (segment, refl, segment-IsRegistry)

abbrev updated : TenantShm
updated = segment_or (handle_update_quota replies clocks quota_command handle).1 segment

abbrev policies : PolicyState
policies = record {
  config = zero_config;
  tenant_policies = replicate max_tenants zero_policy;
  shm = shm_handle;
}

abbrev tool : Tool
tool = record { tenants = handle; policies = policies }

-- The policy that a refused creation of tenant 1 leaves, with the quota 20, 30 and 40 MB.
abbrev refused_policy : TenantPolicy
refused_policy = record {
  tenant_id = 1;
  tenant_name = codes "unnamed";
  policy = record zero_config {
    qp_policy = record zero_rule {
      limit = record { max_per_process = 20; max_global = 20; max_memory = 0 };
    };
    mr_policy = record zero_rule {
      limit = record { max_per_process = 30; max_global = 30; max_memory = 0 };
    };
    memory_policy = record zero_rule {
      limit = record { max_per_process = 0; max_global = 0; max_memory = 40 * 1024 * 1024 };
    };
  };
  last_updated = 8;
}

abbrev given_quota : TenantQuota
given_quota = record tool_quota {
  max_qp_per_tenant = 20;
  max_mr_per_tenant = 30;
  max_memory_per_tenant = 40 * 1024 * 1024;
}

cmd_create_tenant-refused_example :
    ((cmd_create_tenant replies 8 1 none (some (quota_text 20 30 40)) tool).0 ≡ failure)
    × (get_tenant_policy 1
          (cmd_create_tenant replies 8 1 none (some (quota_text 20 30 40)) tool).1.policies
        ≡ some refused_policy)
unfolding bind_locked create_locked new_tenant fresh_segment bind_new owner_in
cmd_create_tenant-refused_example =
    cmd_create_tenant-refused replies 8 1 none (some (quota_text 20 30 40)) given_quota tool
      (omega arith) refl (scan_quota-quota_text 20 30 40 (omega arith) (omega arith) (omega arith))
      segment refl refl

update_quota-tenants_example :
    let quota : TenantQuota = record {
      max_qp_per_tenant = 50;
      max_mr_per_tenant = 50;
      max_memory_per_tenant = 1073741824;
      max_cq_per_tenant = 50;
      max_pd_per_tenant = 10;
    } in
    let known = ltb 1 max_tenants && not (is_inactive (tenant_at segment 1).status) in
    ((handle_update_quota replies clocks quota_command handle).0.success ≡ known)
    × (tenant_at updated 1 ≡ (
        if known && 1 == 1
        then record (tenant_at segment 1) { quota = quota; last_active_at = 30 }
        else tenant_at segment 1))
unfolding handle_update_quota tenant_update_quota update_quota_locked apply_quota stamp_unlocked
    bind_locked create_locked new_tenant fresh_segment bind_new owner_in
update_quota-tenants_example =
    update_quota-tenants replies clocks quota_command handle segment 1 50 refl
      segment-IsRegistry.tenants_whole refl refl 1 updated refl

cmd_create_tenant-get_info_example :
    let made : TenantInfo = record {
      tenant_id = 5;
      tenant_name = codes "unnamed";
      status = active;
      quota = record {
        max_qp_per_tenant = 20;
        max_mr_per_tenant = 30;
        max_memory_per_tenant = 40 * 1024 * 1024;
        max_cq_per_tenant = 100;
        max_pd_per_tenant = 100;
      };
      usage = record {
        qp_count = 0;
        mr_count = 0;
        cq_count = 0;
        pd_count = 0;
        memory_used = 0;
        total_qp_creates = 0;
        total_qp_destroys = 0;
        total_mr_regs = 0;
        total_mr_deregs = 0;
      };
      created_at = 8;
      last_active_at = 8;
      process_count = 0;
      processes = replicate 1024 0;
    } in
    (tenant_get_info replies 9 5
      (cmd_create_tenant replies 8 5 none (some (quota_text 20 30 40)) tool).1.tenants).0
    ≡ (success, some made)
unfolding cmd_create_tenant create_with tenant_create create_locked bind_locked new_tenant
    fresh_segment bind_new owner_in print_unsigned scan_unsigned read_signed read_number to_unsigned
    read_digits skip_number skip_digits skip_spaces after_prefix scan_quota scan_comma scan_u32
    put_digits
cmd_create_tenant-get_info_example =
    cmd_create_tenant-get_info replies 8 5 none 20 30 40 tool segment refl
      segment-IsRegistry.tenants_whole (omega arith) (omega arith) (omega arith) 9 refl
