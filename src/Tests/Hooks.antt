-- ===== src/Tests/Hooks.antt =====
-- The theorems on src/rdma_hooks_tenant.c at concrete processes.
use rdma_intercept_ldperload.Base.{
  ℕ, ◌+◌, ◌*◌, ◌-◌, ◌^◌, ◌≡◌, ◌≤◌, ◌<◌, ◌↔◌, ◌⊎◌, refl, arith, true, false, none, some, List, [],
  ◌∷◌, Option,
}
use rdma_intercept_ldperload.Shm.{init_segment, write_slot, process_usage}
use rdma_intercept_ldperload.Tenant.{TenantShm}
use rdma_intercept_ldperload.Tenant.Segment.{fresh_segment}
use rdma_intercept_ldperload.Tenant.Lifecycle.{tenant_at, new_tenant, create_locked, default_quota}
use rdma_intercept_ldperload.Tenant.Binding.{
  bind_locked, bind_new, tenant_get_process_tenant, process_tenant_locked,
}
use rdma_intercept_ldperload.Tenant.Ledger.{owner_in}
use rdma_intercept_ldperload.Hooks.{
  level_info, InterceptConfig, InterceptState, Process, Env, rc, uc, Outcome,
  rdma_intercept_is_enabled,
}
use rdma_intercept_ldperload.Hooks.Tenancy.{
  get_current_tenant_id, charge, update_tenant_resource_count,
}
use rdma_intercept_ldperload.Tenant.Usage.{
  tenant_get_resource_usage, tenant_update_resource_usage, usage_locked, update_usage_locked,
}
use rdma_intercept_ldperload.Hooks.Qp.{ibv_create_qp, ibv_destroy_qp, record_destroy_qp}
use rdma_intercept_ldperload.Hooks.Mr.{ibv_reg_mr}
use rdma_intercept_ldperload.Hooks.Setup.{InitReplies}
use rdma_intercept_ldperload.Hooks.Views.{IsBound}
use rdma_intercept_ldperload.Hooks.Quota.{Admits, create_qp-admission}
use rdma_intercept_ldperload.Hooks.Quota.History.{
  QpEvent, creates, IsWithin, run, qp_count_of, run-IsWithin,
}
use rdma_intercept_ldperload.Hooks.Memory
use rdma_intercept_ldperload.Tenant.Ledger.Drift.{segment_or}
use rdma_intercept_ldperload.Hooks.Memory.{
  MrEvent, registers, deregisters, memory_used-run, reg_mr-admission,
}
use rdma_intercept_ldperload.Hooks.Stale.{destroy_all, create_qp-stale_limit, destroy_qp-underflow}
use rdma_intercept_ldperload.Tests.{
  busy_table, shm_handle, segment, segment-IsRegistry, handle, detached, replies,
}

abbrev pub config : InterceptConfig
config = record {
  enable_intercept = true;
  log_qp_creation = true;
  log_all_operations = false;
  log_level = level_info;
  log_file_path = [];
  enable_qp_control = true;
  max_qp_per_process = 7;
  max_send_wr_limit = 1024;
  max_recv_wr_limit = 1024;
  allow_rc_qp = true;
  allow_uc_qp = false;
  allow_ud_qp = true;
  allow_rq_qp = true;
  max_global_qp = 1000;
  enable_mr_control = true;
  max_mr_per_process = 5;
  max_memory_per_process = 1024 * 1024;
}

abbrev pub core : InterceptState
core = record { initialized = true; config = config; qp_count = 0; mr_count = 0; memory_used = 0 }

abbrev pub process : Process
process = record {
  pid = 100;
  core = core;
  tenant_initialized = true;
  shm = shm_handle;
  tenant = handle;
}

-- The process with seven published queue pairs, and with interception off.
abbrev full_process : Process
full_process = record process { shm = record { shm_fd = some 3; shm_data_ptr = some busy_table } }

abbrev idle_process : Process
idle_process = record process { core = record core { initialized = false } }

abbrev pub env : Env
env = record { replies = replies; now = 20; now_ns = 21 }

process-IsBound : IsBound process 1 segment
unfolding bind_locked create_locked new_tenant fresh_segment bind_new owner_in
process-IsBound = record {
  ready = refl;
  attached = refl;
  whole = segment-IsRegistry.tenants_whole;
  nonzero = omega arith;
  below = omega arith;
  live = refl;
  mine = refl;
}

process-IsWithin : IsWithin process 1 default_quota segment
unfolding bind_locked create_locked new_tenant fresh_segment bind_new rdma_intercept_is_enabled
process-IsWithin = record {
  bound = process-IsBound;
  enabled = refl;
  controlled = refl;
  same_quota = refl;
  word = omega arith;
  within = ground arith;
}

abbrev events : List (Env × QpEvent)
events = (env, creates rc (some 9)) ∷ (env, creates rc none) ∷ (env, creates uc (some 3)) ∷ []

run-IsWithin_example : qp_count_of 1 (run events process) ≤ 100
run-IsWithin_example = run-IsWithin events process 1 default_quota segment process-IsWithin tt

create_qp-admission_example :
    ((ibv_create_qp env (some (some 9)) rc process).0.called ≡ true)
    ↔ Admits rc process (tenant_at segment 1)
unfolding rdma_intercept_is_enabled
create_qp-admission_example =
    create_qp-admission env rc process 1 segment process-IsBound refl refl (some 9)

reg_mr-admission_example : ((ibv_reg_mr env (some (some 9)) 4096 process).0.called ≡ true) ↔ (
    ((tenant_at segment 1).usage.mr_count < (tenant_at segment 1).quota.max_mr_per_tenant)
    × (((tenant_at segment 1).quota.max_memory_per_tenant ≡ 0)
        ⊎ ((tenant_at segment 1).usage.memory_used + 4096
            ≤ (tenant_at segment 1).quota.max_memory_per_tenant)))
unfolding rdma_intercept_is_enabled bind_locked create_locked new_tenant fresh_segment bind_new
reg_mr-admission_example =
    reg_mr-admission env (some 9) 4096 process 1 segment process-IsBound refl (ground arith)

create_qp-stale_limit_example :
    (ibv_create_qp env
      (some (some 9))
      rc
      (destroy_all ((env, 0) ∷ (env, 0) ∷ []) full_process)).0.called
    ≡ false
unfolding rdma_intercept_is_enabled process_usage write_slot init_segment
create_qp-stale_limit_example =
    create_qp-stale_limit ((env, 0) ∷ (env, 0) ∷ []) env (some 9) rc full_process busy_table refl
      refl refl refl (ground arith) (ground arith)

abbrev denied : Outcome (Option ℕ) × Process
denied = ibv_create_qp env (some (some 9)) uc process

-- The segment after a queue pair of process 100 is destroyed that its tenant was not charged for.
abbrev below_zero : TenantShm
below_zero = segment_or (ibv_destroy_qp env (some 0) process).1.tenant segment

destroy_qp-underflow_example :
    ((tenant_at below_zero 1).usage.qp_count ≡ 2 ^ 32 - 1)
    × ((ibv_create_qp env (some (some 9)) rc (ibv_destroy_qp env (some 0) process).1).0.called
        ≡ false)
unfolding rdma_intercept_is_enabled bind_locked create_locked new_tenant fresh_segment bind_new
    ibv_destroy_qp record_destroy_qp charge get_current_tenant_id tenant_get_process_tenant
    process_tenant_locked update_tenant_resource_count tenant_get_resource_usage
    tenant_update_resource_usage usage_locked update_usage_locked
destroy_qp-underflow_example =
    destroy_qp-underflow env process 1 segment process-IsBound refl env (some 9) rc below_zero refl
      refl (ground arith) refl

abbrev regions : List (Env × MrEvent)
regions = (env, registers (some 9) 4096) ∷ (env, deregisters 0 (some 4096)) ∷ []

memory_used-run_example :
    let t = segment_or (Memory.run regions process).tenant segment in
    ((Memory.run regions process).tenant.g_tenant_shm ≡ some t)
    × ((tenant_at t 1).usage.memory_used ≡ (tenant_at segment 1).usage.memory_used)
unfolding rdma_intercept_is_enabled
memory_used-run_example = memory_used-run regions process 1 segment process-IsBound refl

abbrev setup : InitReplies
setup = record {
  enable_env = true;
  config = config;
  log_opened = true;
  library_opened = true;
  create_qp_found = true;
  reg_mr_found = true;
  dereg_mr_found = true;
  tenant_env = some 2;
}

abbrev starting : Process
starting = record idle_process { tenant_initialized = false; tenant = detached }
