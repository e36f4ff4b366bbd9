-- ===== src/Tests/Policy.antt =====
-- The theorems on src/dynamic_policy_manager.c at the default policy.
use rdma_intercept_ldperload.Base.{◌<◌, ◌≡◌, refl, arith, true, none, some, [], ◌∷◌, not, replicate}
use rdma_intercept_ldperload.Tenant.{max_tenants}
use rdma_intercept_ldperload.Policy.{ResourceLimit, PolicyState, resource_qp}
use rdma_intercept_ldperload.Policy.Rules.{set_default_config, set_limit}
use rdma_intercept_ldperload.Policy.TenantPolicies.{zero_policy}
use rdma_intercept_ldperload.Shm.{success}
use rdma_intercept_ldperload.Policy.Files.{load_config, save_config}
use rdma_intercept_ldperload.Policy.SaveLoad.{FitsFile, restored, save_config-load_config}
use rdma_intercept_ldperload.Collector.Client.{initial_client, collector_check_global_qp_limit}
use rdma_intercept_ldperload.Policy.Local.{
  initial_policy, Surroundings, ample, adjust_local_qp_limit, check_dynamic_qp_policy,
}
use rdma_intercept_ldperload.Policy.LocalLimits.{
  PolicyCheck, run, IsModerate, run-check_dynamic_qp_policy,
}
use rdma_intercept_ldperload.Tests.{shm_handle}

abbrev state : PolicyState
state = record {
  config = set_default_config 3;
  tenant_policies = replicate max_tenants zero_policy;
  shm = shm_handle;
}

abbrev five : ResourceLimit
five = record { max_per_process = 5; max_global = 50; max_memory = 0 }

-- Another process, which has set a limit of its own.
abbrev other : PolicyState
other = (set_limit resource_qp (some five) state).1

default-FitsFile : FitsFile (set_default_config 3)
unfolding set_default_config
default-FitsFile = record {
  qp_process = omega arith;
  qp_global = omega arith;
  mr_process = omega arith;
  mr_global = omega arith;
  memory = omega arith;
  interval = omega arith;
}

save_config-load_config_example :
    load_config (save_config true state).1 other
    ≡ (success, record other { config = restored state.config other.config })
save_config-load_config_example = save_config-load_config state other default-FitsFile

abbrev around : Surroundings
around = record {
  now = 100;
  count_exchange = none;
  max_exchange = none;
  band = λ n m. ample;
  local_limit_str = none;
}

abbrev check : PolicyCheck
check = record { around = around; first = none; second = none; qp_count = 49 }

initial-IsModerate : IsModerate initial_policy
unfolding initial_policy
initial-IsModerate = record { low = omega arith; high = omega arith }

run-check_dynamic_qp_policy_example :
    let (p, k) = run (check ∷ []) (initial_policy, initial_client) in
    ((check_dynamic_qp_policy around none none 49 p k).0 ≡ true → 49 < 200)
    × (49 < 50
        → (check_dynamic_qp_policy around none none 49 p k).0
          ≡ not (collector_check_global_qp_limit none none (adjust_local_qp_limit around p k).1).0)
run-check_dynamic_qp_policy_example =
    run-check_dynamic_qp_policy (check ∷ []) check (initial_policy, initial_client)
      (refl, (refl, tt)) initial-IsModerate
