-- ===== src/Hooks/Setup/Start.antt =====
-- What the one-time setup of src/rdma_hooks_tenant.c and src/intercept_core.c leaves.
use rdma_intercept_ldperload.Base.{ℕ, ◌<◌, ◌≡◌, ◌≢◌, ◌↔◌, true, false, some, arith}
use rdma_intercept_ldperload.Shm.{success}
use rdma_intercept_ldperload.Tenant.{TenantShm}
use rdma_intercept_ldperload.Tenant.Segment.{tenant_shm_init}
use rdma_intercept_ldperload.Tenant.Binding.{tenant_bind_process}
use rdma_intercept_ldperload.Tenant.Ledger.Calls.{bind_process-get_process_tenant}
use rdma_intercept_ldperload.Hooks.{Process, Env, rdma_intercept_is_enabled}
use rdma_intercept_ldperload.Hooks.Tenancy.{get_current_tenant_id}
use rdma_intercept_ldperload.Hooks.Setup.{
  InitReplies, rdma_intercept_init, init_if_needed, init_function_pointers, bind_from_env,
}

-- After the setup of a process that was not initialized, interception is on exactly when the
-- environment asks for it, the log and the library open, the three symbols are found, and the
-- loaded configuration enables it.
pub init-enabled :
    (e : Env) (r : InitReplies) (p : Process)
    → p.core.initialized ≡ false
    → (rdma_intercept_is_enabled (init_function_pointers e r p) ≡ true) ↔ (
        (r.enable_env ≡ true)
        × (r.log_opened ≡ true)
        × (r.library_opened ≡ true)
        × (r.create_qp_found ≡ true)
        × (r.reg_mr_found ≡ true)
        × (r.dereg_mr_found ≡ true)
        × (r.config.enable_intercept ≡ true))
unfolding init_function_pointers rdma_intercept_is_enabled init_if_needed rdma_intercept_init
    bind_from_env
init-enabled e r p fresh = (λ on. ground arith, λ c. ground arith)

-- Where RDMA_TENANT_ID names a tenant, the segment is attached and the bind is accepted, the
-- process belongs to that tenant from then on.
pub init-current_tenant :
    (e : Env) (r : InitReplies) (p : Process) (id : ℕ) (s : TenantShm)
    → r.library_opened ≡ true
    → r.tenant_env ≡ some id
    → 0 < id
    → p.pid ≢ 0
    → (tenant_shm_init e.replies p.tenant).0 ≡ success
    → (tenant_shm_init e.replies p.tenant).1.g_tenant_shm ≡ some s
    → (tenant_bind_process e.replies e.now p.pid id (tenant_shm_init e.replies p.tenant).1).0
      ≡ success
    → (get_current_tenant_id e (init_function_pointers e r p)).0 ≡ id
unfolding init_function_pointers get_current_tenant_id bind_from_env
init-current_tenant e r p id s lib env pos real up attached bound = ground (
  arith,
  bind_process-get_process_tenant e.replies e.now p.pid (tenant_shm_init e.replies p.tenant).1 s
      attached real p.pid id e.now bound,
)
