-- ===== src/Hooks/Setup.antt =====
-- src/intercept_core.c: rdma_intercept_init and init_if_needed; src/rdma_hooks_tenant.c:
-- init_function_pointers, without the eBPF monitor. The configuration that
-- rdma_intercept_load_config leaves is an argument, as are the answers of the loader.
pub mod Start
use rdma_intercept_ldperload.Base.{
  ℕ, Bool, true, false, not, ◌&&◌, Option, none, some, ltb, if◌then◌else◌,
}
use rdma_intercept_ldperload.Shm.{Status, success, failure}
use rdma_intercept_ldperload.Tenant.Segment.{tenant_shm_init}
use rdma_intercept_ldperload.Tenant.Binding.{tenant_bind_process}
use rdma_intercept_ldperload.Hooks.{Process, InterceptState, InterceptConfig, Env}

pub record InitReplies : Type 0 where
  pub enable_env : Bool  -- RDMA_INTERCEPT_ENABLE is "1"
  pub config : InterceptConfig
  pub log_opened : Bool
  pub library_opened : Bool
  pub create_qp_found : Bool
  pub reg_mr_found : Bool
  pub dereg_mr_found : Bool
  pub tenant_env : Option ℕ  -- RDMA_TENANT_ID as `atoi` reads it

unfoldable pub rdma_intercept_init : InitReplies → InterceptState → Status × InterceptState
rdma_intercept_init r c =
    if c.initialized
    then (success, c)
    else (let c' = record c { config = r.config } in
        if not r.log_opened
        then (failure, c')
        else if not r.library_opened
        then (failure, c')
        else if r.create_qp_found && r.reg_mr_found && r.dereg_mr_found
        then (success, record c' { initialized = true })
        else (failure, c'))

unfoldable pub rdma_intercept_cleanup : InterceptState → InterceptState
rdma_intercept_cleanup c = if not c.initialized then c else record c { initialized = false }

unfoldable pub init_if_needed : InitReplies → InterceptState → InterceptState
init_if_needed r c = if not r.enable_env then c else (rdma_intercept_init r c).1

-- The tenant that the environment asks for, if any.
unfoldable pub bind_from_env : Env → Option ℕ → Process → Process
bind_from_env e none p = p
bind_from_env e (some id) p =
    if p.tenant_initialized && ltb 0 id
    then record p { tenant = (tenant_bind_process e.replies e.now p.pid id p.tenant).1 }
    else p

abbrev is_success : Status → Bool
is_success success = true
is_success failure = false

-- The body of the `pthread_once`.
unfoldable pub init_function_pointers : Env → InitReplies → Process → Process
init_function_pointers e r p =
    let p' = record p { core = init_if_needed r p.core } in
    if not r.library_opened
    then p'
    else (let (answer, h) = tenant_shm_init e.replies p'.tenant in
        bind_from_env e r.tenant_env
          (record p' { tenant = h; tenant_initialized = is_success answer }))
