-- ===== src/Classic.antt =====
-- src/rdma_hooks.c: the hooks of the library without tenants. The state of src/intercept_core.c is
-- the one of `Hooks`. What the eBPF monitor and the collector answer in one call is an argument.
pub mod Qp
pub mod Mr
pub mod Others
pub mod Laws
pub mod Unmetered
use rdma_intercept_ldperload.Base.{ℕ, Bool, true, false, ◌&&◌, Option}
use rdma_intercept_ldperload.Shm.{ResourceUsage, ShmHandle}
use rdma_intercept_ldperload.Hooks.{InterceptState}

-- One process: `g_intercept_state`, `ebpf_initialized`, and the handle of the usage segment.
pub record ClassicProcess : Type 0 where
  pub pid : ℕ
  pub core : InterceptState
  pub ebpf_initialized : Bool
  pub shm : ShmHandle

-- What stands outside the process in one call: `ebpf_get_process_resources`, where `none` is an
-- error, `collector_check_global_memory_limit`, and the clock.
pub record Answers : Type 0 where
  pub ebpf : Option ResourceUsage
  pub memory_limit : ℕ → Bool
  pub now_ns : ℕ

unfoldable pub is_on : ClassicProcess → Bool
is_on p = p.core.initialized && p.core.config.enable_intercept
