-- ===== src/Lib.antt =====
-- RDMA interception library: the shared segments and their locks, the tenant registry, the interposed
-- verbs with and without tenants, the optimizer in front of the usage segment, the dynamic policy, the
-- configuration, the collector service, and the tools that manage the tenants.
--
-- Processes preload the library. Its hooks stand before the verbs of libibverbs. The hooks with
-- tenants ask the registry for the tenant of the process and its quota, ask the usage segment for
-- what the process and the system hold, call the driver or deny, and then count the event in the
-- process, in the usage segment and in the tenant's record. The older hooks compare what the eBPF
-- monitor and the collector report with the limits of the configuration, which comes from defaults,
-- the environment and a file. The collector is a service on a socket that keeps the global counts
-- and answers in text. The optimizer keeps a cache of usage records and a batch of pending writes
-- before the usage segment. The dynamic policy holds limits of its own. A daemon and a command line
-- tool create, change and list the tenants of the registry.
--
-- Which file models which part (paths from the repository's root):
--   Shm        src/shm/shared_memory.h and .c: `SharedMemoryData` is the segment, `ShmHandle` one
--              process's file-level variables, `shm_init` to `shm_set_global_limits` the functions
--              of the same names. Shm/Slots, Table, Invariant and Init prove.
--   Locks      the spin locks of shared_memory.c and shared_memory_tenant.c, one atomic instruction
--              to a step, and threads that run critical sections under them in any interleaving.
--              Locks/Exclusion and Progress prove.
--   Tenant     src/shm/shared_memory_tenant.h: the structures. Tenant/Segment, Lifecycle, Binding
--              and Usage define the functions of shared_memory_tenant.c; a name with `_locked` is
--              the part between lock and unlock. Tenant/Registry, Ledger, Limits and Info prove.
--   Hooks      src/rdma_hooks_tenant.c and src/intercept_core.c: Hooks/Tenancy, Checks, Qp, Mr, Cq
--              and Setup define; Hooks/Views, Passing, Quota, Memory, Stale, Race and Setup/Start
--              prove.
--   Classic    src/rdma_hooks.c: Classic/Qp, Mr and Others define, Laws and Unmetered prove.
--   Config     src/config.c: Config/Entries and Load define; Sane, Laws, Lines and Priority prove.
--   Collector  src/collector_server.c: Collector/Table and Server; src/collector_client.c:
--              Collector/Client; src/collector_server_shm.c: Collector/Shared. Collector/Limits and
--              Exchange prove.
--   Manager    src/tenant_manager_daemon.c: Manager/Daemon; src/tenant_manager.c: Manager/Commands.
--              Manager/Service and Creation prove.
--   Optimizer  src/performance_optimizer.c: Optimizer/Cache, Batch and Control define;
--              CacheLaws, BatchLaws, WriteBehind and Bounds prove. A function loses the
--              prefix perf_optimizer_.
--   Policy     src/dynamic_policy_manager.c and include/dynamic_policy.h: Policy/Rules, Files and
--              TenantPolicies define, Laws and SaveLoad prove; a function loses the prefix
--              dynamic_policy_. src/dynamic_policy.c: Policy/Local, where LocalLimits proves.
--   Text       C strings as lists of bytes, and what the sources use of the C library on them.
--   Tests      concrete states, and each theorem at one of them.
--   Base       shared names, C arrays as lists, and machine words.
--
-- How code becomes definitions: a structure is a record, a C array a list of its full length (64
-- tenants, 1024 processes, 256 buckets), a file-level variable a field of a state that each function
-- takes and returns, an output pointer a result, a return code `Status` or an Option. An `int` and a
-- `pid_t` are 32-bit patterns, and every sum that C would wrap is taken modulo 2^32 or 2^64. What
-- the kernel, the clock, the environment, the driver, the eBPF monitor and the JSON library answer
-- is an argument. One call under a lock is one step, which Locks justifies for the locks of the
-- segments; interleavings of calls are sequences of steps.
--
-- Bounds and fuel: loops run over lists, of array entries, of bytes or of requests. A decimal
-- number is printed in at most 20 rounds, and 2^64 is below 10^20. `fgets` cuts a line after 1023
-- bytes for the configuration and after 255 for the policy file, as their buffers do.
--
-- Not modelled: log and statistics output; the averages in double; the eBPF programs and their
-- loader; the adjustment thread of the dynamic policy; src/tenant_manager_client.c and the option
-- loops of the tools; sockets, threads and signals, of which only the bytes that pass and the order
-- of the calls appear; the JSON library; experiments, scripts and the test programs.
pub mod Base
pub mod Text
pub mod Shm
pub mod Locks
pub mod Tenant
pub mod Hooks
pub mod Classic
pub mod Config
pub mod Collector
pub mod Manager
pub mod Optimizer
pub mod Policy
pub mod Tests
