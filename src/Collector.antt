-- ===== src/Collector.antt =====
-- src/collector_server.c and src/collector_client.c: the service that keeps the global counts, and
-- the calls of it. `Collector` is the file-level state of the server; what the eBPF maps hold when they
-- are read is an argument.
pub mod Table
pub mod Server
pub mod Client
pub mod Limits
pub mod Exchange
pub mod Shared
use rdma_intercept_ldperload.Base.{
  ℕ, ◌*◌, ◌%◌, ◌==◌, Option, none, some, List, [], ◌∷◌, if◌then◌else◌, u32, replicate,
}
use rdma_intercept_ldperload.Shm.{ResourceUsage}
use rdma_intercept_ldperload.Text.{Bytes}
use rdma_intercept_ldperload.Text.Decimal.{strtol}

abbrev pub buckets : ℕ
buckets = 1024

-- `process_node_t`: a chain of them is a list.
pub record ProcessNode : Type 0 where
  pub pid : ℕ
  pub usage : ResourceUsage

pub record Collector : Type 0 where
  pub global_qp_count : ℕ
  pub max_global_qp : ℕ
  pub global_mr_count : ℕ
  pub global_memory_used : ℕ
  pub max_global_memory : ℕ
  pub process_resources : List (List ProcessNode)

-- What the eBPF maps hold: the entries of `process_resources` in the order of the walk, and the one of
-- `global_resources`; `none` stands for a map that is not there or not readable.
pub record Monitor : Type 0 where
  pub processes : Option (List (ℕ × ResourceUsage))
  pub global : Option ResourceUsage

-- The variables that `initialize_service` reads.
pub record LimitVariables : Type 0 where
  pub max_qp_str : Option Bytes
  pub max_memory_str : Option Bytes

-- `update_max_global_qp`: `atoi` as a `uint32_t`.
unfoldable pub update_max_global_qp : Option Bytes → Collector → Collector
update_max_global_qp none c = c
update_max_global_qp (some text) c =
    let new_max = u32 (strtol text) in
    if new_max == 0 then c else record c { max_global_qp = new_max }

-- `update_max_global_memory`: `atoll` as a `uint64_t`.
unfoldable pub update_max_global_memory : Option Bytes → Collector → Collector
update_max_global_memory none c = c
update_max_global_memory (some text) c =
    let new_max = strtol text in
    if new_max == 0 then c else record c { max_global_memory = new_max }

-- The state before `main` runs.
unfoldable pub initial : Collector
initial = record {
  global_qp_count = 0;
  max_global_qp = 10;
  global_mr_count = 0;
  global_memory_used = 0;
  max_global_memory = 1024 * 1024 * 1024 * 10;
  process_resources = replicate buckets [];
}

-- The counts, the table and the limits that `initialize_service` sets.
unfoldable pub initialize_service : LimitVariables → Collector → Collector
unfolding update_max_global_qp update_max_global_memory
initialize_service l c = update_max_global_memory l.max_memory_str (
    update_max_global_qp l.max_qp_str (record c {
      global_qp_count = 0;
      global_mr_count = 0;
      global_memory_used = 0;
      process_resources = replicate buckets [];
    }))
