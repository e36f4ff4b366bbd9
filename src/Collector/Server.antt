-- ===== src/Collector/Server.antt =====
-- src/collector_server.c: one connection of `main_loop`, from the bytes read to the bytes written.
use rdma_intercept_ldperload.Base.{
  ℕ, ◌+◌, ◌-◌, Bool, ◌&&◌, ◌||◌, none, some, [], ◌∷◌, ◌++◌, ◌==◌, ltb, leb, if◌then◌else◌, u32, u64,
}
use rdma_intercept_ldperload.Shm.{ResourceUsage}
use rdma_intercept_ldperload.Text.{Bytes, codes, same_text, after_prefix}
use rdma_intercept_ldperload.Text.Decimal.{print_unsigned, scan_unsigned, strtol}
use rdma_intercept_ldperload.Collector.{Collector, Monitor}
use rdma_intercept_ldperload.Collector.Table.{sync_ebpf_data, get_process_resource_usage}

-- The request: what was read, up to the first newline or zero.
unfoldable pub cut_request : Bytes → Bytes
cut_request [] = []
cut_request (c ∷ s) = if c == 0 || c == 10 then [] else c ∷ cut_request s

abbrev pub qp_refused : Bytes
qp_refused = codes "Error: QP limit reached\n"

abbrev pub qp_created : Bytes
qp_created = codes "Success: QP created\n"

abbrev pub qp_destroyed : Bytes
qp_destroyed = codes "Success: QP destroyed\n"

abbrev pub memory_refused : Bytes
memory_refused = codes "Error: Memory limit reached\n"

abbrev pub mr_created : Bytes
mr_created = codes "Success: MR created\n"

abbrev pub mr_invalid : Bytes
mr_invalid = codes "Error: Invalid MR_CREATE request\n"

abbrev pub check_passed : Bytes
check_passed = codes "Success: Memory check passed\n"

abbrev pub check_invalid : Bytes
check_invalid = codes "Error: Invalid CHECK_MEMORY request\n"

abbrev pub mr_destroyed : Bytes
mr_destroyed = codes "Success: MR destroyed\n"

abbrev pub destroy_invalid : Bytes
destroy_invalid = codes "Error: Invalid MR_DESTROY request\n"

abbrev pub unknown_request : Bytes
unknown_request = codes "Error: Unknown request\n"

unfoldable pub proc_stats : ResourceUsage → Bytes
proc_stats u =
    codes "QP:"
    ++ print_unsigned u.qp_count (
        codes ",MR:"
        ++ print_unsigned u.mr_count (codes ",Memory:" ++ print_unsigned u.memory_used []))

unfoldable pub get_proc_stats : Monitor → Bytes → Collector → Bytes × Collector
unfolding proc_stats
get_proc_stats m pid c =
    let c = sync_ebpf_data m c in
    (proc_stats (get_process_resource_usage (u32 (strtol pid)) c.process_resources), c)

-- The text of the statistics from its second, third, fourth and last number on.
abbrev pub limit_lines : Collector → Bytes
limit_lines c =
    codes " bytes\nMax Memory: " ++ print_unsigned c.max_global_memory (codes " bytes\n")

abbrev pub used_lines : Collector → Bytes
used_lines c = codes "\nTotal Memory Used: " ++ print_unsigned c.global_memory_used (limit_lines c)

abbrev pub mr_lines : Collector → Bytes
mr_lines c = codes "\nTotal MR: " ++ print_unsigned c.global_mr_count (used_lines c)

abbrev pub max_lines : Collector → Bytes
max_lines c = codes "\nMax QP: " ++ print_unsigned c.max_global_qp (mr_lines c)

unfoldable pub stats : Collector → Bytes
stats c = codes "Total QP: " ++ print_unsigned c.global_qp_count (max_lines c)

unfoldable pub get_stats : Monitor → Collector → Bytes × Collector
unfolding stats
get_stats m c = let c = sync_ebpf_data m c in (stats c, c)

unfoldable pub qp_create : Collector → Bytes × Collector
qp_create c =
    if leb c.max_global_qp c.global_qp_count
    then (qp_refused, c)
    else (qp_created, record c { global_qp_count = u32 (c.global_qp_count + 1) })

unfoldable pub qp_destroy : Collector → Bytes × Collector
qp_destroy c = (
  qp_destroyed,
  record c {
    global_qp_count = if ltb 0 c.global_qp_count then c.global_qp_count - 1 else c.global_qp_count;
  },
)

-- `global_memory_used + length > max_global_memory`, in 64 bits.
unfoldable pub over_memory : ℕ → Collector → Bool
over_memory length c = ltb c.max_global_memory (u64 (c.global_memory_used + length))

unfoldable pub mr_create : Bytes → Collector → Bytes × Collector
unfolding over_memory
mr_create rest c = elim (scan_unsigned rest) [
  | none ↦ (mr_invalid, c)
  | some length ↦ if over_memory length c then (memory_refused, c) else (
    mr_created,
    record c {
      global_mr_count = u32 (c.global_mr_count + 1);
      global_memory_used = u64 (c.global_memory_used + length);
    },
  )
]

unfoldable pub check_memory : Bytes → Collector → Bytes
unfolding over_memory
check_memory rest c = elim (scan_unsigned rest) [
  | none ↦ check_invalid
  | some length ↦ if over_memory length c then memory_refused else check_passed
]

unfoldable pub mr_destroy : Bytes → Collector → Bytes × Collector
mr_destroy rest c = elim (scan_unsigned rest) [
  | none ↦ (destroy_invalid, c)
  | some length ↦ (
    mr_destroyed,
    record c {
      global_mr_count =
          if ltb 0 c.global_mr_count then c.global_mr_count - 1 else c.global_mr_count;
      global_memory_used =
          if ltb 0 length && leb length c.global_memory_used
          then c.global_memory_used - length
          else c.global_memory_used;
    },
  )
]

-- The requests with a number behind their name, in the order of the tests.
unfoldable pub handle_sized : Bytes → Collector → Bytes × Collector
unfolding mr_create check_memory mr_destroy
handle_sized buffer c = elim (after_prefix (codes "MR_CREATE ") buffer) [
  | some rest ↦ mr_create rest c
  | none ↦ elim (after_prefix (codes "CHECK_MEMORY ") buffer) [
    | some rest ↦ (check_memory rest c, c)
    | none ↦ elim (after_prefix (codes "MR_DESTROY ") buffer) [
      | some rest ↦ mr_destroy rest c
      | none ↦ (unknown_request, c)
    ]
  ]
]

unfoldable pub handle_request : Monitor → Bytes → Collector → Bytes × Collector
unfolding get_proc_stats get_stats qp_create qp_destroy handle_sized
handle_request m buffer c = elim (after_prefix (codes "GET_PROC_STATS:") buffer) [
  | some pid ↦ get_proc_stats m pid c
  | none ↦
      if same_text buffer (codes "GET_STATS")
      then get_stats m c
      else if same_text buffer (codes "QP_CREATE")
      then qp_create c
      else if same_text buffer (codes "QP_DESTROY")
      then qp_destroy c
      else handle_sized buffer c
]

-- The reply to the bytes that one `read` of at most 1023 bytes gave; without a byte nothing is written.
unfoldable pub serve : Monitor → Bytes → Collector → Bytes × Collector
unfolding handle_request
serve m [] c = ([], c)
serve m (b ∷ received) c = handle_request m (cut_request (b ∷ received)) c
