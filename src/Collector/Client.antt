-- ===== src/Collector/Client.antt =====
-- src/collector_client.c: the calls that the hooks make of the service. `exchange` is what became of
-- the socket: `none` if it could not be made, connected, written or read, else the bytes read.
use rdma_intercept_ldperload.Base.{
  ℕ, Bool, true, false, not, ◌&&◌, Option, none, some, [], ◌∷◌, ◌++◌, ◌==◌, ltb, if◌then◌else◌,
  take, u32,
}
use rdma_intercept_ldperload.Text.{Bytes, codes, find_text, after_prefix}
use rdma_intercept_ldperload.Text.Decimal.{print_unsigned, scan_unsigned}

-- The file-level variables.
pub record CollectorClient : Type 0 where
  pub global_qp_count : ℕ
  pub max_global_qp : ℕ

-- Their first values.
unfoldable pub initial_client : CollectorClient
initial_client = record { global_qp_count = 0; max_global_qp = 1000 }

abbrev pub get_stats_request : Bytes
get_stats_request = codes "GET_STATS"

abbrev pub qp_create_request : Bytes
qp_create_request = codes "QP_CREATE"

abbrev pub qp_destroy_request : Bytes
qp_destroy_request = codes "QP_DESTROY" ++ (0 ∷ [])

-- `snprintf` into 64 bytes, which a 64-bit number fits.
unfoldable pub mr_create_request : ℕ → Bytes
mr_create_request length = codes "MR_CREATE " ++ print_unsigned length []

unfoldable pub mr_destroy_request : ℕ → Bytes
mr_destroy_request length = codes "MR_DESTROY " ++ print_unsigned length []

unfoldable pub check_memory_request : ℕ → Bytes
check_memory_request length = codes "CHECK_MEMORY " ++ print_unsigned length []

-- `sscanf(line, "<label> %u", &n)`: the number behind the label, as 32 bits.
unfoldable pub scan_label : Bytes → Bytes → Option ℕ
scan_label label line = elim (after_prefix label line) [
  | none ↦ none
  | some rest ↦ elim (scan_unsigned rest) [ none ↦ none | some n ↦ some (u32 n) ]
]

-- The number on the line of a label, if there is one.
unfoldable pub find_number : Bytes → Bytes → Option ℕ
unfolding scan_label
find_number label buffer = elim (find_text label buffer) [
  | none ↦ none
  | some line ↦ scan_label label line
]

-- What became of the socket in a question for the statistics, as in `exchange`, with what the stack
-- holds where `new_max_global` is not initialized.
abbrev pub StatsExchange : Type 0
StatsExchange = Option (ℕ × Bytes)

-- `true` stands for the return code 0. Where `sscanf` finds no number on the line of the limit, the
-- 32-bit word that the stack holds is taken for it.
unfoldable pub get_global_qp_stats : StatsExchange → CollectorClient → Bool × CollectorClient
unfolding find_number scan_label
get_global_qp_stats none k = (false, k)
get_global_qp_stats (some (stack, reply)) k =
    let buffer = take 1023 reply in
    (
      true,
      record {
        global_qp_count = elim (find_number (codes "Total QP:") buffer) [
          | none ↦ k.global_qp_count
          | some n ↦ n
        ];
        max_global_qp = elim (find_text (codes "Max QP:") buffer) [
          | none ↦ k.max_global_qp
          | some line ↦
              let new_max_global : ℕ = elim (scan_label (codes "Max QP:") line) [
                | none ↦ u32 stack
                | some n ↦ n
              ] in
              if ltb 0 new_max_global then new_max_global else k.max_global_qp
        ];
      },
    )

-- `strstr(buffer, "Success") != NULL` in what fits 63 bytes.
unfoldable pub is_success : Bytes → Bool
is_success reply = elim (find_text (codes "Success") (take 63 reply)) [
  | none ↦ false
  | some r ↦ true
]

unfoldable pub collector_send_qp_create_event : Option Bytes → Bool
unfolding is_success
collector_send_qp_create_event none = false
collector_send_qp_create_event (some reply) = is_success reply

unfoldable pub collector_send_mr_create_event : Option Bytes → Bool
unfolding is_success
collector_send_mr_create_event none = false
collector_send_mr_create_event (some reply) = is_success reply

-- `true` stands for a limit that is reached.
unfoldable pub collector_check_global_memory_limit : Option Bytes → Bool
unfolding is_success
collector_check_global_memory_limit none = false
collector_check_global_memory_limit (some reply) = not (is_success reply)

-- Each of the two asks the service anew, and goes on with the last values where it fails.
unfoldable pub collector_get_global_qp_count : StatsExchange → CollectorClient → ℕ × CollectorClient
unfolding get_global_qp_stats
collector_get_global_qp_count exchange k =
    let k = (get_global_qp_stats exchange k).1 in (k.global_qp_count, k)

unfoldable pub collector_get_max_global_qp : StatsExchange → CollectorClient → ℕ × CollectorClient
unfolding get_global_qp_stats
collector_get_max_global_qp exchange k =
    let k = (get_global_qp_stats exchange k).1 in (k.max_global_qp, k)

-- `true` stands for a limit that is reached; the two exchanges are those of the two questions.
unfoldable pub collector_check_global_qp_limit :
    StatsExchange → StatsExchange → CollectorClient → Bool × CollectorClient
unfolding collector_get_global_qp_count collector_get_max_global_qp
collector_check_global_qp_limit first second k =
    let (count, k) = collector_get_global_qp_count first k in
    let (max, k) = collector_get_max_global_qp second k in
    (
      (if max == 0
          then false
          else if count == 0 && ltb 0 max
          then false
          else if ltb count max
          then false
          else true),
      k,
    )
