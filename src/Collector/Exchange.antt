-- ===== src/Collector/Exchange.antt =====
-- The client of src/collector_client.c on the answers of src/collector_server.c.
use rdma_intercept_ldperload.Base.{
  ℕ, ◌+◌, ◌-◌, ◌^◌, ◌%◌, ◌↔◌, ◌≤◌, ◌<◌, ◌≡◌, ◌∙◌, refl, true, not, none, some, [], ◌∷◌, ◌++◌, ltb,
  leb, if◌then◌else◌, length, u32, u64, arith, Bool-cases, inl, inr,
}
use rdma_intercept_ldperload.Text.{
  Bytes, codes, same_text, after_prefix, find_text, skip_spaces, read_digits,
}
use rdma_intercept_ldperload.Text.Decimal.{
  print_unsigned, scan_unsigned, scan_unsigned-print_unsigned, find_text-print_unsigned,
}
use rdma_intercept_ldperload.Text.Visible.{
  all_visible, visible-print_unsigned, length-print_unsigned, take-all,
}
use rdma_intercept_ldperload.Collector.{Collector, Monitor}
use rdma_intercept_ldperload.Collector.Table.{sync_ebpf_data}
use rdma_intercept_ldperload.Collector.Server.{
  get_stats, stats, max_lines, mr_lines, used_lines, limit_lines, qp_create, over_memory, mr_create,
  check_memory, handle_sized, handle_request, serve, cut_request, mr_created,
}
use rdma_intercept_ldperload.Collector.Client.{
  CollectorClient, StatsExchange, get_stats_request, qp_create_request, mr_create_request,
  check_memory_request, scan_label, find_number, get_global_qp_stats, is_success,
  collector_send_qp_create_event, collector_send_mr_create_event,
  collector_check_global_memory_limit, collector_check_global_qp_limit,
  collector_get_global_qp_count, collector_get_max_global_qp,
}

cut-visible_request : (s : Bytes) → all_visible s ≡ true → cut_request s ≡ s
unfolding cut_request all_visible
cut-visible_request [] h = refl
cut-visible_request (c ∷ s) h = ground (arith, cut-visible_request s)

module _ (m : Monitor) (length : ℕ) (c : Collector) where
  -- The server finds the number that the client printed.
  serve-mr_create_request :
      length < 2 ^ 64
      → serve m (mr_create_request length) c ≡ mr_create (print_unsigned length []) c
  unfolding serve mr_create_request handle_request handle_sized same_text after_prefix cut_request
  serve-mr_create_request word =
      rw (cut-visible_request (print_unsigned length []) (visible-print_unsigned length)) refl

  serve-check_memory_request :
      length < 2 ^ 64
      → serve m (check_memory_request length) c ≡ (check_memory (print_unsigned length []) c, c)
  unfolding serve check_memory_request handle_request handle_sized same_text after_prefix
      cut_request
  serve-check_memory_request word =
      rw (cut-visible_request (print_unsigned length []) (visible-print_unsigned length)) refl

  scanned : length < 2 ^ 64 → scan_unsigned (print_unsigned length []) ≡ some length
  unfolding read_digits
  scanned word = scan_unsigned-print_unsigned length [] word refl

  -- The client's memory check, with a server that answers it: the limit is reached exactly when the
  -- sum of what the server counts as used and what is asked for, modulo 2^64, is above the server's
  -- limit; the server's counts stay. The length is a 64-bit number.
  pub check_memory-serve :
      length < 2 ^ 64
      → ((collector_check_global_memory_limit (some (serve m (check_memory_request length) c).0)
            ≡ true)
          ↔ (c.max_global_memory < (c.global_memory_used + length) % 2 ^ 64))
        × ((serve m (check_memory_request length) c).1 ≡ c)
  unfolding collector_check_global_memory_limit check_memory over_memory is_success find_text
      after_prefix
  check_memory-serve word =
      rw (serve-check_memory_request word, check_memory, scanned word)
        (elim (Bool-cases (over_memory length c)) [
          | inl full ↦ rw full ((λ e. ground arith, λ above. refl), refl)
          | inr room ↦ rw room ((λ e. cc, λ above. ground arith), refl)
        ])

  -- A region that the client reports is entered exactly when the server's test lets it pass, and the client
  -- is told so.
  pub mr_create-serve :
      length < 2 ^ 64
      → (collector_send_mr_create_event (some (serve m (mr_create_request length) c).0)
          ≡ not (over_memory length c))
        × ((serve m (mr_create_request length) c).1 ≡ (
            if over_memory length c then c else record c {
              global_mr_count = u32 (c.global_mr_count + 1);
              global_memory_used = u64 (c.global_memory_used + length);
            }))
  unfolding collector_send_mr_create_event mr_create is_success find_text after_prefix
  mr_create-serve word =
      rw (serve-mr_create_request word, mr_create, scanned word)
        (elim (Bool-cases (over_memory length c)) [
          | inl full ↦ rw full (refl, refl)
          | inr room ↦ rw room (refl, refl)
        ])

-- A reported region whose length brings the sum to 2^64 is let through whatever the limit is, and the
-- memory counted as used is 0 from then on.
pub mr_create-wraps :
    (m : Monitor) (c : Collector)
    → 0 < c.global_memory_used
    → c.global_memory_used < 2 ^ 64
    → let c' = serve m (mr_create_request (2 ^ 64 - c.global_memory_used)) c in
      (c'.0 ≡ mr_created) × (c'.1.global_memory_used ≡ 0)
unfolding mr_create over_memory
mr_create-wraps m c used word =
    let length = 2 ^ 64 - c.global_memory_used in
    let fits : length < 2 ^ 64 = omega arith in
    let full : c.global_memory_used + length ≡ 2 ^ 64 = omega arith in
    rw
      (
        serve-mr_create_request m length c fits,
        mr_create,
        scanned m length c fits,
        over_memory,
        full,
      )
      (ground arith, ground arith)

-- A queue pair that a client reports is entered exactly while the count is below the limit, and the
-- client is told so.
pub qp_create-serve :
    (m : Monitor) (c : Collector)
    → (collector_send_qp_create_event (some (serve m qp_create_request c).0)
        ≡ ltb c.global_qp_count c.max_global_qp)
      × ((serve m qp_create_request c).1 ≡ (
          if ltb c.global_qp_count c.max_global_qp
          then record c { global_qp_count = u32 (c.global_qp_count + 1) }
          else c))
unfolding serve handle_request same_text after_prefix cut_request collector_send_qp_create_event
    qp_create is_success find_text
qp_create-serve m c = elim (Bool-cases (leb c.max_global_qp c.global_qp_count)) [
  | inl full ↦ rw full (ground arith, ground arith)
  | inr room ↦ rw room (ground arith, ground arith)
]

-- What the counts are as the server prints them.
record IsWords (c : Collector) : Type 0 where
  count_word : c.global_qp_count < 2 ^ 32
  max_word : c.max_global_qp < 2 ^ 32

scan_unsigned-space : (s : Bytes) → scan_unsigned (32 ∷ s) ≡ scan_unsigned s
unfolding scan_unsigned skip_spaces
scan_unsigned-space s = refl

-- The number on a line of the statistics.
scan-line :
    (n : ℕ) (rest : Bytes)
    → n < 2 ^ 32
    → read_digits rest n ≡ n
    → scan_unsigned (32 ∷ print_unsigned n rest) ≡ some n
scan-line n rest word ends =
    scan_unsigned-space (print_unsigned n rest)
    ∙ scan_unsigned-print_unsigned n rest (omega arith) ends

scan-word :
    (n : ℕ) (rest : Bytes)
    → n < 2 ^ 32
    → read_digits rest n ≡ n
    → elim (scan_unsigned (32 ∷ print_unsigned n rest)) [ none ↦ none | some k ↦ some (u32 k) ]
      ≡ some n
scan-word n rest word ends = rw (scan-line n rest word ends) (ground arith)

module _ (c : Collector) (w : IsWords c) where
  find_number-total : find_number (codes "Total QP:") (stats c) ≡ some c.global_qp_count
  unfolding find_number scan_label find_text after_prefix stats read_digits
  find_number-total = scan-word c.global_qp_count _ w.count_word refl

  find_text-max : find_text (codes "Max QP:") (stats c) ≡ find_text (codes "Max QP:") (max_lines c)
  unfolding find_text after_prefix stats
  find_text-max = find_text-print_unsigned c.global_qp_count 77 (codes "ax QP:") (max_lines c) refl

  -- The line of the limit, and the number on it.
  max_line : Bytes
  max_line = codes "Max QP: " ++ print_unsigned c.max_global_qp (mr_lines c)

  find_text-max_line : find_text (codes "Max QP:") (stats c) ≡ some max_line
  unfolding find_text after_prefix max_line
  find_text-max_line = find_text-max

  scan_label-max : scan_label (codes "Max QP:") max_line ≡ some c.max_global_qp
  unfolding scan_label after_prefix max_line read_digits
  scan_label-max = scan-word c.max_global_qp _ w.max_word refl

  length-stats : length (stats c) ≤ 1023
  unfolding stats
  length-stats = ground (
    arith,
    length-print_unsigned c.global_qp_count (max_lines c),
    length-print_unsigned c.max_global_qp (mr_lines c),
    length-print_unsigned c.global_mr_count (used_lines c),
    length-print_unsigned c.global_memory_used (limit_lines c),
    length-print_unsigned c.max_global_memory (codes " bytes\n"),
  )

  -- What the client reads of the statistics.
  get_global_qp_stats-stats :
      (stack : ℕ) (k : CollectorClient)
      → get_global_qp_stats (some (stack, stats c)) k ≡ (
        true,
        record {
          global_qp_count = c.global_qp_count;
          max_global_qp = if ltb 0 c.max_global_qp then c.max_global_qp else k.max_global_qp;
        },
      )
  unfolding get_global_qp_stats
  get_global_qp_stats-stats stack k =
      rw
        (
          get_global_qp_stats,
          take-all 1023 (stats c) length-stats,
          find_number-total,
          find_text-max_line,
          scan_label-max,
        )
        refl

-- A question for the statistics brings the client the counts that the server has after it has read
-- the eBPF maps: the count of queue pairs, and the limit unless that is 0.
pub get_global_qp_stats-serve :
    (m : Monitor) (c : Collector) (stack : ℕ) (k : CollectorClient)
    → (sync_ebpf_data m c).global_qp_count < 2 ^ 32
    → (sync_ebpf_data m c).max_global_qp < 2 ^ 32
    → let c' = sync_ebpf_data m c in
      get_global_qp_stats (some (stack, (serve m get_stats_request c).0)) k ≡ (
        true,
        record {
          global_qp_count = c'.global_qp_count;
          max_global_qp = if ltb 0 c'.max_global_qp then c'.max_global_qp else k.max_global_qp;
        },
      )
unfolding serve handle_request same_text after_prefix cut_request get_stats
get_global_qp_stats-serve m c stack k count_word max_word =
    get_global_qp_stats-stats (sync_ebpf_data m c)
      (record { count_word = count_word; max_word = max_word }) stack k

-- The client's check of the global limit, with a server that has a limit and answers both of its
-- questions: the limit is reached exactly when the server's count is not below it.
pub check_global_qp_limit-serve :
    (m : Monitor) (c : Collector) (stack : ℕ) (k : CollectorClient)
    → (sync_ebpf_data m c).global_qp_count < 2 ^ 32
    → (sync_ebpf_data m c).max_global_qp < 2 ^ 32
    → 0 < (sync_ebpf_data m c).max_global_qp
    → let reply : StatsExchange = some (stack, (serve m get_stats_request c).0) in
      let c' = sync_ebpf_data m c in
      (collector_check_global_qp_limit reply reply k).0 ≡ leb c'.max_global_qp c'.global_qp_count
unfolding collector_check_global_qp_limit collector_get_global_qp_count collector_get_max_global_qp
check_global_qp_limit-serve m c stack k count_word max_word limited =
    let first = get_global_qp_stats-serve m c stack k count_word max_word in
    let k' = (get_global_qp_stats (some (stack, (serve m get_stats_request c).0)) k).1 in
    let second = get_global_qp_stats-serve m c stack k' count_word max_word in
    ground (arith, first, second)
