-- ===== src/Collector/Limits.antt =====
-- The global limits under the requests of src/collector_server.c.
use rdma_intercept_ldperload.Base.{
  ℕ, ◌^◌, ◌≤◌, ◌<◌, Option, none, List, [], ◌∷◌, arith, Bool-cases, Option-cases, inl, inr,
}
use rdma_intercept_ldperload.Shm.{ResourceUsage}
use rdma_intercept_ldperload.Text.{Bytes, codes, same_text, after_prefix}
use rdma_intercept_ldperload.Collector.{Collector}
use rdma_intercept_ldperload.Collector.Table.{sync_ebpf_data}
use rdma_intercept_ldperload.Collector.Server.{
  get_proc_stats, get_stats, qp_create, qp_destroy, over_memory, mr_create, mr_destroy,
  handle_sized, handle_request, serve, cut_request,
}

-- The counts are within their limits, which are words.
pub record IsBounded (c : Collector) : Type 0 where
  pub qp : c.global_qp_count ≤ c.max_global_qp
  pub qp_word : c.max_global_qp < 2 ^ 32
  pub memory : c.global_memory_used ≤ c.max_global_memory
  pub memory_word : c.max_global_memory < 2 ^ 64

module _ (c : Collector) (w : IsBounded c) where
  sync-IsBounded :
      (processes : Option (List (ℕ × ResourceUsage)))
      → IsBounded (sync_ebpf_data (record { processes = processes; global = none }) c)
  unfolding sync_ebpf_data
  sync-IsBounded processes = record {
    qp = w.qp;
    qp_word = w.qp_word;
    memory = w.memory;
    memory_word = w.memory_word;
  }

  qp_create-IsBounded : IsBounded (qp_create c).1
  unfolding qp_create
  qp_create-IsBounded = record {
    qp = ground (arith, w.qp, w.qp_word);
    qp_word = ground (arith, w.qp_word);
    memory = ground (arith, w.memory);
    memory_word = ground (arith, w.memory_word);
  }

  qp_destroy-IsBounded : IsBounded (qp_destroy c).1
  unfolding qp_destroy
  qp_destroy-IsBounded = record {
    qp = ground (arith, w.qp);
    qp_word = w.qp_word;
    memory = w.memory;
    memory_word = w.memory_word;
  }

  mr_create-IsBounded : (rest : Bytes) → IsBounded (mr_create rest c).1
  unfolding mr_create over_memory
  mr_create-IsBounded rest = record {
    qp = ground (arith, w.qp);
    qp_word = ground (arith, w.qp_word);
    memory = ground (arith, w.memory);
    memory_word = ground (arith, w.memory_word);
  }

  mr_destroy-IsBounded : (rest : Bytes) → IsBounded (mr_destroy rest c).1
  unfolding mr_destroy
  mr_destroy-IsBounded rest = record {
    qp = ground (arith, w.qp);
    qp_word = ground (arith, w.qp_word);
    memory = ground (arith, w.memory);
    memory_word = ground (arith, w.memory_word);
  }

  handle_sized-IsBounded : (buffer : Bytes) → IsBounded (handle_sized buffer c).1
  unfolding handle_sized
  handle_sized-IsBounded buffer = elim (Option-cases (after_prefix (codes "MR_CREATE ") buffer)) [
    | inr (r, e) ↦ rw (handle_sized, e) (mr_create-IsBounded r)
    | inl e ↦ elim (Option-cases (after_prefix (codes "CHECK_MEMORY ") buffer)) [
      | inr (r, f) ↦ rw (handle_sized, e, f) w
      | inl f ↦ elim (Option-cases (after_prefix (codes "MR_DESTROY ") buffer)) [
        | inr (r, g) ↦ rw (handle_sized, e, f, g) (mr_destroy-IsBounded r)
        | inl g ↦ rw (handle_sized, e, f, g) w
      ]
    ]
  ]

  handle_request-IsBounded :
      (processes : Option (List (ℕ × ResourceUsage))) (buffer : Bytes)
      → IsBounded (handle_request (record { processes = processes; global = none }) buffer c).1
  unfolding handle_request get_proc_stats get_stats
  handle_request-IsBounded processes buffer =
      elim (Option-cases (after_prefix (codes "GET_PROC_STATS:") buffer)) [
        | inr (r, e) ↦ rw (handle_request, e) (sync-IsBounded processes)
        | inl e ↦ elim (Bool-cases (same_text buffer (codes "GET_STATS"))) [
          | inl f ↦ rw (handle_request, e, f) (sync-IsBounded processes)
          | inr f ↦ elim (Bool-cases (same_text buffer (codes "QP_CREATE"))) [
            | inl g ↦ rw (handle_request, e, f, g) qp_create-IsBounded
            | inr g ↦ elim (Bool-cases (same_text buffer (codes "QP_DESTROY"))) [
              | inl h ↦ rw (handle_request, e, f, g, h) qp_destroy-IsBounded
              | inr h ↦ rw (handle_request, e, f, g, h) (handle_sized-IsBounded buffer)
            ]
          ]
        ]
      ]

-- One connection after the other, each with what the map of processes holds then.
unfoldable pub serve_all : List (Option (List (ℕ × ResourceUsage)) × Bytes) → Collector → Collector
serve_all [] c = c
serve_all ((processes, received) ∷ rest) c =
    serve_all rest (serve (record { processes = processes; global = none }) received c).1

-- Whatever bytes the clients send, the counts stay within the global limits, as long as the map of
-- global usage is not read into them.
pub serve_all-IsBounded :
    (requests : List (Option (List (ℕ × ResourceUsage)) × Bytes)) (c : Collector)
    → IsBounded c
    → IsBounded (serve_all requests c)
unfolding serve_all serve
serve_all-IsBounded [] c w = w
serve_all-IsBounded ((processes, []) ∷ rest) c w = serve_all-IsBounded rest c w
serve_all-IsBounded ((processes, b ∷ received) ∷ rest) c w =
    serve_all-IsBounded rest
      (serve (record { processes = processes; global = none }) (b ∷ received) c).1
      (handle_request-IsBounded c w processes (cut_request (b ∷ received)))
