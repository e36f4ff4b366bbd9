-- ===== src/Policy/LocalLimits.antt =====
-- The local limit of src/dynamic_policy.c over whole histories of checks.
use rdma_intercept_ldperload.Base.{ℕ, ◌<◌, ◌≤◌, ◌≡◌, true, not, none, List, [], ◌∷◌, arith}
use rdma_intercept_ldperload.Collector.Client.{
  CollectorClient, StatsExchange, collector_get_global_qp_count, collector_get_max_global_qp,
  collector_check_global_qp_limit,
}
use rdma_intercept_ldperload.Policy.Local.{
  UsageBand, ample, moderate, scarce, LocalPolicy, Surroundings, limit_of, usage_band, next_limit,
  adjust_local_qp_limit, check_dynamic_qp_policy,
}

-- One call of the check: its surroundings, the exchanges of the global check, and the count.
pub record PolicyCheck : Type 0 where
  pub around : Surroundings
  pub first : StatsExchange
  pub second : StatsExchange
  pub qp_count : ℕ

abbrev pub run : List PolicyCheck → LocalPolicy × CollectorClient → LocalPolicy × CollectorClient
run [] s = s
run (c ∷ cs) s = run cs (check_dynamic_qp_policy c.around c.first c.second c.qp_count s.0 s.1).1

-- No check of the history sees the variable of the environment.
abbrev pub AllUnset : List PolicyCheck → Type 0
AllUnset [] = Unit
AllUnset (c ∷ cs) = (c.around.local_limit_str ≡ none) × AllUnset cs

-- A limit between the smallest and the largest that the bands give.
pub record IsModerate (p : LocalPolicy) : Type 0 where
  pub low : 50 ≤ p.local_qp_limit
  pub high : p.local_qp_limit ≤ 200

limit_of-low : (b : UsageBand) → 50 ≤ limit_of b
limit_of-low ample = omega arith
limit_of-low moderate = omega arith
limit_of-low scarce = omega arith

limit_of-high : (b : UsageBand) → limit_of b ≤ 200
limit_of-high ample = omega arith
limit_of-high moderate = omega arith
limit_of-high scarce = omega arith

adjust-IsModerate :
    (w : Surroundings) (p : LocalPolicy) (k : CollectorClient)
    → w.local_limit_str ≡ none
    → IsModerate p
    → IsModerate (adjust_local_qp_limit w p k).0
unfolding adjust_local_qp_limit next_limit
adjust-IsModerate w p k unset h =
    let (global_count, k1) = collector_get_global_qp_count w.count_exchange k in
    let (max_global, k2) = collector_get_max_global_qp w.max_exchange k1 in
    let b = usage_band w.band global_count max_global in
    record {
      low = ground (arith, limit_of-low b, unset, h.low);
      high = ground (arith, limit_of-high b, unset, h.high);
    }

run-IsModerate :
    (cs : List PolicyCheck) (s : LocalPolicy × CollectorClient)
    → AllUnset cs
    → IsModerate s.0
    → IsModerate (run cs s).0
unfolding check_dynamic_qp_policy
run-IsModerate [] s unset h = h
run-IsModerate (c ∷ cs) s (none_here, unset) h =
    run-IsModerate cs (check_dynamic_qp_policy c.around c.first c.second c.qp_count s.0 s.1).1 unset
      (adjust-IsModerate c.around s.0 s.1 none_here h)

-- After any history of checks without the variable of the environment, whatever the collector and
-- the clock answer: a further check of that kind lets no process pass that has 200 queue pairs or
-- more, and denies none below 50 unless the global check says that the limit is reached.
pub run-check_dynamic_qp_policy :
    (cs : List PolicyCheck) (c : PolicyCheck) (s : LocalPolicy × CollectorClient)
    → AllUnset (c ∷ cs)
    → IsModerate s.0
    → let (p, k) = run cs s in
      ((check_dynamic_qp_policy c.around c.first c.second c.qp_count p k).0 ≡ true
        → c.qp_count < 200)
      × (c.qp_count < 50
          → (check_dynamic_qp_policy c.around c.first c.second c.qp_count p k).0
            ≡ not
                (collector_check_global_qp_limit c.first c.second
                  (adjust_local_qp_limit c.around p k).1).0)
unfolding check_dynamic_qp_policy
run-check_dynamic_qp_policy cs c s (none_here, unset) h =
    let (p, k) = run cs s in
    let m = adjust-IsModerate c.around p k none_here (run-IsModerate cs s unset h) in
    (λ passed. ground (arith, m.low, m.high, passed), λ few. ground (arith, m.low, m.high, few))
