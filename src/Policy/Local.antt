-- ===== src/Policy/Local.antt =====
-- src/dynamic_policy.c: the local limit on queue pairs, which follows the global use.
-- `band` stands for the comparisons of the quotient of two counts with 0.3 and 0.7, made in `float`.
use rdma_intercept_ldperload.Base.{
  ℕ, ◌+◌, ◌-◌, ◌^◌, Bool, true, false, Option, none, some, ltb, leb, if◌then◌else◌, u32,
}
use rdma_intercept_ldperload.Text.{Bytes}
use rdma_intercept_ldperload.Text.Decimal.{strtol}
use rdma_intercept_ldperload.Collector.Client.{
  CollectorClient, StatsExchange, collector_get_global_qp_count, collector_get_max_global_qp,
  collector_check_global_qp_limit,
}

-- Where the global use stands: below 0.3, below 0.7, or above.
pub data UsageBand : Type 0 where
  ample moderate scarce : UsageBand

-- The file-level variables.
pub record LocalPolicy : Type 0 where
  pub last_adjust_time : ℕ
  pub local_qp_limit : ℕ

unfoldable pub initial_policy : LocalPolicy
initial_policy = record { last_adjust_time = 0; local_qp_limit = 100 }

-- What stands outside the process in one adjustment: the clock as a `uint32_t`, the answers of the
-- collector to the two questions, and the environment.
pub record Surroundings : Type 0 where
  pub now : ℕ
  pub count_exchange : StatsExchange
  pub max_exchange : StatsExchange
  pub band : ℕ → ℕ → UsageBand
  pub local_limit_str : Option Bytes

abbrev pub limit_of : UsageBand → ℕ
limit_of ample = 200
limit_of moderate = 100
limit_of scarce = 50

-- A global limit of 0 counts as no use.
abbrev pub usage_band : (ℕ → ℕ → UsageBand) → ℕ → ℕ → UsageBand
usage_band band global_count max_global =
    if ltb 0 max_global then band global_count max_global else ample

-- `atoi` of the variable, as a `uint32_t`, goes before the limit of the band.
unfoldable pub next_limit : Option Bytes → UsageBand → ℕ
next_limit none b = limit_of b
next_limit (some text) b = u32 (strtol text)

unfoldable pub adjust_local_qp_limit :
    Surroundings → LocalPolicy → CollectorClient → LocalPolicy × CollectorClient
unfolding collector_get_global_qp_count collector_get_max_global_qp next_limit
adjust_local_qp_limit w p k =
    let (global_count, k1) = collector_get_global_qp_count w.count_exchange k in
    let (max_global, k2) = collector_get_max_global_qp w.max_exchange k1 in
    if ltb (u32 (w.now + (2 ^ 32 - p.last_adjust_time))) 5 then (p, k) else (
      record {
        last_adjust_time = w.now;
        local_qp_limit = next_limit w.local_limit_str (usage_band w.band global_count max_global);
      },
      k2,
    )

-- `true` lets the creation pass. `first` and `second` are the exchanges of the global check, and
-- `qp_count` is that of the process.
unfoldable pub check_dynamic_qp_policy :
    Surroundings
    → StatsExchange
    → StatsExchange
    → ℕ
    → LocalPolicy
    → CollectorClient
    → Bool × (LocalPolicy × CollectorClient)
unfolding adjust_local_qp_limit collector_check_global_qp_limit
check_dynamic_qp_policy w first second qp_count p k =
    let (p, k) = adjust_local_qp_limit w p k in
    let (reached, k) = collector_check_global_qp_limit first second k in
    (if reached then false else if leb p.local_qp_limit qp_count then false else true, (p, k))

unfoldable pub get_current_local_qp_limit :
    Surroundings → LocalPolicy → CollectorClient → ℕ × (LocalPolicy × CollectorClient)
unfolding adjust_local_qp_limit
get_current_local_qp_limit w p k =
    let (p, k) = adjust_local_qp_limit w p k in (p.local_qp_limit, (p, k))
