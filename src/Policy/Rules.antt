-- ===== src/Policy/Rules.antt =====
-- src/dynamic_policy_manager.c: the rules, their limits and the check against them.
use rdma_intercept_ldperload.Base.{
  ℕ, ◌+◌, ◌*◌, ◌^◌, ◌==◌, ◌&&◌, ◌||◌, Bool, true, false, Option, none, some, u32, ltb, leb,
  if◌then◌else◌,
}
use rdma_intercept_ldperload.Shm.{
  Status, success, failure, ResourceUsage, shm_get_global_resources, shm_set_global_limits,
}
use rdma_intercept_ldperload.Policy.{
  static_type, Resource, resource_qp, resource_mr, resource_cq, resource_pd, resource_memory,
  resource_other, ResourceLimit, PolicyRule, PolicyConfig, PolicyState,
}

abbrev pub zero_limit : ResourceLimit
zero_limit = record { max_per_process = 0; max_global = 0; max_memory = 0 }

-- The value of the enumeration.
abbrev pub resource_code : Resource → ℕ
resource_code resource_qp = 0
resource_code resource_mr = 1
resource_code resource_cq = 2
resource_code resource_pd = 3
resource_code resource_memory = 4
resource_code resource_other = 5

-- The rule of a resource; an unknown resource has none.
abbrev pub rule_of : Resource → PolicyConfig → Option PolicyRule
rule_of resource_qp c = some c.qp_policy
rule_of resource_mr c = some c.mr_policy
rule_of resource_cq c = some c.cq_policy
rule_of resource_pd c = some c.pd_policy
rule_of resource_memory c = some c.memory_policy
rule_of resource_other c = none

unfoldable pub init_default_rule : ℕ → Resource → PolicyRule
init_default_rule now resource = record {
  rule_id = resource_code resource;
  kind = static_type;
  resource = resource;
  limit = zero_limit;
  priority = 1;
  created_at = now;
  expires_at = 0;
  enabled = true;
}

-- The watermarks are the patterns of 0.8f and 0.2f.
unfoldable pub set_default_config : ℕ → PolicyConfig
unfolding init_default_rule
set_default_config now = record {
  qp_policy = record (init_default_rule now resource_qp) {
    limit = record { max_per_process = 100; max_global = 1000; max_memory = 0 };
  };
  mr_policy = record (init_default_rule now resource_mr) {
    limit = record { max_per_process = 1000; max_global = 10000; max_memory = 0 };
  };
  cq_policy = record (init_default_rule now resource_cq) {
    limit = record { max_per_process = 100; max_global = 1000; max_memory = 0 };
  };
  pd_policy = record (init_default_rule now resource_pd) {
    limit = record { max_per_process = 100; max_global = 1000; max_memory = 0 };
  };
  memory_policy = record (init_default_rule now resource_memory) {
    limit = record { max_per_process = 0; max_global = 0; max_memory = 10 * 1024 * 1024 * 1024 };
  };
  auto_adjust = false;
  adjust_interval = 60;
  high_watermark = 1061997773;
  low_watermark = 1045220557;
}

-- The limits of the rules, written to the segment; a refusal is ignored.
abbrev pub publish_limits : PolicyState → PolicyState
publish_limits s = record s {
  shm =
      (shm_set_global_limits s.config.qp_policy.limit.max_global s.config.mr_policy.limit.max_global
        s.config.memory_policy.limit.max_memory s.shm).1;
}

-- The `switch` of `dynamic_policy_set_limit`.
unfoldable pub put_limit : Resource → ResourceLimit → PolicyConfig → Option PolicyConfig
put_limit resource_qp l c = some (record c { qp_policy = record (c.qp_policy) { limit = l } })
put_limit resource_mr l c = some (record c { mr_policy = record (c.mr_policy) { limit = l } })
put_limit resource_cq l c = some (record c { cq_policy = record (c.cq_policy) { limit = l } })
put_limit resource_pd l c = some (record c { pd_policy = record (c.pd_policy) { limit = l } })
put_limit resource_memory l c =
    some (record c { memory_policy = record (c.memory_policy) { limit = l } })
put_limit resource_other l c = none

unfoldable pub set_limit : Resource → Option ResourceLimit → PolicyState → Status × PolicyState
unfolding put_limit
set_limit resource none s = (failure, s)
set_limit resource (some l) s = elim (put_limit resource l s.config) [
  | none ↦ (failure, s)
  | some c ↦ (success, publish_limits (record s { config = c }))
]

-- `none` is the return code -1.
unfoldable pub get_limit : Resource → PolicyState → Option ResourceLimit
get_limit resource s = elim (rule_of resource s.config) [
  | none ↦ none
  | some rule ↦ some rule.limit
]

-- What counts as globally used: only queue pairs and regions.
abbrev pub global_current : Resource → ResourceUsage → ℕ
global_current resource_qp u = u.qp_count
global_current resource_mr u = u.mr_count
global_current resource_cq u = 0
global_current resource_pd u = 0
global_current resource_memory u = 0
global_current resource_other u = 0

-- True is a denial. `stack` is what the uninitialized buffer holds if the segment is not read.
unfoldable pub check_limit : ResourceUsage → Resource → ℕ → ℕ → PolicyState → Bool
unfolding get_limit
check_limit stack resource current_usage requested s = elim (get_limit resource s) [
  | none ↦ false
  | some l ↦
      let usage : ResourceUsage = elim (shm_get_global_resources s.shm) [
        | none ↦ stack
        | some u ↦ u
      ] in
      if ltb l.max_global (u32 (global_current resource usage + requested))
      then true
      else ltb l.max_per_process (u32 (current_usage + requested))
]

unfoldable pub update : Option PolicyConfig → PolicyState → Status × PolicyState
update none s = (failure, s)
update (some c) s = (success, publish_limits (record s { config = c }))

-- The `switch` of `dynamic_policy_enable_rule`.
unfoldable pub put_enabled : Resource → Bool → PolicyConfig → Option PolicyConfig
put_enabled resource_qp b c = some (record c { qp_policy = record (c.qp_policy) { enabled = b } })
put_enabled resource_mr b c = some (record c { mr_policy = record (c.mr_policy) { enabled = b } })
put_enabled resource_cq b c = some (record c { cq_policy = record (c.cq_policy) { enabled = b } })
put_enabled resource_pd b c = some (record c { pd_policy = record (c.pd_policy) { enabled = b } })
put_enabled resource_memory b c =
    some (record c { memory_policy = record (c.memory_policy) { enabled = b } })
put_enabled resource_other b c = none

unfoldable pub enable_rule : Resource → Bool → PolicyState → Status × PolicyState
unfolding put_enabled
enable_rule resource enable s = elim (put_enabled resource enable s.config) [
  | none ↦ (failure, s)
  | some c ↦ (success, record s { config = c })
]

-- The segment keeps the limits that it has.
unfoldable pub set_default : ℕ → PolicyState → Status × PolicyState
set_default now s = (success, record s { config = set_default_config now })

-- `f > 0.0f && f <= 1.0f`, on the pattern of `f`: that of 1.0f is 1065353216.
abbrev pub is_high_watermark : ℕ → Bool
is_high_watermark f = ltb 0 f && leb f 1065353216

-- `f >= 0.0f && f < 1.0f`; the pattern 2^31 is -0.0f.
abbrev pub is_low_watermark : ℕ → Bool
is_low_watermark f = ltb f 1065353216 || f == 2 ^ 31

-- A value out of range leaves its setting alone. It returns 0 always.
unfoldable pub set_auto_adjust : Bool → ℕ → ℕ → ℕ → PolicyState → PolicyState
set_auto_adjust enable interval high low s = record s {
  config = record (s.config) {
    auto_adjust = enable;
    adjust_interval = if ltb 0 interval then interval else s.config.adjust_interval;
    high_watermark = if is_high_watermark high then high else s.config.high_watermark;
    low_watermark = if is_low_watermark low then low else s.config.low_watermark;
  };
}
