-- ===== src/Manager/Creation.antt =====
-- What a creation by the command line tool of src/tenant_manager.c leaves.
use rdma_intercept_ldperload.Base.{
  ℕ, ◌+◌, ◌*◌, ◌^◌, ◌<◌, ◌≡◌, refl, false, Option, none, some, [], ◌∷◌, u32, ltb, length,
  get_or-set_self, arith, ◌∙◌, take, replicate, Option-cases, inl, inr,
}
use rdma_intercept_ldperload.Text.{Bytes, codes, after_prefix, read_digits}
use rdma_intercept_ldperload.Text.Decimal.{
  print_unsigned, skip_digits, scan_unsigned-print_unsigned, skip_number-print_unsigned,
}
use rdma_intercept_ldperload.Shm.{success, failure}
use rdma_intercept_ldperload.Tenant.{
  TenantInfo, active, TenantQuota, TenantShm, is_inactive, max_tenants,
}
use rdma_intercept_ldperload.Tenant.Segment.{TenantReplies, tenant_shm_lock}
use rdma_intercept_ldperload.Tenant.Lifecycle.{
  tenant_at, new_tenant, create_locked, tenant_create, tenant_get_info,
}
use rdma_intercept_ldperload.Tenant.Info.{create-get_info}
use rdma_intercept_ldperload.Tenant.Ledger.Calls.{with_shm-attached}
use rdma_intercept_ldperload.Policy.{resource_memory, TenantPolicy}
use rdma_intercept_ldperload.Policy.TenantPolicies.{
  zero_rule, zero_config, zero_policy, set_tenant_policy, get_tenant_policy, check_tenant_limit,
}
use rdma_intercept_ldperload.Manager.Commands.{
  Tool, tool_quota, tool_policy, scan_u32, scan_comma, scan_quota, create_with, cmd_create_tenant,
}

-- `qp,mr,mem` in decimal.
abbrev pub quota_text : ℕ → ℕ → ℕ → Bytes
quota_text qp mr mem_mb = print_unsigned qp (44 ∷ print_unsigned mr (44 ∷ print_unsigned mem_mb []))

scan_comma-print_unsigned :
    (n : ℕ) (rest : Bytes) → n < 2 ^ 32 → scan_comma (print_unsigned n (44 ∷ rest)) ≡ some (n, rest)
unfolding scan_comma scan_u32 after_prefix read_digits skip_digits
scan_comma-print_unsigned n rest word = ground (
  arith,
  scan_unsigned-print_unsigned n (44 ∷ rest) (omega arith) refl,
  skip_number-print_unsigned n (44 ∷ rest),
)

scan_u32-print_unsigned : (n : ℕ) → n < 2 ^ 32 → scan_u32 (print_unsigned n []) ≡ some (n, [])
unfolding scan_u32 read_digits skip_digits
scan_u32-print_unsigned n word =
    ground
      (arith, scan_unsigned-print_unsigned n [] (omega arith) refl, skip_number-print_unsigned n [])

-- Three 32-bit numbers written with commas are read back as the quota, the memory in MB.
pub scan_quota-quota_text :
    (qp mr mem_mb : ℕ)
    → qp < 2 ^ 32
    → mr < 2 ^ 32
    → mem_mb < 2 ^ 32
    → scan_quota (quota_text qp mr mem_mb)
      ≡ some (record tool_quota {
        max_qp_per_tenant = qp;
        max_mr_per_tenant = mr;
        max_memory_per_tenant = mem_mb * 1024 * 1024;
      })
unfolding scan_quota
scan_quota-quota_text qp mr mem_mb a b c =
    rw
      (
        scan_quota,
        scan_comma-print_unsigned qp _ a,
        scan_comma-print_unsigned mr _ b,
        scan_u32-print_unsigned mem_mb c,
      )
      refl

module _ (r : TenantReplies) (now id : ℕ) (name : Option Bytes) (qp mr mem_mb : ℕ) (t : Tool)
    (s : TenantShm) (attached : t.tenants.g_tenant_shm ≡ some s)
    (whole : length s.tenants ≡ max_tenants) (a : qp < 2 ^ 32) (b : mr < 2 ^ 32)
    (c : mem_mb < 2 ^ 32) where
  -- The tenant that the tool reports as created on an attached registry, with its quota given as three
  -- 32-bit numbers in decimal, is from then on read as an active tenant with that quota (the memory in
  -- MB, 100 completion queues and 100 protection domains), the name given or "unnamed", cut to 63
  -- bytes, no usage and no processes.
  pub cmd_create_tenant-get_info :
      (later : ℕ)
      → (cmd_create_tenant r now id name (some (quota_text qp mr mem_mb)) t).0 ≡ success
      → let made : TenantInfo = record {
        tenant_id = id;
        tenant_name = take 63 (elim name [ none ↦ codes "unnamed" | some n ↦ n ]);
        status = active;
        quota = record {
          max_qp_per_tenant = qp;
          max_mr_per_tenant = mr;
          max_memory_per_tenant = mem_mb * 1024 * 1024;
          max_cq_per_tenant = 100;
          max_pd_per_tenant = 100;
        };
        usage = record {
          qp_count = 0;
          mr_count = 0;
          cq_count = 0;
          pd_count = 0;
          memory_used = 0;
          total_qp_creates = 0;
          total_qp_destroys = 0;
          total_mr_regs = 0;
          total_mr_deregs = 0;
        };
        created_at = now;
        last_active_at = now;
        process_count = 0;
        processes = replicate 1024 0;
      } in
        (tenant_get_info r later id
          (cmd_create_tenant r now id name (some (quota_text qp mr mem_mb)) t).1.tenants).0
        ≡ (success, some made)
  unfolding cmd_create_tenant create_with new_tenant
  cmd_create_tenant-get_info later ok =
      let quota : TenantQuota = record tool_quota {
        max_qp_per_tenant = qp;
        max_mr_per_tenant = mr;
        max_memory_per_tenant = mem_mb * 1024 * 1024;
      } in
      let read = create-get_info r now id name (some quota) t.tenants s attached whole later id in
      ground (arith, scan_quota-quota_text qp mr mem_mb a b c, read)

-- The quota of a creation: the tool's own without a text for it, else what the text is read as.
abbrev pub chosen_quota : Option Bytes → Option TenantQuota
chosen_quota none = some tool_quota
chosen_quota (some text) = scan_quota text

module _ (r : TenantReplies) (now id : ℕ) (name quota_str : Option Bytes) (quota : TenantQuota)
    (t : Tool) (below : id < max_tenants) (room : length t.policies.tenant_policies ≡ max_tenants)
    (chosen : chosen_quota quota_str ≡ some quota) where
  cmd_create_tenant-create_with :
      cmd_create_tenant r now id name quota_str t ≡ create_with r now id name quota t
  unfolding cmd_create_tenant
  cmd_create_tenant-create_with = elim (Option-cases quota_str) [
    | inl e ↦ ground arith
    | inr (text, e) ↦ ground arith
  ]

  policy_after :
      get_tenant_policy id (cmd_create_tenant r now id name quota_str t).1.policies
      ≡ some (record (tool_policy id name quota) { last_updated = now })
  unfolding create_with set_tenant_policy get_tenant_policy
  policy_after = rw cmd_create_tenant-create_with (
      ground (
        arith,
        below,
        room,
        get_or-set_self t.policies.tenant_policies id
            (record (tool_policy id name quota) { last_updated = now }) zero_policy,
      ))

  -- A creation of a tenant that exists already, without a quota or with one that is read, fails, but
  -- the policy of that tenant is replaced by the one of the refused creation: its name, and the limits
  -- of the quota that was refused.
  pub cmd_create_tenant-refused :
      (s : TenantShm)
      → t.tenants.g_tenant_shm ≡ some s
      → is_inactive (tenant_at s id).status ≡ false
      → let policy : TenantPolicy = record {
        tenant_id = id;
        tenant_name = take 63 (elim name [ none ↦ codes "unnamed" | some n ↦ n ]);
        policy = record zero_config {
          qp_policy = record zero_rule {
            limit = record {
              max_per_process = quota.max_qp_per_tenant;
              max_global = quota.max_qp_per_tenant;
              max_memory = 0;
            };
          };
          mr_policy = record zero_rule {
            limit = record {
              max_per_process = quota.max_mr_per_tenant;
              max_global = quota.max_mr_per_tenant;
              max_memory = 0;
            };
          };
          memory_policy = record zero_rule {
            limit = record {
              max_per_process = 0;
              max_global = 0;
              max_memory = quota.max_memory_per_tenant;
            };
          };
        };
        last_updated = now;
      } in
        ((cmd_create_tenant r now id name quota_str t).0 ≡ failure)
        × (get_tenant_policy id (cmd_create_tenant r now id name quota_str t).1.policies
            ≡ some policy)
  unfolding create_with tenant_create create_locked tenant_shm_lock tool_policy
  cmd_create_tenant-refused s attached live =
      let call =
        with_shm-attached r now failure (create_locked now id name (some quota)) t.tenants s
          attached in
      (
        rw cmd_create_tenant-create_with (ground (arith, call, live)),
        policy_after
            ∙ elim (Option-cases name) [ inl e ↦ ground arith | inr (n, e) ↦ ground arith ],
      )

  -- Under the policy that a creation leaves, the tenant is denied every request of memory that is not
  -- 0 bytes on top of 0: the check reads a limit that the creation leaves at 0.
  pub cmd_create_tenant-memory_denied :
      (current requested : ℕ)
      → check_tenant_limit id resource_memory current requested
          (cmd_create_tenant r now id name quota_str t).1.policies
        ≡ ltb 0 (u32 (current + requested))
  unfolding check_tenant_limit tool_policy
  cmd_create_tenant-memory_denied current requested = rw (check_tenant_limit, policy_after) refl
