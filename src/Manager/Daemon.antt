-- ===== src/Manager/Daemon.antt =====
-- src/tenant_manager_daemon.c: the handlers of the commands.
use rdma_intercept_ldperload.Base.{
  ℕ, ◌+◌, ◌++◌, Bool, true, false, not, Option, none, some, List, [], ◌∷◌, u64, if◌then◌else◌,
  length,
}
use rdma_intercept_ldperload.Text.{Bytes, codes, same_text}
use rdma_intercept_ldperload.Text.Decimal.{print_unsigned}
use rdma_intercept_ldperload.Shm.{success, failure}
use rdma_intercept_ldperload.Tenant.{TenantInfo, TenantQuota, TenantShm, TenantHandle, is_inactive}
use rdma_intercept_ldperload.Tenant.Segment.{TenantReplies, tenant_shm_get_ptr}
use rdma_intercept_ldperload.Tenant.Lifecycle.{
  tenant_create, tenant_delete, tenant_get_info, tenant_update_quota,
}
use rdma_intercept_ldperload.Manager.{
  Command, TenantRow, ListedTenant, ResponseData, no_data, all_rows, one_row, listing, Response,
  DaemonEnv,
}

abbrev pub build_response : Bool → Bytes → ResponseData → Response
build_response ok message payload = record { success = ok; message = message; payload = payload }

-- `json_object_object_get_ex(…) ? … : default`.
abbrev pub field_or {ℓ} : {A : Type ℓ} → Option A → A → A
field_or none default = default
field_or (some a) default = a

abbrev pub default_memory : ℕ
default_memory = 1073741824

abbrev pub requested_quota : ℕ → ℕ → ℕ → TenantQuota
requested_quota qp mr memory = record {
  max_qp_per_tenant = qp;
  max_mr_per_tenant = mr;
  max_memory_per_tenant = memory;
  max_cq_per_tenant = qp;
  max_pd_per_tenant = 10;
}

-- The stamp that `handle_update_quota` leaves without the lock.
unfoldable pub stamp_unlocked : TenantReplies → ℕ → TenantHandle → TenantHandle
stamp_unlocked r now_ns h =
    let h = tenant_shm_get_ptr r h in
    elim h.g_tenant_shm [
      | none ↦ h
      | some s ↦ record h {
        g_tenant_shm = some (record s { last_update_time = now_ns; version = u64 (s.version + 1) });
      }
    ]

-- `tenant_update_quota` and the answer to its result.
unfoldable pub apply_quota :
    TenantReplies → DaemonEnv → ℕ → TenantQuota → TenantHandle → Response × TenantHandle
unfolding stamp_unlocked
apply_quota r e id quota h =
    let (result, h) = tenant_update_quota r e.now id (some quota) h in
    elim result [
      | failure ↦ (build_response false (codes "Failed to update quota") no_data, h)
      | success ↦ (
        build_response true (codes "Quota updated for tenant " ++ print_unsigned id []) no_data,
        stamp_unlocked r e.now_ns h,
      )
    ]

unfoldable pub handle_update_quota :
    TenantReplies → DaemonEnv → Command → TenantHandle → Response × TenantHandle
unfolding apply_quota
handle_update_quota r e c h =
    let missing : Response × TenantHandle =
      (build_response false (codes "Missing required fields: tenant, qp") no_data, h) in
    elim c.tenant [
      | none ↦ missing
      | some id ↦ elim c.qp [
        | none ↦ missing
        | some qp ↦
            apply_quota r e id
              (requested_quota qp (field_or c.mr qp) (field_or c.memory default_memory)) h
      ]
    ]

unfoldable pub handle_create :
    TenantReplies → DaemonEnv → Command → TenantHandle → Response × TenantHandle
handle_create r e c h = elim c.tenant [
  | none ↦ (build_response false (codes "Missing required field: tenant") no_data, h)
  | some id ↦
      let quota =
        requested_quota (field_or c.qp 100) (field_or c.mr 100)
          (field_or c.memory default_memory) in
      let (result, h) =
        tenant_create r e.now id (some (field_or c.name (codes "unnamed"))) (some quota) h in
      elim result [
        | failure ↦ (build_response false (codes "Failed to create tenant") no_data, h)
        | success ↦ (
          build_response true (codes "Tenant " ++ print_unsigned id (codes " created")) no_data,
          h,
        )
      ]
]

unfoldable pub handle_delete :
    TenantReplies → DaemonEnv → Command → TenantHandle → Response × TenantHandle
handle_delete r e c h = elim c.tenant [
  | none ↦ (build_response false (codes "Missing required field: tenant") no_data, h)
  | some id ↦
      let (result, h) = tenant_delete r e.now id h in
      elim result [
        | failure ↦ (build_response false (codes "Failed to delete tenant") no_data, h)
        | success ↦ (
          build_response true (codes "Tenant " ++ print_unsigned id (codes " deleted")) no_data,
          h,
        )
      ]
]

abbrev pub row : TenantInfo → TenantRow
row t = record {
  id = t.tenant_id;
  name = t.tenant_name;
  status = t.status;
  qp_used = t.usage.qp_count;
  qp_limit = t.quota.max_qp_per_tenant;
  mr_used = t.usage.mr_count;
  mr_limit = t.quota.max_mr_per_tenant;
  memory_used = t.usage.memory_used;
  memory_limit = t.quota.max_memory_per_tenant;
}

abbrev pub listed : TenantInfo → ListedTenant
listed t = record {
  id = t.tenant_id;
  name = t.tenant_name;
  qp_used = t.usage.qp_count;
  qp_limit = t.quota.max_qp_per_tenant;
  mr_used = t.usage.mr_count;
  mr_limit = t.quota.max_mr_per_tenant;
}

-- The loop over the table: an object for each tenant that is not inactive.
unfoldable pub rows {ℓ} : {A : Type ℓ} → (TenantInfo → A) → List TenantInfo → List A
rows make [] = []
rows make (t ∷ ts) = if not (is_inactive t.status) then make t ∷ rows make ts else rows make ts

abbrev pub rows_of {ℓ} : {A : Type ℓ} → (TenantInfo → A) → Option TenantShm → List A
rows_of make none = []
rows_of make (some s) = rows make s.tenants

unfoldable pub handle_status :
    TenantReplies → DaemonEnv → Command → TenantHandle → Response × TenantHandle
unfolding rows
handle_status r e c h = elim c.tenant [
  | none ↦
      let h = tenant_shm_get_ptr r h in
      (build_response true (codes "All tenants status") (all_rows (rows_of row h.g_tenant_shm)), h)
  | some id ↦
      let (answer, h) = tenant_get_info r e.now id h in
      elim answer.0 [
        | failure ↦ (build_response false (codes "Tenant not found") no_data, h)
        | success ↦ (
          build_response true (codes "Tenant status") (elim answer.1 [
            | none ↦ no_data
            | some t ↦ one_row (row t) t.usage.total_qp_creates t.usage.total_mr_regs
          ]),
          h,
        )
      ]
]

unfoldable pub handle_list_tenants : TenantReplies → TenantHandle → Response × TenantHandle
unfolding rows
handle_list_tenants r h =
    let h = tenant_shm_get_ptr r h in
    let found = rows_of listed h.g_tenant_shm in
    (
      build_response true (codes "Tenant list")
          (listing (length found) (elim h.g_tenant_shm [ none ↦ 0 | some s ↦ s.version ]) found),
      h,
    )

-- `none` is a text that the JSON library does not parse.
unfoldable pub process_command :
    TenantReplies → DaemonEnv → Option Command → TenantHandle → Response × TenantHandle
unfolding handle_update_quota handle_create handle_delete handle_status handle_list_tenants
process_command r e none h = (build_response false (codes "Invalid JSON") no_data, h)
process_command r e (some c) h = elim c.cmd [
  | none ↦ (build_response false (codes "Missing 'cmd' field") no_data, h)
  | some cmd ↦
      if same_text cmd (codes "UPDATE_QUOTA")
      then handle_update_quota r e c h
      else if same_text cmd (codes "CREATE")
      then handle_create r e c h
      else if same_text cmd (codes "DELETE")
      then handle_delete r e c h
      else if same_text cmd (codes "STATUS")
      then handle_status r e c h
      else if same_text cmd (codes "LIST_TENANTS")
      then handle_list_tenants r h
      else (build_response false (codes "Unknown command") no_data, h)
]
