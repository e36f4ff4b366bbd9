-- ===== src/Tenant/Registry/Bind.antt =====
-- tenant_bind_process and tenant_unbind_process (src/shm/shared_memory_tenant.c) keep the registry.
use mathlib.Core.Option
use rdma_intercept_ldperload.Base.{
  ℕ, suc, ◌+◌, ◌<◌, ◌≡◌, ◌≢◌, refl, ◌∙◌, ◌⊎◌, Bool, true, false, List, [], ◌∷◌, Option, none, some,
  u32, arith, ◌==◌, ==_iff, if◌then◌else◌, get_or, set, get_or-set, length-set, count, count-set,
  count-pos, count-le-length, Bool-cases, Option-cases, inl, inr, find_index?, find_index?-lt,
  find_index?-get_or, find_index?-count,
}
use rdma_intercept_ldperload.Shm.{Status, success, failure, max_processes}
use rdma_intercept_ldperload.Tenant.{PidMapping, TenantShm, is_inactive, is_active, free_mapping}
use rdma_intercept_ldperload.Tenant.Lifecycle.{tenant_at}
use rdma_intercept_ldperload.Tenant.Binding.{
  find_mapping, add_process, remove_process, rebind, bind_new, bind_locked, mapping_at, drop_one,
  unbind_at, unbind_locked,
}
use rdma_intercept_ldperload.Tenant.Registry.{is_bound, has_pid, IsRegistry}
use rdma_intercept_ldperload.Tenant.Registry.Create.{registered-lt, set_tenant-IsRegistry}

abbrev pub is_free : PidMapping → Bool
is_free m = m.pid == 0

abbrev shift : ℕ → Option ℕ → Option ℕ
shift i o = Option.map (λ k. i + k) o

find_mapping-found :
    (pid : ℕ) (ms : List PidMapping) (i : ℕ) (e : Option ℕ)
    → (find_mapping pid ms i e).0 ≡ shift i (find_index? (has_pid pid) ms)
unfolding find_mapping
find_mapping-found pid [] i e = refl
find_mapping-found pid (m ∷ ms) i (some e) =
    ground (arith, find_mapping-found pid ms (suc i) (some e))
find_mapping-found pid (m ∷ ms) i none =
    ground
      (arith, find_mapping-found pid ms (suc i) none, find_mapping-found pid ms (suc i) (some i))

find_mapping-held :
    (pid : ℕ) (ms : List PidMapping) (i e : ℕ)
    → find_index? (has_pid pid) ms ≡ none
    → (find_mapping pid ms i (some e)).1 ≡ some e
unfolding find_mapping
find_mapping-held pid [] i e h = refl
find_mapping-held pid (m ∷ ms) i e h = ground (arith, find_mapping-held pid ms (suc i) e)

find_mapping-empty :
    (pid : ℕ) (ms : List PidMapping) (i : ℕ)
    → find_index? (has_pid pid) ms ≡ none
    → (find_mapping pid ms i none).1 ≡ shift i (find_index? is_free ms)
unfolding find_mapping
find_mapping-empty pid [] i h = refl
find_mapping-empty pid (m ∷ ms) i h =
    ground (arith, find_mapping-empty pid ms (suc i), find_mapping-held pid ms (suc i) i)

-- What `bind_locked` does, by the two searches that its loop fuses.
abbrev pub bind_by : ℕ → ℕ → ℕ → TenantShm → Option ℕ → Option ℕ → Status × TenantShm
bind_by now pid id s (some idx) free = (success, rebind now pid id idx s)
bind_by now pid id s none (some idx) = (success, bind_new now pid id idx s)
bind_by now pid id s none none = (failure, s)

pub bind_locked-eq-bind_by :
    (now pid id : ℕ) (s : TenantShm)
    → bind_locked now pid id s ≡ (
        if is_active (tenant_at s id).status
        then bind_by now pid id s
            (find_index? (has_pid pid) s.pid_mappings)
            (find_index? is_free s.pid_mappings)
        else (failure, s))
unfolding bind_locked
bind_locked-eq-bind_by now pid id s =
    ground
      (arith, find_mapping-found pid s.pid_mappings 0 none, find_mapping-empty pid s.pid_mappings 0)

-- One entry is written: what it must satisfy for the registry to stay sound.
replace_mapping-IsRegistry :
    (s : TenantShm) (idx total : ℕ) (m : PidMapping)
    → idx < max_processes
    → IsRegistry s
    → (m.pid ≡ 0 → m.tenant_id ≡ 0)
    → (m.pid ≢ 0 → is_inactive (tenant_at s m.tenant_id).status ≡ false)
    → (m.pid ≡ 0) ⊎ ((mapping_at s idx).pid ≡ m.pid) ⊎ (count (has_pid m.pid) s.pid_mappings ≡ 0)
    → total + (if is_bound (mapping_at s idx) then 1 else 0)
      ≡ s.total_process_count + (if is_bound m then 1 else 0)
    → IsRegistry (record s { pid_mappings = set s.pid_mappings idx m; total_process_count = total })
replace_mapping-IsRegistry s idx total m l v f o w e = record {
  tenants_whole = v.tenants_whole;
  mappings_whole = length-set s.pid_mappings idx m ∙ v.mappings_whole;
  zero_vacant = v.zero_vacant;
  active_exact = v.active_exact;
  total_exact = omega (
    arith,
    count-set is_bound s.pid_mappings idx m free_mapping (omega (arith, v.mappings_whole)),
    v.total_exact,
    e,
  );
  free_clear = λ k z. ground (arith, at k, v.free_clear k);
  owned = λ k b. ground (arith, at k, v.owned k);
  unique = λ q h. ground (
    arith,
    count-set (has_pid q) s.pid_mappings idx m free_mapping (omega (arith, v.mappings_whole)),
    v.unique q h,
  );
}
  where
    at :
        (j : ℕ)
        → get_or (set s.pid_mappings idx m) j free_mapping
          ≡ (if j == idx then m else mapping_at s j)
    at j = get_or-set s.pid_mappings idx j m free_mapping (omega (arith, v.mappings_whole))

module _ (s : TenantShm) (v : IsRegistry s) where
  found-lt :
      (pid idx : ℕ) → find_index? (has_pid pid) s.pid_mappings ≡ some idx → idx < max_processes
  found-lt pid idx e =
      omega (arith, find_index?-lt (has_pid pid) s.pid_mappings idx e, v.mappings_whole)

  free-lt : (idx : ℕ) → find_index? is_free s.pid_mappings ≡ some idx → idx < max_processes
  free-lt idx e = omega (arith, find_index?-lt is_free s.pid_mappings idx e, v.mappings_whole)

  found_pid :
      (pid idx : ℕ)
      → find_index? (has_pid pid) s.pid_mappings ≡ some idx
      → (mapping_at s idx).pid ≡ pid
  found_pid pid idx e =
      (==_iff _ _).0 (find_index?-get_or (has_pid pid) s.pid_mappings idx free_mapping e)

  free_pid : (idx : ℕ) → find_index? is_free s.pid_mappings ≡ some idx → (mapping_at s idx).pid ≡ 0
  free_pid idx e = (==_iff _ _).0 (find_index?-get_or is_free s.pid_mappings idx free_mapping e)

  module _ (now pid id : ℕ) (nonzero : pid ≢ 0)
      (live : is_active (tenant_at s id).status ≡ true) where
    rebind-IsRegistry :
        (idx : ℕ)
        → find_index? (has_pid pid) s.pid_mappings ≡ some idx
        → IsRegistry (rebind now pid id idx s)
    unfolding rebind
    rebind-IsRegistry idx e =
        set_tenant-IsRegistry _ id (record (tenant_at s id) { last_active_at = now })
          (registered-lt s id v (ground arith)) refl
          (replace_mapping-IsRegistry s idx s.total_process_count
            (record { pid = pid; tenant_id = id; mapped_at = now }) (found-lt pid idx e) v
            (ground arith) (ground arith) (inr (inl (found_pid pid idx e)))
            (ground (arith, found_pid pid idx e)))

    bind_new-IsRegistry :
        (idx : ℕ)
        → find_index? (has_pid pid) s.pid_mappings ≡ none
        → find_index? is_free s.pid_mappings ≡ some idx
        → IsRegistry (bind_new now pid id idx s)
    unfolding bind_new
    bind_new-IsRegistry idx absent e =
        set_tenant-IsRegistry _ id
          (record (tenant_at s id) {
            process_count = u32 ((tenant_at s id).process_count + 1);
            processes = add_process pid (tenant_at s id).processes;
            last_active_at = now;
          })
          (registered-lt s id v (ground arith)) refl
          (replace_mapping-IsRegistry s idx (u32 (s.total_process_count + 1))
            (record { pid = pid; tenant_id = id; mapped_at = now }) (free-lt idx e) v (ground arith)
            (ground arith) (inr (inr (find_index?-count (has_pid pid) s.pid_mappings absent)))
            (ground (
              arith,
              free_pid idx e,
              v.total_exact,
              count-le-length is_bound s.pid_mappings,
              v.mappings_whole,
            )))

  pub bind_locked-IsRegistry : (now pid id : ℕ) → pid ≢ 0 → IsRegistry (bind_locked now pid id s).1
  bind_locked-IsRegistry now pid id h =
      rw (bind_locked-eq-bind_by now pid id s)
        (elim (Bool-cases (is_active (tenant_at s id).status)) [
          | inr dead ↦ rw dead v
          | inl live ↦ elim (Option-cases (find_index? (has_pid pid) s.pid_mappings)) [
            | inr (idx, e) ↦ rw (live, e) (rebind-IsRegistry now pid id h live idx e)
            | inl absent ↦ elim (Option-cases (find_index? is_free s.pid_mappings)) [
              | inl full ↦ rw (live, absent, full) v
              | inr (idx, e) ↦
                  rw (live, absent, e) (bind_new-IsRegistry now pid id h live idx absent e)
            ]
          ]
        ])

  unbind_at-IsRegistry :
      (pid idx : ℕ)
      → pid ≢ 0
      → find_index? (has_pid pid) s.pid_mappings ≡ some idx
      → IsRegistry (unbind_at pid idx s)
  unfolding unbind_at
  unbind_at-IsRegistry pid idx h e =
      set_tenant-IsRegistry _ id
        (record (tenant_at s id) {
          processes = remove_process pid (tenant_at s id).processes;
          process_count = drop_one (tenant_at s id).process_count;
        })
        (registered-lt s id v (v.owned idx (ground (arith, found_pid pid idx e)))) refl
        (replace_mapping-IsRegistry s idx (drop_one s.total_process_count)
          (record (mapping_at s idx) { pid = 0; tenant_id = 0 }) (found-lt pid idx e) v (λ z. refl)
          (λ n. absurd (n refl)) (inl refl)
          (ground (
            arith,
            found_pid pid idx e,
            v.total_exact,
            count-pos is_bound s.pid_mappings idx free_mapping,
            found-lt pid idx e,
            v.mappings_whole,
          )))
    where
      id : ℕ
      id = (mapping_at s idx).tenant_id

  pub unbind_locked-IsRegistry : (pid : ℕ) → pid ≢ 0 → IsRegistry (unbind_locked pid s).1
  unfolding unbind_locked
  unbind_locked-IsRegistry pid h = elim (Option-cases (find_index? (has_pid pid) s.pid_mappings)) [
    | inl absent ↦ rw (absent, unbind_locked) v
    | inr (idx, e) ↦ rw (e, unbind_locked) (unbind_at-IsRegistry pid idx h e)
  ]
