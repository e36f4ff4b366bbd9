-- ===== src/Tenant/Ledger/Owners.antt =====
-- How one written entry, and the sweep of `tenant_delete`, move the owners.
use rdma_intercept_ldperload.Base.{
  ℕ, zero, suc, ◌+◌, ◌≤◌, ◌<◌, ◌≡◌, ◌≢◌, refl, Option, none, some, List, [], ◌∷◌, ◌==◌,
  if◌then◌else◌, find_index?, get_or, set, length, count, arith, u32, minus_one,
}
use rdma_intercept_ldperload.Tenant.{PidMapping, free_mapping}
use rdma_intercept_ldperload.Tenant.Lifecycle.{clear_mappings}
use rdma_intercept_ldperload.Tenant.Registry.{has_pid}
use rdma_intercept_ldperload.Tenant.Registry.Sweep.{clear_mappings_unique}
use rdma_intercept_ldperload.Tenant.Ledger.{owner_in}

pub owner_in-count :
    (ms : List PidMapping) (q : ℕ) → count (has_pid q) ms ≡ 0 → owner_in ms q ≡ none
unfolding owner_in
owner_in-count [] q h = refl
owner_in-count (m ∷ ms) q h = ground (arith, owner_in-count ms q)

module _ (pid q : ℕ) (m : PidMapping) where
  pub owner_in-set_found :
      (ms : List PidMapping) (idx : ℕ)
      → find_index? (has_pid pid) ms ≡ some idx
      → m.pid ≡ pid
      → owner_in (set ms idx m) q ≡ (if q == pid then some m.tenant_id else owner_in ms q)
  unfolding owner_in
  owner_in-set_found [] idx e p = cc
  owner_in-set_found (x ∷ ms) zero e p = ground arith
  owner_in-set_found (x ∷ ms) (suc idx) e p = ground (arith, owner_in-set_found ms idx)

  pub owner_in-set_new :
      (ms : List PidMapping) (idx : ℕ)
      → find_index? (has_pid pid) ms ≡ none
      → idx < length ms
      → (get_or ms idx free_mapping).pid ≡ 0
      → m.pid ≡ pid
      → q ≢ 0
      → owner_in (set ms idx m) q ≡ (if q == pid then some m.tenant_id else owner_in ms q)
  unfolding owner_in
  owner_in-set_new [] idx e l z p n = absurd (omega arith)
  owner_in-set_new (x ∷ ms) zero e l z p n = ground arith
  owner_in-set_new (x ∷ ms) (suc idx) e l z p n = ground (arith, owner_in-set_new ms idx)

  pub owner_in-set_gone :
      (ms : List PidMapping) (idx : ℕ)
      → find_index? (has_pid pid) ms ≡ some idx
      → m.pid ≡ 0
      → count (has_pid pid) ms ≤ 1
      → q ≢ 0
      → owner_in (set ms idx m) q ≡ (if q == pid then none else owner_in ms q)
  unfolding owner_in
  owner_in-set_gone [] idx e p u n = cc
  owner_in-set_gone (x ∷ ms) zero e p u n = ground (arith, owner_in-count ms q)
  owner_in-set_gone (x ∷ ms) (suc idx) e p u n = ground (arith, owner_in-set_gone ms idx)

-- An owner that is not the deleted tenant.
abbrev pub without : ℕ → Option ℕ → Option ℕ
without id none = none
without id (some t) = if t == id then none else some t

pub owner_in-clear :
    (id q : ℕ) (ms : List PidMapping) (total : ℕ)
    → q ≢ 0
    → count (has_pid q) ms ≤ 1
    → owner_in (clear_mappings id ms total).0 q ≡ without id (owner_in ms q)
unfolding owner_in clear_mappings
owner_in-clear id q [] total n u = refl
owner_in-clear id q (m ∷ ms) total n u =
    let next = if m.tenant_id == id then u32 (total + minus_one) else total in
    ground (
      arith,
      owner_in-clear id q ms next n,
      clear_mappings_unique id q ms next n,
      owner_in-count (clear_mappings id ms next).0 q,
    )
