-- ===== src/Tenant/Registry/Sweep.antt =====
-- The sweep by which `tenant_delete` (src/shm/shared_memory_tenant.c) frees a tenant's entries.
use rdma_intercept_ldperload.Base.{
  ℕ, zero, suc, ◌+◌, ◌^◌, ◌≤◌, ◌<◌, ◌≡◌, ◌≢◌, refl, ap, Bool, List, [], ◌∷◌, u32, minus_one, arith,
  ◌==◌, if◌then◌else◌, length, get_or, count, Bool-cases, inl, inr,
}
use rdma_intercept_ldperload.Tenant.{PidMapping, free_mapping}
use rdma_intercept_ldperload.Tenant.Lifecycle.{clear_mappings}
use rdma_intercept_ldperload.Tenant.Registry.{is_bound, has_pid}

abbrev pub names : ℕ → PidMapping → Bool
names id m = m.tenant_id == id

abbrev pub clear_one : ℕ → PidMapping → PidMapping
clear_one id m = if m.tenant_id == id then record m { pid = 0; tenant_id = 0 } else m

abbrev pub IsClean : List PidMapping → Type 0
IsClean ms = (k : ℕ) → (get_or ms k free_mapping).pid ≡ 0 → (get_or ms k free_mapping).tenant_id ≡ 0

pub clear_mappings-get_or :
    (id : ℕ) (ms : List PidMapping) (total k : ℕ)
    → id ≢ 0
    → get_or (clear_mappings id ms total).0 k free_mapping ≡ clear_one id (get_or ms k free_mapping)
unfolding clear_mappings
clear_mappings-get_or id [] total k h = ground arith
clear_mappings-get_or id (m ∷ ms) total zero h = refl
clear_mappings-get_or id (m ∷ ms) total (suc k) h = clear_mappings-get_or id ms _ k h

pub length-clear_mappings :
    (id : ℕ) (ms : List PidMapping) (total : ℕ) → length (clear_mappings id ms total).0 ≡ length ms
unfolding clear_mappings
length-clear_mappings id [] total = refl
length-clear_mappings id (m ∷ ms) total = ap suc (length-clear_mappings id ms _)

pub clear_mappings-total :
    (id : ℕ) (ms : List PidMapping) (total : ℕ)
    → count (names id) ms ≤ total
    → total < 2 ^ 32
    → (clear_mappings id ms total).1 + count (names id) ms ≡ total
unfolding clear_mappings
clear_mappings-total id [] total h b = omega arith
clear_mappings-total id (m ∷ ms) total h b = elim (Bool-cases (m.tenant_id == id)) [
  | inl hit ↦ ground (arith, clear_mappings-total id ms (u32 (total + minus_one)))
  | inr miss ↦ ground (arith, clear_mappings-total id ms total)
]

pub clear_mappings-bound :
    (id : ℕ) (ms : List PidMapping) (total : ℕ)
    → id ≢ 0
    → IsClean ms
    → count is_bound (clear_mappings id ms total).0 + count (names id) ms ≡ count is_bound ms
unfolding clear_mappings
clear_mappings-bound id [] total h c = refl
clear_mappings-bound id (m ∷ ms) total h c = ground (
  arith,
  clear_mappings-bound id ms (if m.tenant_id == id then u32 (total + minus_one) else total) h
      (λ k. c (suc k)),
  c 0,
)

pub clear_mappings_unique :
    (id q : ℕ) (ms : List PidMapping) (total : ℕ)
    → q ≢ 0
    → count (has_pid q) (clear_mappings id ms total).0 ≤ count (has_pid q) ms
unfolding clear_mappings
clear_mappings_unique id q [] total h = omega arith
clear_mappings_unique id q (m ∷ ms) total h = ground (
  arith,
  clear_mappings_unique id q ms (if m.tenant_id == id then u32 (total + minus_one) else total) h,
)
