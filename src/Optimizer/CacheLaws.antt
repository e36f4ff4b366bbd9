-- ===== src/Optimizer/CacheLaws.antt =====
-- src/performance_optimizer.c: what a reader of the usage cache sees after each call on it.
use rdma_intercept_ldperload.Base.{
  ℕ, zero, suc, map, List, [], ◌∷◌, ◌<◌, ◌≡◌, refl, inl, inr, true, false, none, some, arith, ◌==◌,
  ==_refl, ltb, length, u64, if◌then◌else◌, get_or, get_or-set_self, get_or-set_ne, Bool-cases, ◌-◌,
  ◌+◌, ◌^◌,
}
use rdma_intercept_ldperload.Shm.{ResourceUsage}
use rdma_intercept_ldperload.Optimizer.{
  CacheEntry, Optimizer, cache_bucket_count, empty_entry, hash_pid,
}
use rdma_intercept_ldperload.Optimizer.Cache.{
  get_cached_resources, update_cached_resources, invalidate_cache, clear_cache, entry_at,
}

pub hash_pid-bound : (pid : ℕ) → hash_pid pid < cache_bucket_count
unfolding hash_pid
hash_pid-bound pid = omega arith

-- With the cache on, the pid whose usage was stored last reads it back until it is older than the
-- time to live; a pid of the same bucket misses, and a pid of another bucket reads what it did.
pub update-get_cached_resources :
    (now later pid q : ℕ) (u : ResourceUsage) (o : Optimizer)
    → o.cache_enabled ≡ true
    → length o.cache.entries ≡ cache_bucket_count
    → (get_cached_resources later q (update_cached_resources now pid (some u) o)).0 ≡ (
        if hash_pid q == hash_pid pid
        then if q == pid
          then if ltb o.cache.ttl_ms (u64 (later + 2 ^ 64 - now)) then none else some u
          else none
        else (get_cached_resources later q o).0)
unfolding get_cached_resources update_cached_resources
update-get_cached_resources now later pid q u o on whole =
    elim (Bool-cases (hash_pid q == hash_pid pid)) [
      | inl same ↦ ground (
        arith,
        hash_pid-bound pid,
        get_or-set_self o.cache.entries (hash_pid pid)
            (record { pid = pid; usage = u; last_update = now; valid = true }) empty_entry,
      )
      | inr other ↦ ground (
        arith,
        get_or-set_ne o.cache.entries (hash_pid pid) (hash_pid q)
            (record { pid = pid; usage = u; last_update = now; valid = true }) empty_entry,
      )
    ]

-- After `invalidate_cache` the pid misses, and every other pid reads what it did.
pub invalidate-get_cached_resources :
    (now pid q : ℕ) (o : Optimizer)
    → length o.cache.entries ≡ cache_bucket_count
    → (get_cached_resources now q (invalidate_cache pid o)).0
      ≡ (if q == pid then none else (get_cached_resources now q o).0)
unfolding get_cached_resources invalidate_cache
invalidate-get_cached_resources now pid q o whole = elim (Bool-cases (hash_pid q == hash_pid pid)) [
  | inl same ↦ ground (
    arith,
    hash_pid-bound pid,
    ==_refl (hash_pid pid),
    get_or-set_self o.cache.entries (hash_pid pid)
        (if (entry_at o (hash_pid pid)).pid == pid
          then record (entry_at o (hash_pid pid)) { valid = false }
          else entry_at o (hash_pid pid))
        empty_entry,
  )
  | inr other ↦ ground (
    arith,
    ==_refl (hash_pid pid),
    get_or-set_ne o.cache.entries (hash_pid pid) (hash_pid q)
        (if (entry_at o (hash_pid pid)).pid == pid
          then record (entry_at o (hash_pid pid)) { valid = false }
          else entry_at o (hash_pid pid))
        empty_entry,
  )
]

get_or-map_invalid :
    (cs : List CacheEntry) (i : ℕ)
    → (get_or
        (map {A = CacheEntry} {B = CacheEntry} (λ c. record c { valid = false }) cs)
        i
        empty_entry).valid
      ≡ false
get_or-map_invalid [] i = refl
get_or-map_invalid (c ∷ cs) zero = refl
get_or-map_invalid (c ∷ cs) (suc i) = get_or-map_invalid cs i

-- After `clear_cache` every pid misses.
pub clear-get_cached_resources :
    (now q : ℕ) (o : Optimizer) → (get_cached_resources now q (clear_cache o)).0 ≡ none
unfolding get_cached_resources clear_cache
clear-get_cached_resources now q o = ground (arith, get_or-map_invalid o.cache.entries (hash_pid q))
