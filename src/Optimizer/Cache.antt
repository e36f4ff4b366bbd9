-- ===== src/Optimizer/Cache.antt =====
-- src/performance_optimizer.c: the cache of usage records, one entry to a bucket.
use rdma_intercept_ldperload.Base.{
  ℕ, ◌+◌, ◌-◌, ◌^◌, true, false, not, ◌||◌, map, Option, none, some, u64, ◌==◌, ltb, if◌then◌else◌,
  get_or, set,
}
use rdma_intercept_ldperload.Shm.{ResourceUsage, shm_get_process_resources}
use rdma_intercept_ldperload.Optimizer.{CacheEntry, Optimizer, empty_entry, hash_pid}

abbrev pub entry_at : Optimizer → ℕ → CacheEntry
entry_at o i = get_or o.cache.entries i empty_entry

abbrev pub set_entry : ℕ → CacheEntry → Optimizer → Optimizer
set_entry i c o = record o { cache = record (o.cache) { entries = set o.cache.entries i c } }

abbrev pub count_miss : Optimizer → Optimizer
count_miss o = record o {
  cache = record (o.cache) { miss_count = u64 (o.cache.miss_count + 1) };
  stats = record (o.stats) { cache_misses = u64 (o.stats.cache_misses + 1) };
}

abbrev pub count_hit : Optimizer → Optimizer
count_hit o = record o {
  cache = record (o.cache) { hit_count = u64 (o.cache.hit_count + 1) };
  stats = record (o.stats) { cache_hits = u64 (o.stats.cache_hits + 1) };
}

-- `current_time - entry->last_update`, as uint64_t.
abbrev pub age : ℕ → CacheEntry → ℕ
age now_ms c = u64 (now_ms + 2 ^ 64 - c.last_update)

-- `none` is a miss. The second test, under the entry's lock, sees what the first one saw.
unfoldable pub get_cached_resources : ℕ → ℕ → Optimizer → Option ResourceUsage × Optimizer
get_cached_resources now_ms pid o =
    let c = entry_at o (hash_pid pid) in
    if not o.cache_enabled
    then (none, o)
    else if not c.valid || not (c.pid == pid)
    then (none, count_miss o)
    else if ltb o.cache.ttl_ms (age now_ms c)
    then (none, count_miss (set_entry (hash_pid pid) (record c { valid = false }) o))
    else (some c.usage, count_hit o)

unfoldable pub update_cached_resources : ℕ → ℕ → Option ResourceUsage → Optimizer → Optimizer
update_cached_resources now_ms pid none o = o
update_cached_resources now_ms pid (some usage) o =
    if not o.cache_enabled
    then o
    else set_entry (hash_pid pid)
        (record { pid = pid; usage = usage; last_update = now_ms; valid = true }) o

unfoldable pub invalidate_cache : ℕ → Optimizer → Optimizer
invalidate_cache pid o =
    let c = entry_at o (hash_pid pid) in
    set_entry (hash_pid pid) (if c.pid == pid then record c { valid = false } else c) o

unfoldable pub clear_cache : Optimizer → Optimizer
clear_cache o = record o {
  cache = record (o.cache) {
    entries =
        map {A = CacheEntry} {B = CacheEntry} (λ c. record c { valid = false }) o.cache.entries;
    hit_count = 0;
    miss_count = 0;
  };
}

unfoldable pub prefetch_resources : ℕ → ℕ → Optimizer → Optimizer
unfolding update_cached_resources
prefetch_resources now_ms pid o = elim (shm_get_process_resources pid o.shm) [
  | none ↦ o
  | some usage ↦ update_cached_resources now_ms pid (some usage) o
]
