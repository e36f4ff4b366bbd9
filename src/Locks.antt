-- ===== src/Locks.antt =====
-- The spin locks of src/shm/shared_memory.c and src/shm/shared_memory_tenant.c, and the threads that
-- take one. A schedule is a list of thread numbers: the thread named takes its next step.
-- A critical section is three steps: it reads the shared data, writes what it makes of them, and
-- stores 0 into the lock word.
pub mod Exclusion
pub mod Progress
use rdma_intercept_ldperload.Base.{
  ℕ, suc, ◌≡◌, ◌≢◌, refl, Bool, true, false, List, [], ◌∷◌, ◌==◌, if◌then◌else◌, get_or, set, arith,
}

-- Where a call of a lock function stands: before its atomic instruction, after one that failed, or
-- returned.
pub data Attempt : Type 0 where
  trying waiting acquired : Attempt

-- `spin_lock`: `__sync_lock_test_and_set` stores 1 and returns the old word; the inner loop leaves
-- when it reads 0.
unfoldable pub spin_lock : Attempt → ℕ → Attempt × ℕ
spin_lock trying word = (if word == 0 then acquired else waiting, 1)
spin_lock waiting word = (if word == 0 then trying else waiting, word)
spin_lock acquired word = (acquired, word)

-- `shm_lock`: the compare and exchange from 0 to 1; after a failure `expected` is reset.
unfoldable pub shm_lock : Attempt → ℕ → Attempt × ℕ
shm_lock trying word = if word == 0 then (acquired, 1) else (waiting, word)
shm_lock waiting word = (trying, word)
shm_lock acquired word = (acquired, word)

-- `spin_unlock` and `shm_unlock`, on the lock word.
unfoldable pub unlock : ℕ → ℕ
unlock word = 0

-- What the threads rely on of a lock function.
pub record LockFunction : Type 0 where
  pub acquire : Attempt → ℕ → Attempt × ℕ
  pub opens : acquire trying 0 ≡ (acquired, 1)
  pub wakes : acquire waiting 0 ≡ (trying, 0)
  pub trying_shut : acquire trying 1 ≡ (waiting, 1)
  pub waiting_shut : ((acquire waiting 1).0 ≢ acquired) × ((acquire waiting 1).1 ≡ 1)

pub waiting_ne : waiting ≢ acquired
waiting_ne e = cc

pub trying_ne : trying ≢ acquired
trying_ne e = cc

abbrev pub tenant_lock : LockFunction
unfolding spin_lock
tenant_lock = record {
  acquire = spin_lock;
  opens = refl;
  wakes = refl;
  trying_shut = refl;
  waiting_shut = (waiting_ne, refl);
}

abbrev pub usage_lock : LockFunction
unfolding shm_lock
usage_lock = record {
  acquire = shm_lock;
  opens = refl;
  wakes = refl;
  trying_shut = refl;
  waiting_shut = (trying_ne, refl);
}

-- A thread is outside, in the lock function, has read the shared data, or has written them.
pub data Thread {ℓ} (D : Type ℓ) : Type ℓ where
  outside : Thread D
  locking : Attempt → Thread D
  loaded : D → Thread D
  stored : Thread D

pub record Machine {ℓ} (D : Type ℓ) : Type ℓ where
  pub word : ℕ
  pub shared : D
  pub threads : List (Thread D)
  -- The threads whose sections are done, the last one first.
  pub done : List ℕ

module _ {ℓ} {D : Type ℓ} where
  -- Between the return of the lock function and the unlock.
  unfoldable pub inside : Thread D → Bool
  inside outside = false
  inside (locking acquired) = true
  inside (locking _) = false
  inside (loaded d) = true
  inside stored = true

  abbrev pub thread : Machine D → ℕ → Thread D
  thread m i = get_or m.threads i outside

  abbrev pub move : ℕ → Thread D → Machine D → Machine D
  move i t m = record m { threads = set m.threads i t }

  -- The next step of thread `i`, whose critical section is `body i`.
  unfoldable pub advance : LockFunction → (ℕ → D → D) → ℕ → Thread D → Machine D → Machine D
  unfolding unlock
  advance lock body i outside m = move i (locking trying) m
  advance lock body i (locking acquired) m = move i (loaded m.shared) m
  advance lock body i (locking attempt) m =
      let (attempt', word') = lock.acquire attempt m.word in
      move i (locking attempt') (record m { word = word' })
  advance lock body i (loaded d) m =
      move i stored (record m { shared = body i d; done = i ∷ m.done })
  advance lock body i stored m = move i outside (record m { word = unlock m.word })

  unfoldable pub step : LockFunction → (ℕ → D → D) → ℕ → Machine D → Machine D
  step lock body i m = advance lock body i (thread m i) m

  unfoldable pub run : LockFunction → (ℕ → D → D) → List ℕ → Machine D → Machine D
  run lock body [] m = m
  run lock body (i ∷ schedule) m = run lock body schedule (step lock body i m)

  -- The sections one after the other, the last one first.
  unfoldable pub serial : (ℕ → D → D) → List ℕ → D → D
  serial body [] d = d
  serial body (i ∷ earlier) d = body i (serial body earlier d)
