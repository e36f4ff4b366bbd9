-- ===== src/Tests/Locks.antt =====
-- The spin locks with three threads that each add their number to a shared one.
use rdma_intercept_ldperload.Base.{ℕ, ◌+◌, ◌≡◌, refl, false, List, [], ◌∷◌, arith}
use rdma_intercept_ldperload.Locks.{
  tenant_lock, usage_lock, spin_lock, shm_lock, unlock, inside, thread, advance, step, run, serial,
}
use rdma_intercept_ldperload.Locks.Exclusion.{start, run-mutual_exclusion, run-serial}
use rdma_intercept_ldperload.Locks.Progress.{Entry, run-progress, run-abandoned}

abbrev add : ℕ → ℕ → ℕ
add i shared = shared + i

-- Thread 0 takes the lock, thread 1 fails, thread 0 goes through, thread 2 passes thread 1.
abbrev schedule : List ℕ
schedule = 0 ∷ 1 ∷ 0 ∷ 1 ∷ 2 ∷ 0 ∷ 0 ∷ 0 ∷ 2 ∷ 2 ∷ 2 ∷ 1 ∷ []

abbrev early : List ℕ
early = 0 ∷ 1 ∷ 0 ∷ 1 ∷ []

run-mutual_exclusion_example :
    (◌≡◌ {A = ℕ} 0 0) × ((run tenant_lock add early (start 3 10)).word ≡ 1)
unfolding run step advance inside spin_lock unlock
run-mutual_exclusion_example = run-mutual_exclusion tenant_lock add 10 3 early 0 0 refl refl

run-serial_example :
    (run tenant_lock add schedule (start 3 10)).shared
    ≡ serial add (run tenant_lock add schedule (start 3 10)).done 10
run-serial_example = run-serial tenant_lock add 10 3 schedule

-- Two of the sections are done by the end of the schedule.
serial_done : serial add (run usage_lock add schedule (start 3 10)).done 10 ≡ 12
unfolding run step advance serial shm_lock unlock
serial_done = refl

run-progress_example : Entry usage_lock add 1 (run usage_lock add early (start 3 10))
unfolding run step advance inside shm_lock unlock
run-progress_example = run-progress usage_lock add 10 3 early 1 (omega arith) refl

run-abandoned_example :
    (inside
        (thread (run tenant_lock add (1 ∷ 2 ∷ 1 ∷ []) (run tenant_lock add early (start 3 10))) 2)
      ≡ false)
    × ((run tenant_lock add (1 ∷ 2 ∷ 1 ∷ []) (run tenant_lock add early (start 3 10))).word ≡ 1)
unfolding run step advance inside spin_lock unlock
run-abandoned_example =
    run-abandoned tenant_lock add 10 3 early (1 ∷ 2 ∷ 1 ∷ []) 2 0 refl refl (λ e. ground arith)
