-- ===== src/Locks/Progress.antt =====
-- When the spin locks let a thread in, and when they never do.
use rdma_intercept_ldperload.Base.{
  ℕ, length-replicate, count-replicate, ◌≤◌, ◌<◌, ◌≡◌, ◌≢◌, ◌⊎◌, refl, ◌∙◌, true, false, List, [],
  ◌∷◌, ◌++◌, ◌==◌, length, count, find_index?, find_index?-get_or, find_index?-count,
  get_or-set_self, get_or-set_ne, length-set, replicate, arith, Bool-cases, Option-cases, inl, inr,
}
use rdma_intercept_ldperload.Locks.{
  trying, waiting, acquired, LockFunction, unlock, Thread, outside, locking, loaded, stored,
  Machine, inside, thread, advance, step, run,
}
use rdma_intercept_ldperload.Locks.Exclusion.{
  start, start-IsExclusive, held, IsExclusive, IsExclusive-inside, run-IsExclusive, inside-lt,
}

module _ {ℓ} {D : Type ℓ} (lock : LockFunction) (body : ℕ → D → D) where
  thread-advance :
      (i j : ℕ) (t : Thread D) (m : Machine D)
      → i ≢ j
      → thread (advance lock body i t m) j ≡ thread m j
  unfolding advance
  thread-advance i j outside m n = get_or-set_ne m.threads i j (locking trying) outside n
  thread-advance i j (locking trying) m n = get_or-set_ne m.threads i j _ outside n
  thread-advance i j (locking waiting) m n = get_or-set_ne m.threads i j _ outside n
  thread-advance i j (locking acquired) m n = get_or-set_ne m.threads i j _ outside n
  thread-advance i j (loaded e) m n = get_or-set_ne m.threads i j stored outside n
  thread-advance i j stored m n = get_or-set_ne m.threads i j outside outside n

  length-advance :
      (i : ℕ) (t : Thread D) (m : Machine D)
      → length (advance lock body i t m).threads ≡ length m.threads
  unfolding advance
  length-advance i outside m = length-set m.threads i (locking trying)
  length-advance i (locking trying) m = length-set m.threads i _
  length-advance i (locking waiting) m = length-set m.threads i _
  length-advance i (locking acquired) m = length-set m.threads i _
  length-advance i (loaded e) m = length-set m.threads i stored
  length-advance i stored m = length-set m.threads i outside

  -- The others stay where they are under any schedule without them.
  thread-run :
      (schedule : List ℕ) (j : ℕ) (m : Machine D)
      → count (λ k. k == j) schedule ≡ 0
      → thread (run lock body schedule m) j ≡ thread m j
  unfolding run step
  thread-run [] j m h = refl
  thread-run (i ∷ schedule) j m h =
      thread-run schedule j (step lock body i m) (ground arith)
      ∙ thread-advance i j (thread m i) m (λ e. ground arith)

  length-run :
      (schedule : List ℕ) (m : Machine D)
      → length (run lock body schedule m).threads ≡ length m.threads
  unfolding run step
  length-run [] m = refl
  length-run (i ∷ schedule) m =
      length-run schedule (step lock body i m) ∙ length-advance i (thread m i) m

  run-append :
      (first later : List ℕ) (m : Machine D)
      → run lock body (first ++ later) m ≡ run lock body later (run lock body first m)
  unfolding run
  run-append [] later m = refl
  run-append (i ∷ first) later m = run-append first later (step lock body i m)

  module _ (i : ℕ) (m : Machine D) (h : i < length m.threads) where
    -- The state of thread `i` and the lock word after its step.
    step-outside :
        thread m i ≡ outside
        → (thread (step lock body i m) i ≡ locking trying) × ((step lock body i m).word ≡ m.word)
    unfolding step advance
    step-outside at = rw at (get_or-set_self m.threads i _ outside h, refl)

    step-waiting :
        m.word ≡ 0
        → thread m i ≡ locking waiting
        → (thread (step lock body i m) i ≡ locking trying) × ((step lock body i m).word ≡ 0)
    unfolding step advance
    step-waiting free at = rw (at, free, lock.wakes) (get_or-set_self m.threads i _ outside h, refl)

    step-trying :
        m.word ≡ 0 → thread m i ≡ locking trying → thread (step lock body i m) i ≡ locking acquired
    unfolding step advance
    step-trying free at = rw (at, free, lock.opens) (get_or-set_self m.threads i _ outside h)

    step-acquired : thread m i ≡ locking acquired → thread (step lock body i m) i ≡ loaded m.shared
    unfolding step advance
    step-acquired at = rw at (get_or-set_self m.threads i _ outside h)

    step-loaded : (e : D) → thread m i ≡ loaded e → thread (step lock body i m) i ≡ stored
    unfolding step advance
    step-loaded e at = rw at (get_or-set_self m.threads i _ outside h)

    step-stored : thread m i ≡ stored → (step lock body i m).word ≡ 0
    unfolding step advance unlock
    step-stored at = rw at refl

    length-step : i < length (step lock body i m).threads
    unfolding step
    length-step = ground (arith, length-advance i (thread m i) m)

  -- Two steps take a thread in while the word is 0.
  enter :
      (i : ℕ) (m : Machine D) (t : Thread D)
      → thread m i ≡ t
      → inside t ≡ false
      → i < length m.threads
      → m.word ≡ 0
      → inside (thread (run lock body (i ∷ i ∷ []) m) i) ≡ true
  unfolding run inside
  enter i m outside at out h free =
      let (at', free') = step-outside i m h at in
      rw (step-trying i (step lock body i m) (length-step i m h) (free' ∙ free) at') refl
  enter i m (locking trying) at out h free =
      let at' = step-trying i m h free at in
      rw (step-acquired i (step lock body i m) (length-step i m h) at') refl
  enter i m (locking waiting) at out h free =
      let (at', free') = step-waiting i m h free at in
      rw (step-trying i (step lock body i m) (length-step i m h) free' at') refl
  enter i m (locking acquired) at out h free = cc
  enter i m (loaded e) at out h free = cc
  enter i m stored at out h free = cc

  -- At most three steps of the thread inside free the word.
  leave :
      (j : ℕ) (m : Machine D) (t : Thread D)
      → thread m j ≡ t
      → inside t ≡ true
      → j < length m.threads
      → (k : ℕ) × (k ≤ 3) × ((run lock body (replicate k j) m).word ≡ 0)
  unfolding run inside
  leave j m outside at in_it h = cc
  leave j m (locking trying) at in_it h = cc
  leave j m (locking waiting) at in_it h = cc
  leave j m stored at in_it h = (1, omega arith, step-stored j m h at)
  leave j m (loaded e) at in_it h = (
    2,
    omega arith,
    step-stored j (step lock body j m) (length-step j m h) (step-loaded j m h e at),
  )
  leave j m (locking acquired) at in_it h = (
    3,
    omega arith,
    step-stored j (step lock body j (step lock body j m))
        (length-step j (step lock body j m) (length-step j m h))
        (step-loaded j (step lock body j m) (length-step j m h) m.shared (step-acquired j m h at)),
  )

  replicate-other : (k i j : ℕ) → i ≢ j → count (λ l. l == i) (replicate k j) ≡ 0
  replicate-other k i j n = count-replicate (λ l. l == i) k j (ground arith)

  enter_after :
      (i : ℕ) (m : Machine D) (first : List ℕ)
      → i < length m.threads
      → inside (thread (run lock body first m) i) ≡ false
      → (run lock body first m).word ≡ 0
      → inside (thread (run lock body (first ++ (i ∷ i ∷ [])) m) i) ≡ true
  enter_after i m first h out free = rw (run-append first (i ∷ i ∷ []) m) (
      enter i (run lock body first m) (thread (run lock body first m) i) refl out
        (ground (arith, length-run first m)) free)

  -- How a thread that is not inside gets in: at most three steps of one thread, which is inside if
  -- there are any, and then two of its own.
  pub record Entry (i : ℕ) (m : Machine D) : Type ℓ where
    pub holder : ℕ
    pub waits : ℕ
    pub few : waits ≤ 3
    pub held : (waits ≡ 0) ⊎ (inside (thread m holder) ≡ true)
    pub entered :
        inside (thread (run lock body (replicate waits holder ++ (i ∷ i ∷ [])) m) i) ≡ true

  -- From a held word: the holder leaves, then the thread enters.
  enter_held :
      (i j : ℕ) (m : Machine D)
      → i < length m.threads
      → inside (thread m i) ≡ false
      → inside (thread m j) ≡ true
      → Entry i m
  enter_held i j m h out in_it =
      let (k, few, free) = leave j m (thread m j) refl in_it (inside-lt m j in_it) in
      let other : i ≢ j = λ e. ground arith in
      let same = thread-run (replicate k j) i m (replicate-other k i j other) in
      record {
        holder = j;
        waits = k;
        few = few;
        held = inr in_it;
        entered = enter_after i m (replicate k j) h (ground (arith, same)) free;
      }

  progress :
      (d : D) (i : ℕ) (m : Machine D)
      → IsExclusive body d m
      → i < length m.threads
      → inside (thread m i) ≡ false
      → Entry i m
  unfolding run
  progress d i m x h out = elim (Bool-cases (m.word == 0)) [
    | inl free ↦ record {
      holder = i;
      waits = 0;
      few = omega arith;
      held = inl refl;
      entered = enter i m (thread m i) refl out h (ground arith);
    }
    | inr taken ↦ elim (Option-cases (find_index? inside m.threads)) [
      | inl nobody ↦ absurd (ground (arith, x.holders, find_index?-count inside m.threads nobody))
      | inr (j, found) ↦
          enter_held i j m h out (find_index?-get_or inside m.threads j outside found)
    ]
  ]

  -- Wherever a schedule has left the threads, each of them that is not in its critical section can
  -- still enter it: if the lock is held, at most three steps of the thread inside, and then two steps
  -- of its own, take it in.
  pub run-progress :
      (d : D) (n : ℕ) (earlier : List ℕ) (i : ℕ)
      → i < n
      → inside (thread (run lock body earlier (start n d)) i) ≡ false
      → Entry i (run lock body earlier (start n d))
  run-progress d n earlier i h out =
      progress d i (run lock body earlier (start n d))
        (run-IsExclusive lock body d earlier (start n d) (start-IsExclusive body n d))
        (ground (arith, length-run earlier (start n d), length-replicate {A = Thread D} n outside))
        out

  -- While the thread inside takes no step, as when its process was killed there, the lock word stays
  -- 1 and no other thread ever enters, however the others are scheduled.
  pub run-abandoned :
      (d : D) (n : ℕ) (earlier later : List ℕ) (i j : ℕ)
      → inside (thread (run lock body earlier (start n d)) j) ≡ true
      → count (λ k. k == j) later ≡ 0
      → i ≢ j
      → let m = run lock body later (run lock body earlier (start n d)) in
        (inside (thread m i) ≡ false) × (m.word ≡ 1)
  run-abandoned d n earlier later i j in_it without other =
      let m = run lock body earlier (start n d) in
      let x = run-IsExclusive lock body d earlier (start n d) (start-IsExclusive body n d) in
      let y = run-IsExclusive lock body d later m x in
      let still : inside (thread (run lock body later m) j) ≡ true =
        ground (arith, thread-run later j m without) in
      (
        elim (Bool-cases (inside (thread (run lock body later m) i))) [
          | inl entered ↦
              absurd (other (IsExclusive-inside body d (run lock body later m) i j y entered still))
          | inr out ↦ out
        ],
        held lock body d j (run lock body later m) y still,
      )
