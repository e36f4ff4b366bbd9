-- ===== src/Locks/Exclusion.antt =====
-- What the spin locks give to the critical sections: one thread at a time, and none is lost.
use rdma_intercept_ldperload.Base.{
  ℕ, ◌+◌, ◌≤◌, ◌<◌, ◌≡◌, ◌≢◌, refl, sym, subst, true, false, List, [], ◌∷◌, ◌==◌, ==_iff,
  if◌then◌else◌, length, get_or, set, count, count-set, count-pos, get_or-set, get_or-set_ne,
  get_or-out, length-set, set-out, ltb, replicate, count-replicate, get_or-replicate, arith,
  Bool-cases, inl, inr,
}
use rdma_intercept_ldperload.Locks.{
  Attempt, trying_ne, waiting_ne, trying, waiting, acquired, LockFunction, unlock, Thread, outside,
  locking, loaded, stored, Machine, inside, thread, move, advance, step, run, serial,
}

locking-out {ℓ} : (D : Type ℓ) (a : Attempt) → a ≢ acquired → inside {D = D} (locking a) ≡ false
unfolding inside
locking-out D trying n = refl
locking-out D waiting n = refl
locking-out D acquired n = absurd (n refl)

module _ {ℓ} {D : Type ℓ} where
  -- The lock word counts the threads inside; what a thread has read is what is shared, and what is
  -- shared is what the sections that are done make of `d`.
  pub record IsExclusive (body : ℕ → D → D) (d : D) (m : Machine D) : Type ℓ where
    pub bit : m.word ≤ 1
    pub holders : count inside m.threads ≡ m.word
    pub fresh : (i : ℕ) (e : D) → thread m i ≡ loaded e → e ≡ m.shared
    pub sum : m.shared ≡ serial body m.done d

  pub inside-lt : (m : Machine D) (i : ℕ) → inside (thread m i) ≡ true → i < length m.threads
  unfolding inside
  inside-lt m i h = ground (arith, get_or-out m.threads i outside)

  -- Two threads inside count twice.
  count_inside-two :
      (ts : List (Thread D)) (i j : ℕ)
      → i < length ts
      → j < length ts
      → inside (get_or ts i outside) ≡ true
      → inside (get_or ts j outside) ≡ true
      → i ≢ j
      → 2 ≤ count inside ts
  unfolding inside
  count_inside-two ts i j hi hj ii ij n =
      let c = count-set inside ts i outside outside hi in
      let other = get_or-set_ne ts i j outside outside n in
      let long = length-set ts i outside in
      let p =
        count-pos inside (set ts i outside) j outside (ground (arith, long))
          (ground (arith, other)) in
      ground (arith, c, p)

  -- No two threads are inside together.
  pub IsExclusive-inside :
      (body : ℕ → D → D) (d : D) (m : Machine D) (i j : ℕ)
      → IsExclusive body d m
      → inside (thread m i) ≡ true
      → inside (thread m j) ≡ true
      → i ≡ j
  IsExclusive-inside body d m i j x hi hj = elim (Bool-cases (i == j)) [
    | inl e ↦ (==_iff i j).0 e
    | inr n ↦ absurd (
        ground (
          arith,
          x.bit,
          x.holders,
          count_inside-two m.threads i j (inside-lt m i hi) (inside-lt m j hj) hi hj
              (λ e. ground arith),
        ))
  ]

  module _ (lock : LockFunction) (body : ℕ → D → D) (d : D) (i : ℕ) (m : Machine D)
      (x : IsExclusive body d m) where
    -- A step of a thread that stands inside before or after it, or holds no data afterwards.
    move-IsExclusive :
        (t : Thread D) (word : ℕ)
        → i < length m.threads
        → word ≤ 1
        → word + (if inside (thread m i) then 1 else 0) ≡ m.word + (if inside t then 1 else 0)
        → ((e : D) → t ≡ loaded e → e ≡ m.shared)
        → IsExclusive body d (move i t (record m { word = word }))
    move-IsExclusive t word h bit holders fresh = record {
      bit = bit;
      holders = ground (arith, x.holders, count-set inside m.threads i t outside h);
      fresh = λ j e q. elim (Bool-cases (j == i)) [
        | inl same ↦ fresh e (ground (arith, get_or-set m.threads i j t outside h))
        | inr other ↦ x.fresh j e (ground (arith, get_or-set m.threads i j t outside h))
      ];
      sum = x.sum;
    }

    one : (m.word == 0) ≡ false → m.word ≡ 1
    one taken = ground (arith, x.bit)

    pub held : inside (thread m i) ≡ true → m.word ≡ 1
    held h =
        ground (arith, x.bit, x.holders, count-pos inside m.threads i outside (inside-lt m i h) h)

    attempt-lt : (a : Attempt) → thread m i ≡ locking a → i < length m.threads
    attempt-lt a at = ground (arith, get_or-out m.threads i outside)

    -- The atomic instruction of the lock function, and a look at the word after it failed.
    attempt-IsExclusive :
        (a : Attempt)
        → thread m i ≡ locking a
        → a ≢ acquired
        → let (a', word') = lock.acquire a m.word in
          IsExclusive body d (move i (locking a') (record m { word = word' }))
    unfolding inside
    attempt-IsExclusive trying at out = elim (Bool-cases (m.word == 0)) [
      | inl free ↦
          rw ((==_iff m.word 0).0 free, lock.opens)
            (move-IsExclusive (locking acquired) 1 (attempt-lt trying at) (omega arith)
              (ground (arith, (==_iff m.word 0).0 free)) (λ e q. cc))
      | inr taken ↦
          rw (one taken, lock.trying_shut)
            (move-IsExclusive (locking waiting) 1 (attempt-lt trying at) (omega arith)
              (ground (arith, one taken)) (λ e q. cc))
    ]
    attempt-IsExclusive waiting at out = elim (Bool-cases (m.word == 0)) [
      | inl free ↦
          rw ((==_iff m.word 0).0 free, lock.wakes)
            (move-IsExclusive (locking trying) 0 (attempt-lt waiting at) (omega arith)
              (ground (arith, (==_iff m.word 0).0 free)) (λ e q. cc))
      | inr taken ↦
          rw (one taken, lock.waiting_shut.1)
            (move-IsExclusive (locking (lock.acquire waiting 1).0) 1 (attempt-lt waiting at)
              (omega arith)
              (ground
                (arith, one taken, locking-out D (lock.acquire waiting 1).0 lock.waiting_shut.0))
              (λ e q. cc))
    ]
    attempt-IsExclusive acquired at out = absurd (out refl)

    advance-IsExclusive :
        (t : Thread D) → thread m i ≡ t → IsExclusive body d (advance lock body i t m)
    unfolding advance inside unlock serial
    advance-IsExclusive outside at = elim (Bool-cases (ltb i (length m.threads))) [
      | inl h ↦
          move-IsExclusive (locking trying) m.word (ground arith) x.bit (ground arith) (λ e q. cc)
      | inr h ↦
          subst (λ ts. IsExclusive body d (record m { threads = ts }))
            (sym (set-out m.threads i (locking trying) (ground arith))) x
    ]
    advance-IsExclusive (locking trying) at = attempt-IsExclusive trying at trying_ne
    advance-IsExclusive (locking waiting) at = attempt-IsExclusive waiting at waiting_ne
    advance-IsExclusive (locking acquired) at =
        move-IsExclusive (loaded m.shared) m.word (inside-lt m i (ground arith)) x.bit
          (ground arith) (λ e q. ground arith)
    advance-IsExclusive (loaded e) at = record {
      bit = x.bit;
      holders = ground (
        arith,
        x.holders,
        count-set inside m.threads i stored outside (inside-lt m i (ground arith)),
      );
      fresh = λ j f q. elim (Bool-cases (j == i)) [
        | inl same ↦
            absurd (
              ground
                (arith, get_or-set m.threads i j stored outside (inside-lt m i (ground arith))))
        | inr other ↦ absurd (
            ground (
              arith,
              get_or-set m.threads i j stored outside (inside-lt m i (ground arith)),
              IsExclusive-inside body d m i j x,
            ))
      ];
      sum = ground (arith, x.sum, x.fresh i e at);
    }
    advance-IsExclusive stored at =
        move-IsExclusive outside 0 (inside-lt m i (ground arith)) (omega arith)
          (ground (arith, held)) (λ e q. cc)

  pub run-IsExclusive :
      (lock : LockFunction) (body : ℕ → D → D) (d : D) (schedule : List ℕ) (m : Machine D)
      → IsExclusive body d m
      → IsExclusive body d (run lock body schedule m)
  unfolding run step
  run-IsExclusive lock body d [] m x = x
  run-IsExclusive lock body d (i ∷ schedule) m x =
      run-IsExclusive lock body d schedule (step lock body i m)
        (advance-IsExclusive lock body d i m x (thread m i) refl)

  -- `n` threads before their first step.
  abbrev pub start : ℕ → D → Machine D
  start n d = record { word = 0; shared = d; threads = replicate n outside; done = [] }

  pub start-IsExclusive : (body : ℕ → D → D) (n : ℕ) (d : D) → IsExclusive body d (start n d)
  unfolding serial inside
  start-IsExclusive body n d = record {
    bit = omega arith;
    holders = count-replicate inside n outside refl;
    fresh = λ i e q. absurd (ground (arith, get_or-replicate {A = Thread D} n i outside));
    sum = refl;
  }

  -- Under every schedule of any number of threads, with either lock function, two threads that are
  -- in their critical sections are one thread, and the lock word is 1 then.
  pub run-mutual_exclusion :
      (lock : LockFunction) (body : ℕ → D → D) (d : D) (n : ℕ) (schedule : List ℕ) (i j : ℕ)
      → inside (thread (run lock body schedule (start n d)) i) ≡ true
      → inside (thread (run lock body schedule (start n d)) j) ≡ true
      → (i ≡ j) × ((run lock body schedule (start n d)).word ≡ 1)
  run-mutual_exclusion lock body d n schedule i j hi hj =
      let m = run lock body schedule (start n d) in
      let x = run-IsExclusive lock body d schedule (start n d) (start-IsExclusive body n d) in
      (IsExclusive-inside body d m i j x hi hj, held lock body d i m x hi)

  -- Under every schedule the shared data are what the critical sections that are done make of the
  -- first data one after the other, although each reads and writes in separate steps: none is lost.
  pub run-serial :
      (lock : LockFunction) (body : ℕ → D → D) (d : D) (n : ℕ) (schedule : List ℕ)
      → let m = run lock body schedule (start n d) in m.shared ≡ serial body m.done d
  run-serial lock body d n schedule =
      (run-IsExclusive lock body d schedule (start n d) (start-IsExclusive body n d)).sum
