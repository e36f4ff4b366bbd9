-- ===== src/Base/Lists.antt =====
-- C arrays as lists with native indices, and the search loops over them.
use Prim.Native.Nat.{ℕ, zero, suc, ◌+◌, ◌<◌, ◌≤◌}
use mathlib.Core.Path.{◌≡◌, refl, ap}
use mathlib.Core.Logic.{◌≢◌, inl, inr}
use mathlib.Core.Bool.{Bool, true, false}
use mathlib.Core.List.{List, [], ◌∷◌}
use mathlib.Core.Option.{Option, none, some}
use mathlib.Core.Option
use native.Mathlib.Omega.{arith}
use rdma_intercept_ldperload.Base.Tests.{Bool-cases, ==_iff, ==_refl, ◌==◌, if◌then◌else◌}

module _ {ℓ} {A : Type ℓ} where
  abbrev pub length : List A → ℕ
  length [] = 0
  length (x ∷ xs) = suc (length xs)

  abbrev pub get_elem? : List A → ℕ → Option A
  get_elem? [] i = none
  get_elem? (x ∷ xs) zero = some x
  get_elem? (x ∷ xs) (suc i) = get_elem? xs i

  abbrev pub get_or : List A → ℕ → A → A
  get_or [] i d = d
  get_or (x ∷ xs) zero d = x
  get_or (x ∷ xs) (suc i) d = get_or xs i d

  -- A write out of bounds changes nothing.
  abbrev pub set : List A → ℕ → A → List A
  set [] i v = []
  set (x ∷ xs) zero v = v ∷ xs
  set (x ∷ xs) (suc i) v = x ∷ set xs i v

  abbrev pub replicate : ℕ → A → List A
  replicate zero a = []
  replicate (suc n) a = a ∷ replicate n a

  abbrev pub take : ℕ → List A → List A
  take zero xs = []
  take (suc n) [] = []
  take (suc n) (x ∷ xs) = x ∷ take n xs

  -- `for (i = 0; i < n; i++) if (p(xs[i])) return i;`
  abbrev pub find_index? : (A → Bool) → List A → Option ℕ
  find_index? p [] = none
  find_index? p (x ∷ xs) = if p x then some 0 else Option.map suc (find_index? p xs)

  abbrev pub count : (A → Bool) → List A → ℕ
  count p [] = 0
  count p (x ∷ xs) = (if p x then 1 else 0) + count p xs

module _ {ℓ} {A : Type ℓ} where
  pub length-set : (xs : List A) (i : ℕ) (v : A) → length (set xs i v) ≡ length xs
  length-set [] i v = refl
  length-set (x ∷ xs) zero v = refl
  length-set (x ∷ xs) (suc i) v = ap suc (length-set xs i v)

  pub length-replicate : (n : ℕ) (a : A) → length (replicate n a) ≡ n
  length-replicate zero a = refl
  length-replicate (suc n) a = ap suc (length-replicate n a)

  pub get_or-set_self :
      (xs : List A) (i : ℕ) (v d : A) → i < length xs → get_or (set xs i v) i d ≡ v
  get_or-set_self [] i v d h = absurd (omega arith)
  get_or-set_self (x ∷ xs) zero v d h = refl
  get_or-set_self (x ∷ xs) (suc i) v d h = get_or-set_self xs i v d (omega arith)

  pub get_or-set_ne :
      (xs : List A) (i j : ℕ) (v d : A) → i ≢ j → get_or (set xs i v) j d ≡ get_or xs j d
  get_or-set_ne [] i j v d h = refl
  get_or-set_ne (x ∷ xs) zero zero v d h = absurd (h refl)
  get_or-set_ne (x ∷ xs) zero (suc j) v d h = refl
  get_or-set_ne (x ∷ xs) (suc i) zero v d h = refl
  get_or-set_ne (x ∷ xs) (suc i) (suc j) v d h = get_or-set_ne xs i j v d (λ e. h (ap suc e))

  pub get_or-set :
      (xs : List A) (i j : ℕ) (v d : A)
      → i < length xs
      → get_or (set xs i v) j d ≡ (if j == i then v else get_or xs j d)
  get_or-set xs i j v d h = elim (Bool-cases (j == i)) [
    | inl e ↦ rw (e, (==_iff j i).0 e) (get_or-set_self xs i v d h)
    | inr n ↦ rw n (get_or-set_ne xs i j v d (λ e. cc (==_refl j, e)))
  ]

  pub get_or-out : (xs : List A) (i : ℕ) (d : A) → length xs ≤ i → get_or xs i d ≡ d
  get_or-out [] i d h = refl
  get_or-out (x ∷ xs) zero d h = absurd (omega arith)
  get_or-out (x ∷ xs) (suc i) d h = get_or-out xs i d (omega arith)

  pub set-out : (xs : List A) (i : ℕ) (v : A) → length xs ≤ i → set xs i v ≡ xs
  set-out [] i v h = refl
  set-out (x ∷ xs) zero v h = absurd (omega arith)
  set-out (x ∷ xs) (suc i) v h = ap (λ ys. x ∷ ys) (set-out xs i v (omega arith))

  pub count-le-length : (p : A → Bool) (xs : List A) → count p xs ≤ length xs
  count-le-length p [] = omega arith
  count-le-length p (x ∷ xs) = ground (arith, count-le-length p xs)

  pub set-get_or : (xs : List A) (i : ℕ) (d : A) → set xs i (get_or xs i d) ≡ xs
  set-get_or [] i d = refl
  set-get_or (x ∷ xs) zero d = refl
  set-get_or (x ∷ xs) (suc i) d = ap (λ ys. x ∷ ys) (set-get_or xs i d)

  pub get_or-replicate : (n i : ℕ) (a : A) → get_or (replicate n a) i a ≡ a
  get_or-replicate zero i a = refl
  get_or-replicate (suc n) zero a = refl
  get_or-replicate (suc n) (suc i) a = get_or-replicate n i a

  pub count-replicate : (p : A → Bool) (n : ℕ) (a : A) → p a ≡ false → count p (replicate n a) ≡ 0
  count-replicate p zero a h = refl
  count-replicate p (suc n) a h = ground (arith, count-replicate p n a h)

  -- One write moves the count by what it takes out and what it puts in.
  pub count-set :
      (p : A → Bool) (xs : List A) (i : ℕ) (v d : A)
      → i < length xs
      → count p (set xs i v) + (if p (get_or xs i d) then 1 else 0)
        ≡ count p xs + (if p v then 1 else 0)
  count-set p [] i v d h = absurd (omega arith)
  count-set p (x ∷ xs) zero v d h = omega arith
  count-set p (x ∷ xs) (suc i) v d h = omega (arith, count-set p xs i v d (omega arith))

  pub count-pos :
      (p : A → Bool) (xs : List A) (i : ℕ) (d : A)
      → i < length xs
      → p (get_or xs i d) ≡ true
      → 0 < count p xs
  count-pos p [] i d h e = absurd (omega arith)
  count-pos p (x ∷ xs) zero d h e = ground arith
  count-pos p (x ∷ xs) (suc i) d h e = omega (arith, count-pos p xs i d (omega arith) e)

  pub find_index?-lt :
      (p : A → Bool) (xs : List A) (k : ℕ) → find_index? p xs ≡ some k → k < length xs
  find_index?-lt p [] k h = cc
  find_index?-lt p (x ∷ xs) zero h = omega arith
  find_index?-lt p (x ∷ xs) (suc k) h = ground (arith, find_index?-lt p xs k)

  -- The index found holds an element that passes the test.
  pub find_index?-get_or :
      (p : A → Bool) (xs : List A) (k : ℕ) (d : A)
      → find_index? p xs ≡ some k
      → p (get_or xs k d) ≡ true
  find_index?-get_or p [] k d h = cc
  find_index?-get_or p (x ∷ xs) zero d h = ground arith
  find_index?-get_or p (x ∷ xs) (suc k) d h = ground (arith, find_index?-get_or p xs k d)

  -- Where the search fails, no element passes.
  pub find_index?-none :
      (p : A → Bool) (xs : List A) (k : ℕ) (d : A)
      → find_index? p xs ≡ none
      → k < length xs
      → p (get_or xs k d) ≡ false
  find_index?-none p [] k d h l = absurd (omega arith)
  find_index?-none p (x ∷ xs) zero d h l = ground arith
  find_index?-none p (x ∷ xs) (suc k) d h l = ground (arith, find_index?-none p xs k d)

  pub find_index?-count : (p : A → Bool) (xs : List A) → find_index? p xs ≡ none → count p xs ≡ 0
  find_index?-count p [] h = refl
  find_index?-count p (x ∷ xs) h = ground (arith, find_index?-count p xs)

  pub count-find_index? : (p : A → Bool) (xs : List A) → count p xs ≡ 0 → find_index? p xs ≡ none
  count-find_index? p [] h = refl
  count-find_index? p (x ∷ xs) h = ground (arith, count-find_index? p xs)

  pub find_index?-set_found :
      (p : A → Bool) (xs : List A) (k : ℕ) (v : A)
      → find_index? p xs ≡ some k
      → p v ≡ true
      → find_index? p (set xs k v) ≡ some k
  find_index?-set_found p [] k v h e = cc
  find_index?-set_found p (x ∷ xs) zero v h e = ground arith
  find_index?-set_found p (x ∷ xs) (suc k) v h e = ground (arith, find_index?-set_found p xs k v)

  pub find_index?-set_new :
      (p : A → Bool) (xs : List A) (k : ℕ) (v : A)
      → find_index? p xs ≡ none
      → k < length xs
      → p v ≡ true
      → find_index? p (set xs k v) ≡ some k
  find_index?-set_new p [] k v h l e = absurd (omega arith)
  find_index?-set_new p (x ∷ xs) zero v h l e = ground arith
  find_index?-set_new p (x ∷ xs) (suc k) v h l e = ground (arith, find_index?-set_new p xs k v)

  pub find_index?-set_other :
      (p : A → Bool) (xs : List A) (k : ℕ) (v d : A)
      → p (get_or xs k d) ≡ false
      → p v ≡ false
      → find_index? p (set xs k v) ≡ find_index? p xs
  find_index?-set_other p [] k v d h e = refl
  find_index?-set_other p (x ∷ xs) zero v d h e = ground arith
  find_index?-set_other p (x ∷ xs) (suc k) v d h e =
      ground (arith, find_index?-set_other p xs k v d)
