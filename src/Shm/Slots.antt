-- ===== src/Shm/Slots.antt =====
-- The slot loop of src/shm/shared_memory.c against two plain searches.
use mathlib.Core.Option
use rdma_intercept_ldperload.Base.{
  ℕ, suc, ◌+◌, ◌≡◌, refl, List, [], ◌∷◌, Option, none, some, arith, ◌==◌, find_index?,
}
use rdma_intercept_ldperload.Shm.{find_slot}

-- The entry of `pid` if it has one, else the first free slot.
abbrev pub slot_of : ℕ → List ℕ → Option ℕ
slot_of pid ps = elim (find_index? (λ p. p == pid) ps) [
  | none ↦ find_index? (λ p. p == 0) ps
  | some i ↦ some i
]

abbrev shift : ℕ → Option ℕ → Option ℕ
shift i o = Option.map (λ k. i + k) o

find_slot_held :
    (pid : ℕ) (ps : List ℕ) (i s : ℕ)
    → find_slot pid ps i (some s)
      ≡ elim (find_index? (λ p. p == pid) ps) [ none ↦ some s | some k ↦ some (i + k) ]
unfolding find_slot
find_slot_held pid [] i s = refl
find_slot_held pid (p ∷ ps) i s = ground (arith, find_slot_held pid ps (suc i) s)

find_slot_open :
    (pid : ℕ) (ps : List ℕ) (i : ℕ) → find_slot pid ps i none ≡ shift i (slot_of pid ps)
unfolding find_slot
find_slot_open pid [] i = refl
find_slot_open pid (p ∷ ps) i =
    ground (arith, find_slot_open pid ps (suc i), find_slot_held pid ps (suc i) i)

-- The one-pass loop picks the slot that the two searches pick.
pub find_slot-eq-slot_of : (pid : ℕ) (ps : List ℕ) → find_slot pid ps 0 none ≡ slot_of pid ps
find_slot-eq-slot_of pid ps = ground (arith, find_slot_open pid ps 0)
