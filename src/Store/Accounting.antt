-- ===== src/Store/Accounting.antt =====
-- What the store holds, recomputed from the heap: the sum that the quota's counters stand for.
use buff.Common.{
  ℕ, zero, suc, ◌+◌, ◌≤◌, ◌<◌, ◌≡◌, refl, arith, if◌then◌else◌, ◌==◌, Bool-cases, inl, inr,
}
use buff.Store.Generation.{Generation}
use buff.Store.State.{update}

abbrev pub held_bytes : Generation → ℕ
held_bytes g = if g.home then g.buf.size else 0

abbrev pub held_clips : Generation → ℕ
held_clips g = if g.home then 1 else 0

-- A sum over the cells below `n`.
unfoldable pub total : (Generation → ℕ) → (ℕ → Generation) → ℕ → ℕ
total f heap zero = 0
total f heap (suc n) = f (heap n) + total f heap n

total-update_above :
    (f : Generation → ℕ) (heap : ℕ → Generation) (n g : ℕ) (v : Generation)
    → n ≤ g
    → total f (update heap g v) n ≡ total f heap n
unfolding total
total-update_above f heap zero g v h = refl
total-update_above f heap (suc n) g v h = ground (arith, total-update_above f heap n g v)

-- A change of one cell changes the sum by that cell's part.
pub total-update :
    (f : Generation → ℕ) (heap : ℕ → Generation) (n g : ℕ) (v : Generation)
    → g < n
    → total f (update heap g v) n + f (heap g) ≡ total f heap n + f v
unfolding total
total-update f heap zero g v h = absurd (omega arith)
total-update f heap (suc n) g v h = elim (Bool-cases (g == n)) [
  | inl e ↦ ground (arith, total-update_above f heap n g v)
  | inr e ↦ ground (arith, total-update f heap n g v)
]

-- A new cell.
pub total-update_new :
    (f : Generation → ℕ) (heap : ℕ → Generation) (n : ℕ) (v : Generation)
    → total f (update heap n v) (suc n) ≡ total f heap n + f v
unfolding total
total-update_new f heap n v = ground (arith, total-update_above f heap n n v)
