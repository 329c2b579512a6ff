-- ===== src/Counter/Total.antt =====
-- A store to one slot changes the sum of the slots by what it changes the slot.
use rseq_rs.Base.{
  ℕ, zero, suc, ◌+◌, ◌*◌, ◌≤◌, ◌<◌, ◌≡◌, refl, sym, ap, ◌∙◌, eq_of_==, ne_of_==, Bool-cases, ◌==◌,
  arith, inl, inr,
}
use rseq_rs.Machine.Memory.{write-elsewhere, write-here}
use rseq_rs.Machine.{Mem, write, usize}
use rseq_rs.Region.{word_size}
use rseq_rs.Thread.Count.{◌≈◌}
use rseq_rs.Counter.{sum_of_slots}

pub sum-write_above :
    (at n j v : ℕ) (m : Mem)
    → n ≤ j
    → sum_of_slots at n (write m (at + j * word_size) v) ≡ sum_of_slots at n m
unfolding sum_of_slots
sum-write_above at zero j v m above = refl
sum-write_above at (suc n) j v m above =
    let below = sum-write_above at n j v m (omega (arith, above)) in
    let apart =
      write-elsewhere m (at + j * word_size) (at + n * word_size) v (omega (arith, above)) in
    rw (below, apart) refl

pub sum-write :
    (at n j v : ℕ) (m : Mem)
    → j < n
    → sum_of_slots at n (write m (at + j * word_size) v) + m (at + j * word_size)
      ≡ sum_of_slots at n m + v
unfolding sum_of_slots
sum-write at zero j v m inside = absurd (omega (arith, inside))
sum-write at (suc n) j v m inside = elim (Bool-cases (j == n)) [
  | inl last ↦
      let same = eq_of_== j n last in
      let rest = sum-write_above at n j v m (omega (arith, same)) in
      let stored : write m (at + j * word_size) v (at + n * word_size) ≡ v =
        ap (λ i. write m (at + j * word_size) v (at + i * word_size)) (sym same)
        ∙ write-here m (at + j * word_size) v in
      let old : m (at + j * word_size) ≡ m (at + n * word_size) =
        ap (λ i. m (at + i * word_size)) same in
      omega (arith, rest, stored, old)
  | inr earlier ↦
      let ne = ne_of_== j n earlier in
      let rest = sum-write at n j v m (omega (arith, inside, ne)) in
      let kept =
        write-elsewhere m (at + j * word_size) (at + n * word_size) v (omega (arith, ne)) in
      omega (arith, rest, kept)
]

-- An addition to a slot, which wraps at 2^64, is an addition to the sum.
pub sum-add :
    (at n j count : ℕ) (m : Mem)
    → j < n
    → let a = at + j * word_size in
      sum_of_slots at n (write m a (usize (m a + count))) ≈ (sum_of_slots at n m + count)
sum-add at n j count m inside =
    let a = at + j * word_size in
    let changed = sum-write at n j (usize (m a + count)) m inside in omega (arith, changed)
