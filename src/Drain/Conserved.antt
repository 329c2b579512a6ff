-- ===== src/Drain/Conserved.antt =====
-- The drain of benches/drain.rs takes all that the words hold.
use rseq_rs.Base.{
  ℕ, zero, suc, ◌+◌, ◌-◌, ◌*◌, ◌^◌, ◌≤◌, ◌<◌, ◌≡◌, refl, sym, ap, ◌∙◌, some, List, [], ◌∷◌, arith,
  IsU32, ==-ne,
}
use rseq_rs.Abi.{cpu_uninit, cpu_reg_failed}
use rseq_rs.Machine.{Mem, write}
use rseq_rs.Machine.Memory.{write-elsewhere, write-here}
use rseq_rs.Membarrier.{Command, Rc}
use rseq_rs.Rseq as Handles
use rseq_rs.Rseq.{Rseq}
use rseq_rs.Region.{word_size, base}
use rseq_rs.Words.{Words}
use rseq_rs.Words.Slots.{get-slot, get-some_iff}
use rseq_rs.Thread.{cpu_kind, cpu_id_new}
use rseq_rs.Counter.{sum_of_slots, total}
use rseq_rs.Counter.Total.{sum-write_above}
use rseq_rs.Drain.{Drain, steal, steal_below, steal_all}

unfoldable pub sum : List ℕ → ℕ
sum [] = 0
sum (x ∷ xs) = x + sum xs

cpu_id_new-some : (raw : ℕ) → raw < 2 ^ 32 - 2 → cpu_id_new raw ≡ some raw
unfolding cpu_id_new
cpu_id_new-some raw small =
    rw
      (
        ==-ne raw cpu_uninit (λ same. absurd (omega (arith, small, same))),
        ==-ne raw cpu_reg_failed (λ same. absurd (omega (arith, small, same))),
      )
      refl

module _ {K : Type 0} (syscall : Command → K → K × Rc) (r : Rseq) (ws : Words)
    (small : ws.cpus ≤ 2 ^ 32 - 2) where
  -- The address of slot `n`.
  abbrev slot : ℕ → ℕ
  slot n = base ws.region + n * word_size

  -- A pass takes what the slot holds.
  steal-slot :
      (n : ℕ) (d : Drain K)
      → n < ws.cpus
      → let d' = steal syscall r ws n d in
        (d'.mem ≡ write d.mem (slot n) 0)
        × (d'.stolen ≡ d.mem (slot n) ∷ d.stolen)
        × (d'.fences ≡ (Handles.fence syscall r n d.fences).0)
  unfolding steal
  steal-slot n d within =
      let u32 : IsU32 ws.cpus = omega (arith, small) in
      let (w, there, _) = (get-some_iff {k = cpu_kind} ws n u32).1 within in
      let (_, place, _) = get-slot ws n u32 w there in
      rw (steal, cpu_id_new-some n (omega (arith, within, small)), there)
        (ap (λ a. write d.mem a 0) place, ap (λ a. d.mem a ∷ d.stolen) place, refl)

  record Below (n : ℕ) (d d' : Drain K) : Type 0 where
    taken : sum d'.stolen ≡ sum d.stolen + sum_of_slots (base ws.region) n d.mem
    emptied : sum_of_slots (base ws.region) n d'.mem ≡ 0
    kept : (j : ℕ) → n ≤ j → d'.mem (slot j) ≡ d.mem (slot j)

  steal-Below : (n : ℕ) (d : Drain K) → n ≤ ws.cpus → Below n d (steal_below syscall r ws n d)
  unfolding steal_below sum sum_of_slots
  steal-Below zero d within = record { taken = omega arith; emptied = refl; kept = λ j h. refl }
  steal-Below (suc n) d within =
      let d₁ = steal_below syscall r ws n d in
      let before = steal-Below n d (omega (arith, within)) in
      let (words, values, _) = steal-slot n d₁ (omega (arith, within)) in
      let held = before.kept n (omega arith) in
      let value : sum (d₁.mem (slot n) ∷ d₁.stolen) ≡ d₁.mem (slot n) + sum d₁.stolen = refl in
      let all = ap sum values in
      let taken = before.taken in
      let below = sum-write_above (base ws.region) n n 0 d₁.mem (omega arith) in
      let here = write-here d₁.mem (slot n) 0 in
      let emptied = before.emptied in
      record {
        taken = omega (arith, all, value, taken, held);
        emptied = rw words omega (arith, below, here, emptied);
        kept = λ j h.
            ap (λ (m : Mem). m (slot j)) words
            ∙ (write-elsewhere d₁.mem (slot n) (slot j) 0 (omega (arith, h))
                ∙ before.kept j (omega (arith, h)));
      }

  -- For words of at most 2^32 - 2 CPUs, as many as the handle counts, whatever the kernel answers to the
  -- fences, and with no other thread at work: the values that the drain takes add up to what the words
  -- held, and the words then hold nothing.
  pub steal_all-Conserved :
      ws.cpus ≡ r.cpus
      → (d : Drain K)
      → let d' = steal_all syscall r ws d in
        (sum d'.stolen ≡ sum d.stolen + total ws d.mem) × (total ws d'.mem ≡ 0)
  steal_all-Conserved same d =
      let whole = steal-Below r.cpus d (omega (arith, same)) in
      (
        whole.taken ∙ ap (λ n. sum d.stolen + sum_of_slots (base ws.region) n d.mem) (sym same),
        ap (λ n. sum_of_slots (base ws.region) n (steal_all syscall r ws d).mem) same
            ∙ whole.emptied,
      )
