-- ===== src/Section/Interrupt.antt =====
-- Where a thread goes on that was interrupted in a block, and what a restartable sequence is.
use rseq_rs.Base.{
  ℕ, ◌-◌, ◌≤◌, ◌<◌, ◌≡◌, refl, true, false, inl, inr, some, arith, ◌==◌, ==-self, Bool-cases,
}
use rseq_rs.Abi.{Area}
use rseq_rs.Machine.{Block, State, Mem, step, steps, attempt}
use rseq_rs.Kernel.{Kernel, descriptor, in_cs, start_of, commit_of, abort_of, interrupt, finish}
use rseq_rs.Section.Check.{is_restartable}
use rseq_rs.Section.Exec.{share}
use rseq_rs.Section.Linearized.{inputs, Spec}

-- A block that passes the check, is entered at its abort label, arms its descriptor on the way to its
-- first line, carries the registered signature, and undisturbed does what `spec` says.
pub record IsSection (k : Kernel) (desc : ℕ) (blk : Block) (spec : Spec) : Type 0 where
  pub checked : is_restartable blk ≡ true
  pub signed : (descriptor blk).signature ≡ some k.registered
  pub enters : (s : State) → s.ip ≡ 0 → step desc blk s ≡ record s { ip = abort_of blk }
  pub entry_outside : 0 < abort_of blk
  pub arms :
      (s : State)
      → s.ip ≡ abort_of blk
      → ((steps desc blk (start_of blk - abort_of blk) s).ip ≡ start_of blk)
        × ((steps desc blk (start_of blk - abort_of blk) s).area.rseq_cs ≡ desc)
  pub computes :
      (s : State)
      → s.ip ≡ abort_of blk
      → ((finish desc blk s).mem ≡ (spec (inputs s.regs) s.mem s.area).0)
        × (attempt blk (finish desc blk s) ≡ (spec (inputs s.regs) s.mem s.area).1)

module _ (k : Kernel) (desc : ℕ) (blk : Block) where
  pub in_cs-inside :
      (p : ℕ) → start_of blk ≤ p → p < commit_of blk → in_cs (descriptor blk) p ≡ true
  in_cs-inside p h l = ground arith

  pub in_cs-before : (p : ℕ) → p < start_of blk → in_cs (descriptor blk) p ≡ false
  in_cs-before p h = ground arith

  pub in_cs-behind :
      (p : ℕ) → start_of blk < commit_of blk → commit_of blk ≤ p → in_cs (descriptor blk) p ≡ false
  in_cs-behind p l h = ground arith

  -- Outside the section an interruption is no more than what the others do.
  pub interrupt-outside :
      (g : Mem → Mem) (a : Area) (s : State)
      → in_cs (descriptor blk) s.ip ≡ false
      → interrupt k desc blk g a s ≡ some (share g a s)
  unfolding interrupt
  interrupt-outside g a s h = elim (Bool-cases (s.area.rseq_cs == desc)) [
    | inl own ↦ rw (own, k.resume_outside (descriptor blk) s.ip h) refl
    | inr other ↦ rw (other, k.resume_unarmed s.ip) refl
  ]

  -- Inside the section the thread goes on at the abort label.
  pub interrupt-inside :
      (g : Mem → Mem) (a : Area) (s : State)
      → in_cs (descriptor blk) s.ip ≡ true
      → (descriptor blk).signature ≡ some k.registered
      → s.area.rseq_cs ≡ desc
      → interrupt k desc blk g a s ≡ some (record (share g a s) { ip = abort_of blk })
  unfolding interrupt
  interrupt-inside g a s h sign own =
      rw (own, ==-self desc, k.resume_inside (descriptor blk) s.ip h sign) refl
