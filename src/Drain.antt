-- ===== src/Drain.antt =====
-- benches/drain.rs: the drain of the words of all CPUs, by fences and swaps from outside.
pub mod Conserved
mod Tests
use rseq_rs.Base.{ℕ, zero, suc, Option, none, some, List, [], ◌∷◌}
use rseq_rs.Machine.{Mem, write}
use rseq_rs.Membarrier.{Command, Rc, State}
use rseq_rs.Rseq as Handles
use rseq_rs.Rseq.{Rseq}
use rseq_rs.Words.{Words, get}
use rseq_rs.Thread.{Kind, cpu_kind, Word, cpu_id_new}

-- The membarrier, the words, and the values that the swaps have taken, the last one first.
pub record Drain (K : Type 0) : Type 0 where
  pub fences : State K
  pub mem : Mem
  pub stolen : List ℕ

-- `w.atomic().swap(0)`
abbrev pub swap_out : {K : Type 0} → Option (Word cpu_kind) → Drain K → Drain K
swap_out none d = d
swap_out (some w) d = record d { mem = write d.mem w.word 0; stolen = d.mem w.word ∷ d.stolen }

module _ {K : Type 0} (syscall : Command → K → K × Rc) (r : Rseq) (ws : Words) where
  -- The body of the loop of `steal_all`.
  unfoldable pub steal : (raw : ℕ) → Drain K → Drain K
  steal raw d = elim (cpu_id_new raw) [
    | none ↦ d
    | some cpu ↦
        let (s, fenced) = Handles.fence syscall r cpu d.fences in
        swap_out (get ws cpu) (record d { fences = s })
  ]

  -- The passes of the loop for 0, 1, … below `n`.
  unfoldable pub steal_below : (n : ℕ) → Drain K → Drain K
  steal_below zero d = d
  steal_below (suc n) d = steal n (steal_below n d)

  -- `steal_all`
  abbrev pub steal_all : Drain K → Drain K
  steal_all d = steal_below r.cpus d
