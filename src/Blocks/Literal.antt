-- ===== src/Blocks/Literal.antt =====
-- A restartable sequence from facts about states whose position is a numeral.
use mathlib.Core.Path.{subst}
use rseq_rs.Base.{ℕ, ◌-◌, ◌<◌, ◌≡◌, sym, Bool, true, some}
use rseq_rs.Abi.{Area}
use rseq_rs.Machine.{Reg, Mem, State, Block, step, steps, attempt}
use rseq_rs.Kernel.{Kernel, descriptor, start_of, abort_of, finish}
use rseq_rs.Section.Check.{is_restartable}
use rseq_rs.Section.Linearized.{Spec, inputs}
use rseq_rs.Section.Interrupt.{IsSection}

abbrev pub at : ℕ → Bool → (Reg → ℕ) → Mem → Area → State
at i z r m a = record { ip = i; zf = z; regs = r; mem = m; area = a }

-- The block does what `spec` says from its abort label, undisturbed.
abbrev pub Computes : ℕ → Block → Spec → Type 0
Computes desc blk spec =
    (z : Bool) (r : Reg → ℕ) (m : Mem) (a : Area)
    → ((finish desc blk (at (abort_of blk) z r m a)).mem ≡ (spec (inputs r) m a).0)
      × (attempt blk (finish desc blk (at (abort_of blk) z r m a)) ≡ (spec (inputs r) m a).1)

-- The lines from the abort label on store the address of the descriptor in the area.
abbrev pub Arms : ℕ → Block → Type 0
Arms desc blk =
    (z : Bool) (r : Reg → ℕ) (m : Mem) (a : Area)
    → ((steps desc blk (start_of blk - abort_of blk) (at (abort_of blk) z r m a)).ip ≡ start_of blk)
      × ((steps desc blk (start_of blk - abort_of blk) (at (abort_of blk) z r m a)).area.rseq_cs
          ≡ desc)

pub IsSection-of :
    (k : Kernel) (desc : ℕ) (blk : Block) (spec : Spec)
    → is_restartable blk ≡ true
    → (descriptor blk).signature ≡ some k.registered
    → ((z : Bool) (r : Reg → ℕ) (m : Mem) (a : Area)
        → step desc blk (at 0 z r m a) ≡ at (abort_of blk) z r m a)
    → 0 < abort_of blk
    → Arms desc blk
    → Computes desc blk spec
    → IsSection k desc blk spec
IsSection-of k desc blk spec ok sign enter later arm compute = record {
  checked = ok;
  signed = sign;
  enters = λ s e.
      subst
        (λ i.
          step desc blk (at i s.zf s.regs s.mem s.area)
          ≡ at (abort_of blk) s.zf s.regs s.mem s.area)
        (sym e) (enter s.zf s.regs s.mem s.area);
  entry_outside = later;
  arms = λ s e.
      subst
        (λ i.
          ((steps desc blk (start_of blk - abort_of blk) (at i s.zf s.regs s.mem s.area)).ip
            ≡ start_of blk)
          × ((steps desc blk (start_of blk - abort_of blk)
                (at i s.zf s.regs s.mem s.area)).area.rseq_cs
              ≡ desc))
        (sym e) (arm s.zf s.regs s.mem s.area);
  computes = λ s e.
      subst
        (λ i.
          ((finish desc blk (at i s.zf s.regs s.mem s.area)).mem
            ≡ (spec (inputs s.regs) s.mem s.area).0)
          × (attempt blk (finish desc blk (at i s.zf s.regs s.mem s.area))
              ≡ (spec (inputs s.regs) s.mem s.area).1))
        (sym e) (compute s.zf s.regs s.mem s.area);
}
