-- ===== src/System/Phase.antt =====
-- How far a call has come, for the calls of one processor.
use mathlib.Core.Path.{subst}
use native.Mathlib.Decide.{dec_lt}
use rseq_rs.Base.{
  ℕ, ◌≤◌, ◌<◌, ◌≡◌, refl, sym, ap, ◌∙◌, inl, Bool, true, false, Option, some, none, arith, length,
}
use rseq_rs.Abi.{Area}
use rseq_rs.Attempt.{Attempt}
use rseq_rs.Machine.{Mem, State, steps, attempt}
use rseq_rs.Kernel.{Kernel, start_of, commit_of, abort_of, interrupt, finish}
use rseq_rs.Section.Exec.{share, Scratch}
use rseq_rs.Section.Runs.{steps-Scratch, steps-before, steps-zero}
use rseq_rs.Section.Linearized.{inputs}
use rseq_rs.Section.Interrupt.{
  IsSection, in_cs-inside, in_cs-before, in_cs-behind, interrupt-outside, interrupt-inside,
}
use rseq_rs.Section.Attempt.{attempt-regs, inputs-steps, armed-inside}
use rseq_rs.Section.Settle.{order, finish-share}
use rseq_rs.System.{Client, Local, load_local, save}

module _ (c : Client) where
  -- The words `w` are those of the processor, and `b` those that it had if the call were given up
  -- without a trace; both count only for the call on the processor, which is given the area `a`.
  pub data Phase (l : Local) (b w : Mem) (a : Area) (on : Bool) (r : Option Attempt) : Type 0 where
    fresh :
        l.ip ≡ 0
        → inputs l.regs ≡ inputs c.operands
        → r ≡ none
        → (on ≡ true → (l.area ≡ a) × (b ≡ w))
        → Phase l b w a on r
    under_way :
        (j : ℕ) (f : State)
        → f.ip ≡ abort_of c.blk
        → inputs f.regs ≡ inputs c.operands
        → save (steps c.desc c.blk j f) ≡ l
        → l.ip < commit_of c.blk
        → r ≡ none
        → (on ≡ true → (f.area ≡ a) × (f.mem ≡ b) × ((steps c.desc c.blk j f).mem ≡ w))
        → Phase l b w a on r
    decided :
        commit_of c.blk ≤ l.ip
        → l.ip ≤ length c.blk.code
        → ((m : Mem) → r ≡ some (attempt c.blk (finish c.desc c.blk (load_local m l))))
        → (on ≡ true → b ≡ w)
        → Phase l b w a on r

  -- Off the processor neither the words nor the area count.
  pub Phase-off :
      {l : Local} {b w b' w' : Mem} {a a' : Area} {on : Bool} {r : Option Attempt}
      → Phase l b w a on r
      → Phase l b' w' a' false r
  Phase-off (fresh at ins none_yet held) = fresh at ins none_yet (λ e. absurd (cc))
  Phase-off (under_way j f at ins here lt none_yet held) =
      under_way j f at ins here lt none_yet (λ e. absurd (cc))
  Phase-off (decided le bound out held) = decided le bound out (λ e. absurd (cc))

  module _ {k : Kernel} (sec : IsSection k c.desc c.blk c.spec) where
    -- What the call on the processor has done to the words, if it is given up.
    pub Phase-Scratch :
        {l : Local} {b w : Mem} {a : Area} {r : Option Attempt}
        → Phase l b w a true r
        → Scratch c.blk (inputs c.operands) b w
    Phase-Scratch (fresh at ins none_yet held) = inl (sym (held refl).1)
    Phase-Scratch {l = l} {b = b} {w = w} (under_way j f at ins here lt none_yet held) =
        let (same_area, base, now) = held refl in
        let place : (steps c.desc c.blk j f).ip ≡ l.ip = ap (λ l. l.ip) here in
        let left : Scratch c.blk (inputs f.regs) f.mem (steps c.desc c.blk j f).mem =
          steps-Scratch c.desc c.blk sec.checked j f (omega arith) (omega (arith, place)) in
        subst (λ q. Scratch c.blk q b w) ins
          (subst (λ m. Scratch c.blk (inputs f.regs) m w) base
            (subst (λ m. Scratch c.blk (inputs f.regs) f.mem m) now left))
    Phase-Scratch (decided le bound out held) = inl (sym (held refl))

    -- The call goes on after it was off the processor.
    pub record Resumed (l : Local) (w : Mem) (a : Area) (r : Option Attempt) : Type 0 where
      pub state : State
      pub resumed : interrupt k c.desc c.blk (λ m. m) a (load_local w l) ≡ some state
      pub kept : state.mem ≡ w
      pub phase : Phase (save state) w w a true r

    resume-steps :
        (j : ℕ) (f : State) (w : Mem) (a : Area)
        → f.ip ≡ abort_of c.blk
        → inputs f.regs ≡ inputs c.operands
        → (steps c.desc c.blk j f).ip < commit_of c.blk
        → Resumed (save (steps c.desc c.blk j f)) w a none
    resume-steps j f w a at ins lt =
        let s = steps c.desc c.blk j f in
        let off : State = load_local w (save s) in
        elim (dec_lt s.ip (start_of c.blk)) [
          | yes before ↦
              let u : State = share (λ m. w) a f in
              let commute =
                (steps-before c.desc c.blk sec.checked j f (λ m. w) a (omega arith) before).0 in
              record {
                state = share (λ m. m) a off;
                resumed =
                    interrupt-outside k c.desc c.blk (λ m. m) a off
                      (in_cs-before k c.desc c.blk _ before);
                kept = refl;
                phase =
                    under_way j u at ins (ap save commute) lt refl
                      (λ e. (refl, refl, ap (λ s. s.mem) commute));
              }
          | no n1 ↦
              let own = armed-inside sec j f at (omega arith) lt in
              let u : State = record (share (λ m. m) a off) { ip = abort_of c.blk } in
              record {
                state = u;
                resumed =
                    interrupt-inside k c.desc c.blk (λ m. m) a off
                      (in_cs-inside k c.desc c.blk _ (omega arith) lt) sec.signed own;
                kept = refl;
                phase =
                    under_way 0 u refl (inputs-steps sec j f at ∙ ins)
                      (ap save (steps-zero c.desc c.blk sec.checked u)) (omega (arith, order sec))
                      refl
                      (λ e. (refl, refl, ap (λ s. s.mem) (steps-zero c.desc c.blk sec.checked u)));
              }
        ]

    pub resume-Phase :
        {l : Local} {b w₀ : Mem} {a₀ : Area} {on : Bool} {r : Option Attempt} (w : Mem) (a : Area)
        → Phase l b w₀ a₀ on r
        → Resumed l w a r
    resume-Phase {l = l} w a (fresh at ins none_yet held) =
        let off : State = load_local w l in
        record {
          state = share (λ m. m) a off;
          resumed =
              interrupt-outside k c.desc c.blk (λ m. m) a off
                (in_cs-before k c.desc c.blk l.ip (omega (arith, order sec)));
          kept = refl;
          phase = fresh at ins none_yet (λ e. (refl, refl));
        }
    resume-Phase {r = r} w a (under_way j f at ins here lt none_yet held) =
        let place = ap (λ l. l.ip) here in
        subst (λ l. Resumed l w a r) here
          (subst (Resumed (save (steps c.desc c.blk j f)) w a) (sym none_yet)
            (resume-steps j f w a at ins (omega (arith, place))))
    resume-Phase {l = l} w a (decided le bound out held) =
        let off : State = load_local w l in
        record {
          state = share (λ m. m) a off;
          resumed =
              interrupt-outside k c.desc c.blk (λ m. m) a off
                (in_cs-behind k c.desc c.blk l.ip (order sec).1 le);
          kept = refl;
          phase =
              decided le bound
                (λ m.
                  out m
                  ∙ sym (
                      ap some (
                        ap (attempt c.blk) (finish-share sec (λ m. m) a (load_local m l) le)
                        ∙ attempt-regs sec _ _ refl)))
                (λ e. refl);
        }
