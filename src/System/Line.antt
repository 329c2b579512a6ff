-- ===== src/System/Line.antt =====
-- A line of the call on the processor.
use mathlib.Core.Path.{subst}
use native.Mathlib.Decide.{dec_lt}
use rseq_rs.Base.{
  ℕ, suc, ◌≤◌, ◌<◌, ◌≡◌, refl, sym, ap, ◌∙◌, true, false, ◌&&◌, Option, some, none, leb, ltb, arith,
  length,
}
use rseq_rs.Abi.{Area}
use rseq_rs.Attempt.{Attempt}
use rseq_rs.Machine.{Mem, State, step, steps, attempt}
use rseq_rs.Kernel.{Kernel, commit_of, abort_of, finish}
use rseq_rs.Section.Runs.{step-ip, steps-behind, steps-bound, steps-suc, steps-zero}
use rseq_rs.Section.Linearized.{inputs}
use rseq_rs.Section.Interrupt.{IsSection}
use rseq_rs.Section.Attempt.{attempt-regs, finish-steps, words, outcome}
use rseq_rs.Section.Settle.{order, finish-share, finish-step, step-bound}
use rseq_rs.System.{Client, Local, load_local, save, passes}
use rseq_rs.System.Phase.{Phase, fresh, under_way, decided}

stays_of_tests : (p q co : ℕ) → q < co → (ltb p co && leb co q) ≡ false
stays_of_tests p q co lt = ground arith

gone_of_tests : (p q co : ℕ) → co ≤ p → (ltb p co && leb co q) ≡ false
gone_of_tests p q co le = ground arith

over_of_tests : (p q co : ℕ) → p < co → co ≤ q → (ltb p co && leb co q) ≡ true
over_of_tests p q co lt le = ground arith

module _ (c : Client) {k : Kernel} (sec : IsSection k c.desc c.blk c.spec) where
  abbrev next : State → State
  next = step c.desc c.blk

  abbrev rest : State → State
  rest = finish c.desc c.blk

  -- What the line from `s` does: it stays on its side of the commit label, or it passes the label and
  -- has done what is specified.
  pub data Lined (s : State) (b : Mem) (a : Area) (r : Option Attempt) : Type 0 where
    goes_on :
        passes c.blk s (next s) ≡ false
        → Phase c (save (next s)) b (next s).mem a true r
        → Lined s b a r
    commits :
        passes c.blk s (next s) ≡ true
        → r ≡ none
        → attempt c.blk (rest (next s)) ≡ (c.spec (inputs c.operands) b a).1
        → Phase c
            (save (next s))
            (c.spec (inputs c.operands) b a).0
            (next s).mem
            a
            true
            (some (attempt c.blk (rest (next s))))
        → Lined s b a r

  -- Behind the commit the attempt does not depend on the words.
  attempt-save :
      (m : Mem) (s : State)
      → commit_of c.blk ≤ s.ip
      → attempt c.blk (rest s) ≡ attempt c.blk (rest (load_local m (save s)))
  attempt-save m s le =
      sym (ap (attempt c.blk) (finish-share sec (λ q. m) s.area s le) ∙ attempt-regs sec _ _ refl)

  finish-words : (s : State) → commit_of c.blk ≤ s.ip → (rest s).mem ≡ s.mem
  unfolding finish
  finish-words s le =
      (steps-behind c.desc c.blk sec.checked (length c.blk.code) s (λ m. m) s.area le).1

  step-words : (s : State) → commit_of c.blk ≤ s.ip → (next s).mem ≡ s.mem
  unfolding steps
  step-words s le = (steps-behind c.desc c.blk sec.checked 1 s (λ m. m) s.area le).1

  line-steps :
      (j : ℕ) (f : State) (b : Mem) (a : Area)
      → f.ip ≡ abort_of c.blk
      → inputs f.regs ≡ inputs c.operands
      → (steps c.desc c.blk j f).ip < commit_of c.blk
      → f.area ≡ a
      → f.mem ≡ b
      → Lined (steps c.desc c.blk j f) b a none
  line-steps j f b a at ins lt same_area base =
      let s = steps c.desc c.blk j f in
      let t = next s in
      let more = steps-suc c.desc c.blk sec.checked j f in
      elim (dec_lt t.ip (commit_of c.blk)) [
        | yes early ↦ goes_on (stays_of_tests s.ip t.ip _ early) (
            under_way (suc j) f at ins (ap save more) early refl
              (λ e. (same_area, base, ap (λ u. u.mem) more)))
        | no late ↦
            let over : commit_of c.blk ≤ t.ip = omega arith in
            let bound =
              subst (λ u. u.ip ≤ length c.blk.code) more
                (steps-bound c.desc c.blk sec.checked (suc j) f (omega arith)
                  (omega (arith, order sec))) in
            let fin : rest t ≡ rest f = ap rest (sym more) ∙ finish-steps sec (suc j) f at in
            let spec_at = λ (m : Mem) (x : Area). c.spec (inputs c.operands) m x in
            let given : spec_at f.mem f.area ≡ spec_at b a =
              ap (λ m. spec_at m f.area) base ∙ ap (spec_at b) same_area in
            commits (over_of_tests s.ip t.ip _ lt over) refl
              (ap (attempt c.blk) fin ∙ (outcome sec f at ins ∙ ap (λ q. q.1) given))
              (decided over bound (λ m. ap some (attempt-save m t over))
                (λ e.
                  sym (ap (λ q. q.0) given)
                  ∙ (sym (words sec f at ins) ∙ (ap (λ u. u.mem) (sym fin) ∙ finish-words t over))))
      ]

  pub line-Phase :
      {l : Local} {b w : Mem} {a : Area} {r : Option Attempt}
      → Phase c l b w a true r
      → Lined (load_local w l) b a r
  line-Phase {l = l} {b = b} {w = w} {a = a} {r = r} (fresh at ins none_yet held) =
      let (same_area, base) = held refl in
      let s : State = load_local w l in
      let u : State = record s { ip = abort_of c.blk } in
      let enters : next s ≡ u = sec.enters s at in
      goes_on (stays_of_tests s.ip (next s).ip _ (omega (arith, ap (λ u. u.ip) enters, order sec)))
        (subst (λ t. Phase c (save t) b t.mem a true r) (sym enters)
          (under_way 0 u refl ins (ap save (steps-zero c.desc c.blk sec.checked u))
            (omega (arith, order sec)) none_yet
            (λ e. (same_area, sym base, ap (λ u. u.mem) (steps-zero c.desc c.blk sec.checked u)))))
  line-Phase {l = l} {b = b} {w = w} {a = a} {r = r} (under_way j f at ins here lt none_yet held) =
      let (same_area, base, now) = held refl in
      let place = ap (λ l. l.ip) here in
      let lined = line-steps j f b a at ins (omega (arith, place)) same_area base in
      let same : steps c.desc c.blk j f ≡ load_local w l =
        ap (λ m. load_local m (save (steps c.desc c.blk j f))) now ∙ ap (load_local w) here in
      subst (λ s. Lined s b a r) same
        (subst (Lined (steps c.desc c.blk j f) b a) (sym none_yet) lined)
  line-Phase {l = l} {b = b} {w = w} (decided le bound out held) =
      let s : State = load_local w l in
      let early : abort_of c.blk ≤ s.ip = omega (arith, order sec) in
      let ahead = step-ip c.desc c.blk sec.checked s early in
      let same = finish-step sec s early bound in
      goes_on (gone_of_tests s.ip (next s).ip _ le) (
        decided (omega arith) (step-bound sec s early bound)
          (λ m.
            out w ∙ ap some (sym (ap (attempt c.blk) same) ∙ attempt-save m (next s) (omega arith)))
          (λ e. held refl ∙ sym (step-words s le)))
