-- ===== src/Section/Settle.antt =====
-- Behind the commit of a restartable sequence nothing is undecided.
use native.Mathlib.Decide.{dec_lt}
use rseq_rs.Base.{ℕ, ◌≤◌, ◌<◌, ◌≡◌, refl, ap, ◌∙◌, some, List, [], ◌∷◌, arith, length}
use rseq_rs.Abi.{Area}
use rseq_rs.Machine.{Block, State, Mem, step, steps}
use rseq_rs.Kernel.{Kernel, start_of, commit_of, abort_of, Event, tick, preempt, run, finish}
use rseq_rs.Section.Exec.{share}
use rseq_rs.Section.Step.{places, step-forward, step-end}
use rseq_rs.Section.Runs.{step-ip, steps-end, steps-behind, steps-step}
use rseq_rs.Section.Linearized.{Spec, after}
use rseq_rs.Section.Interrupt.{IsSection, in_cs-behind, interrupt-outside}

module _ {k : Kernel} {desc : ℕ} {blk : Block} {spec : Spec} (sec : IsSection k desc blk spec) where
  -- Behind the commit the outcome is fixed, and interruptions only bring what the others do.
  pub record Settles (es : List Event) (s t : State) : Type 0 where
    pub runs : run k desc blk es s ≡ some t
    pub ended : (finish desc blk t).ip ≡ length blk.code
    pub words : (finish desc blk t).mem ≡ after es (finish desc blk s).mem
    pub registers : (finish desc blk t).regs ≡ (finish desc blk s).regs

  pub order :
      (abort_of blk < start_of blk)
      × (start_of blk < commit_of blk)
      × (commit_of blk ≤ length blk.code)
  order = places desc blk sec.checked

  pub finish-end :
      (s : State)
      → abort_of blk ≤ s.ip
      → s.ip ≤ length blk.code
      → (finish desc blk s).ip ≡ length blk.code
  unfolding finish
  finish-end s le bound = steps-end desc blk sec.checked (length blk.code) s le bound (omega arith)

  pub finish-step :
      (s : State)
      → abort_of blk ≤ s.ip
      → s.ip ≤ length blk.code
      → finish desc blk (step desc blk s) ≡ finish desc blk s
  unfolding finish
  finish-step s le bound =
      steps-step desc blk sec.checked (length blk.code) s
      ∙ step-end desc blk (steps desc blk (length blk.code) s)
          (omega (arith, finish-end s le bound))

  pub finish-share :
      (g : Mem → Mem) (a : Area) (s : State)
      → commit_of blk ≤ s.ip
      → finish desc blk (share g a s) ≡ share g a (finish desc blk s)
  unfolding finish
  finish-share g a s le = (steps-behind desc blk sec.checked (length blk.code) s g a le).0

  pub step-bound :
      (s : State)
      → abort_of blk ≤ s.ip
      → s.ip ≤ length blk.code
      → (step desc blk s).ip ≤ length blk.code
  step-bound s le bound = elim (dec_lt s.ip (length blk.code)) [
    | yes lt ↦ (step-forward desc blk sec.checked s le lt).1
    | no out ↦ rw (step-end desc blk s (omega arith)) bound
  ]

  pub settle :
      (es : List Event) (s : State)
      → commit_of blk ≤ s.ip
      → s.ip ≤ length blk.code
      → (t : State) × Settles es s t
  unfolding run
  settle [] s le bound = (
    s,
    record {
      runs = refl;
      ended = finish-end s (omega (arith, order)) bound;
      words = refl;
      registers = refl;
    },
  )
  settle (tick ∷ es) s le bound =
      let early : abort_of blk ≤ s.ip = omega (arith, order) in
      let ahead = step-ip desc blk sec.checked s early in
      let (t, r) = settle es (step desc blk s) (omega arith) (step-bound s early bound) in
      let same = finish-step s early bound in
      (
        t,
        record {
          runs = r.runs;
          ended = r.ended;
          words = r.words ∙ ap (λ u. after es u.mem) same;
          registers = r.registers ∙ ap (λ u. u.regs) same;
        },
      )
  settle (preempt g a ∷ es) s le bound =
      let out = interrupt-outside k desc blk g a s (in_cs-behind k desc blk s.ip (order.1) le) in
      let (t, r) = settle es (share g a s) le bound in
      let same = finish-share g a s le in
      (
        t,
        record {
          runs = rw (run, out) r.runs;
          ended = r.ended;
          words = r.words ∙ ap (λ u. after es u.mem) same;
          registers = r.registers ∙ ap (λ u. u.regs) same;
        },
      )
