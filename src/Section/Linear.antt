-- ===== src/Section/Linear.antt =====
-- Every interrupted run of a restartable block takes effect at one instant.
use mathlib.Core.Path.{subst}
use native.Mathlib.Decide.{dec_lt}
use rseq_rs.Base.{
  ℕ, suc, ◌+◌, ◌-◌, ◌≤◌, ◌≡◌, refl, sym, ap, ◌∙◌, inl, some, List, [], ◌∷◌, arith, length,
}
use rseq_rs.Abi.{Area}
use rseq_rs.Attempt.{Attempt}
use rseq_rs.Machine.{Reg, Block, State, Mem, steps, attempt}
use rseq_rs.Kernel.{Kernel, start_of, commit_of, abort_of, Event, tick, preempt, run, finish, call}
use rseq_rs.Section.Exec.{share, Scratch}
use rseq_rs.Section.Step.{step-end}
use rseq_rs.Section.Runs.{
  steps-end, steps-Scratch, steps-before, steps-step, steps-zero, steps-suc, steps-bound,
}
use rseq_rs.Section.Linearized.{inputs, Spec, after, Linearized, now, later, retry}
use rseq_rs.Section.Interrupt.{
  IsSection, in_cs-inside, in_cs-before, in_cs-behind, interrupt-outside, interrupt-inside,
}
use rseq_rs.Section.Attempt.{attempt-regs, inputs-steps, finish-steps, armed-inside, words, outcome}
use rseq_rs.Section.Settle.{order, finish-end, finish-share, settle}

module _ {k : Kernel} {desc : ℕ} {blk : Block} {spec : Spec} (sec : IsSection k desc blk spec) where
  abbrev pub op : State → Mem → Area → Mem × Attempt
  op s = spec (inputs s.regs)

  -- From `s` the events `es` end in `t`, and with the rest of the block that is the operation with the
  -- operands `r` at one instant, seen from the words `m` and the area `a`.
  record Ends (r : Reg → ℕ) (m : Mem) (a : Area) (es : List Event) (s t : State) : Type 0 where
    runs : run k desc blk es s ≡ some t
    ended : (finish desc blk t).ip ≡ length blk.code
    linear :
        Linearized
          (spec r)
          (Scratch blk r)
          (finish desc blk t).mem
          (attempt blk (finish desc blk t))
          es
          m
          a

  linearize :
      (es : List Event) (j : ℕ) (r : Reg → ℕ) (f : State)
      → f.ip ≡ abort_of blk
      → inputs f.regs ≡ r
      → (t : State) × Ends r f.mem f.area es (steps desc blk j f) t
  unfolding run
  linearize [] j r f at ins =
      let s = steps desc blk j f in
      let fin = finish-steps sec j f at in
      (
        s,
        record {
          runs = refl;
          ended = ap (λ u. u.ip) fin ∙ finish-end sec f (omega arith) (omega (arith, order sec));
          linear =
              now (ap (λ u. u.mem) fin ∙ words sec f at ins)
                (ap (attempt blk) fin ∙ outcome sec f at ins);
        },
      )
  linearize (tick ∷ es) j r f at ins =
      let (t, e) = linearize es (suc j) r f at ins in
      (
        t,
        record {
          runs =
              subst (λ u. run k desc blk es u ≡ some t) (steps-suc desc blk sec.checked j f) e.runs;
          ended = e.ended;
          linear = later e.linear;
        },
      )
  linearize (preempt g a ∷ es) j r f at ins = elim (dec_lt (steps desc blk j f).ip (start_of blk)) [
    | yes before ↦
        let out =
          interrupt-outside k desc blk g a (steps desc blk j f)
            (in_cs-before k desc blk _ before) in
        let commute = (steps-before desc blk sec.checked j f g a (omega arith) before).0 in
        let (t, e) = linearize es j r (share g a f) at ins in
        (
          t,
          record {
            runs = rw (run, out) (subst (λ u. run k desc blk es u ≡ some t) commute e.runs);
            ended = e.ended;
            linear = retry (inl refl) e.linear;
          },
        )
    | no n1 ↦ elim (dec_lt (steps desc blk j f).ip (commit_of blk)) [
      | yes inside ↦
          let s = steps desc blk j f in
          let own = armed-inside sec j f at (omega arith) inside in
          let again =
            interrupt-inside k desc blk g a s (in_cs-inside k desc blk _ (omega arith) inside)
              sec.signed own in
          let u : State = record (share g a s) { ip = abort_of blk } in
          let (t, e) = linearize es 0 r u refl (inputs-steps sec j f at ∙ ins) in
          let left = steps-Scratch desc blk sec.checked j f (omega arith) inside in
          (
            t,
            record {
              runs =
                  rw (run, again)
                    (subst (λ q. run k desc blk es q ≡ some t) (steps-zero desc blk sec.checked u)
                      e.runs);
              ended = e.ended;
              linear = retry (subst (λ q. Scratch blk q f.mem s.mem) ins left) e.linear;
            },
          )
      | no n2 ↦
          let s = steps desc blk j f in
          let out =
            interrupt-outside k desc blk g a s
              (in_cs-behind k desc blk _ (order sec).1 (omega arith)) in
          let (t, e) =
            settle sec es (share g a s) (omega arith)
              (steps-bound desc blk sec.checked j f (omega arith) (omega (arith, order sec))) in
          let same = finish-share sec g a s (omega arith) in
          let fin = finish-steps sec j f at in
          (
            t,
            record {
              runs = rw (run, out) e.runs;
              ended = e.ended;
              linear =
                  now
                    (e.words
                      ∙ (ap (λ u. after es u.mem) same
                          ∙ (ap (λ u. after es (g u.mem)) fin
                              ∙ ap (λ q. after es (g q)) (words sec f at ins))))
                    (attempt-regs sec _ _ e.registers
                      ∙ (ap (attempt blk) same
                          ∙ (attempt-regs sec _ _ refl
                              ∙ (ap (attempt blk) fin ∙ outcome sec f at ins))));
            },
          )
    ]
  ]

  steps-enter :
      (n : ℕ) (s : State)
      → s.ip ≡ 0
      → length blk.code ≤ abort_of blk + n
      → steps desc blk (suc n) s ≡ steps desc blk (suc n) (record s { ip = abort_of blk })
  unfolding steps
  steps-enter n s at enough =
      let u : State = record s { ip = abort_of blk } in
      let last =
        steps-end desc blk sec.checked n u (omega arith) (omega (arith, order sec)) enough in
      ap (steps desc blk n) (sec.enters s at)
      ∙ (sym (step-end desc blk (steps desc blk n u) (omega (arith, last)))
          ∙ sym (steps-step desc blk sec.checked n u))

  finish-enter :
      (s : State) → s.ip ≡ 0 → finish desc blk s ≡ finish desc blk (record s { ip = abort_of blk })
  unfolding finish
  finish-enter s at =
      let n = length blk.code - 1 in
      let whole : length blk.code ≡ suc n = omega (arith, order sec) in
      rw whole (steps-enter n s at (omega (arith, sec.entry_outside)))

  enter :
      (es : List Event) (s : State)
      → s.ip ≡ 0
      → (t : State) × Ends (inputs s.regs) s.mem s.area es s t
  unfolding run
  enter [] s at =
      let u : State = record s { ip = abort_of blk } in
      let fin = finish-enter s at in
      (
        s,
        record {
          runs = refl;
          ended = ap (λ q. q.ip) fin ∙ finish-end sec u (omega arith) (omega (arith, order sec));
          linear =
              now (ap (λ q. q.mem) fin ∙ words sec u refl refl)
                (ap (attempt blk) fin ∙ outcome sec u refl refl);
        },
      )
  enter (tick ∷ es) s at =
      let u : State = record s { ip = abort_of blk } in
      let (t, e) = linearize es 0 (inputs s.regs) u refl refl in
      (
        t,
        record {
          runs =
              subst (λ q. run k desc blk es q ≡ some t)
                (steps-zero desc blk sec.checked u ∙ sym (sec.enters s at)) e.runs;
          ended = e.ended;
          linear = later e.linear;
        },
      )
  enter (preempt g a ∷ es) s at =
      let out =
        interrupt-outside k desc blk g a s
          (in_cs-before k desc blk s.ip (omega (arith, order sec))) in
      let (t, e) = enter es (share g a s) at in
      (
        t,
        record { runs = rw (run, out) e.runs; ended = e.ended; linear = retry (inl refl) e.linear },
      )

  -- A call of the block, however it is interrupted, is never killed, reaches the end of the block, and
  -- does the operation at one instant.
  pub call-Linearized :
      (es : List Event) (s : State)
      → s.ip ≡ 0
      → (t : State) × (call k desc blk es s ≡ some t)
        × (t.ip ≡ length blk.code)
        × Linearized (op s) (Scratch blk s.regs) t.mem (attempt blk t) es s.mem s.area
  unfolding call
  call-Linearized es s at =
      let (t, e) = enter es s at in (finish desc blk t, rw e.runs refl, e.ended, e.linear)
