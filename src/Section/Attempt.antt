-- ===== src/Section/Attempt.antt =====
-- An undisturbed run of a block that has come some way: where it is, what it has armed, and what the rest
-- of it does.
use mathlib.Core.Path.{fun_ext}
use native.Mathlib.Nat.{add_comm}
use mathlib.Core.Path.{subst}
use native.Mathlib.Decide.{dec_lt}
use rseq_rs.Base.{
  ℕ, zero, suc, ◌+◌, ◌-◌, ◌≤◌, ◌<◌, ◌≡◌, refl, sym, ap, ◌∙◌, inl, inr, arith, length, Bool-cases,
}
use rseq_rs.Machine.{Reg, Block, State, step, steps, attempt}
use rseq_rs.Kernel.{Kernel, start_of, commit_of, abort_of, finish}
use rseq_rs.Section.Check.{is_input}
use rseq_rs.Section.Step.{step-forward}
use rseq_rs.Section.Runs.{steps-ip, steps-inputs, steps-inside, steps-steps, steps-out}
use rseq_rs.Section.Linearized.{inputs, Spec}
use rseq_rs.Section.Interrupt.{IsSection}
use rseq_rs.Section.Settle.{order, finish-end}

sum : (j n : ℕ) → j < n → n ≡ j + (n - j)
sum j n h = omega arith

module _ {k : Kernel} {desc : ℕ} {blk : Block} {spec : Spec} (sec : IsSection k desc blk spec) where
  -- Attempts are read off registers, so equal registers give equal attempts.
  pub attempt-regs : (t u : State) → t.regs ≡ u.regs → attempt blk t ≡ attempt blk u
  unfolding attempt
  attempt-regs t u e = rw e refl

  pub inputs-steps :
      (j : ℕ) (f : State) → f.ip ≡ abort_of blk → inputs (steps desc blk j f).regs ≡ inputs f.regs
  inputs-steps j f at = fun_ext λ q. elim (Bool-cases (is_input q)) [
    | inl own ↦ rw own (steps-inputs desc blk sec.checked j f (omega arith) q own)
    | inr other ↦ rw other refl
  ]

  pub finish-steps :
      (j : ℕ) (f : State)
      → f.ip ≡ abort_of blk
      → finish desc blk (steps desc blk j f) ≡ finish desc blk f
  unfolding finish
  finish-steps j f at =
      let n = length blk.code in
      let last = finish-end sec f (omega arith) (omega (arith, order sec)) in
      steps-steps desc blk sec.checked j n f
      ∙ (ap (λ i. steps desc blk i f) (add_comm j n)
          ∙ (sym (steps-steps desc blk sec.checked n j f)
              ∙ steps-out desc blk sec.checked j (steps desc blk n f) (omega (arith, last))))

  -- A position in the section is passed at the next step.
  passed :
      (j i : ℕ) (f : State)
      → f.ip ≡ abort_of blk
      → start_of blk ≤ (steps desc blk j f).ip
      → (steps desc blk j f).ip < commit_of blk
      → (steps desc blk (j + i) f).ip ≡ start_of blk
      → 0 < i
      → ⊥
  unfolding steps
  passed j zero f at le lt there h = elim h [ ]
  passed j (suc i) f at le lt there h =
      let s = steps desc blk j f in
      let ahead =
        (step-forward desc blk sec.checked s (omega (arith, order sec))
          (omega (arith, order sec))).0 in
      let more : (step desc blk s).ip ≤ (steps desc blk (suc i) s).ip =
        steps-ip desc blk sec.checked i (step desc blk s) (omega (arith, order sec)) in
      let split = ap (λ u. u.ip) (steps-steps desc blk sec.checked j (suc i) f) in
      omega (arith, split)

  pub armed-inside :
      (j : ℕ) (f : State)
      → f.ip ≡ abort_of blk
      → start_of blk ≤ (steps desc blk j f).ip
      → (steps desc blk j f).ip < commit_of blk
      → (steps desc blk j f).area.rseq_cs ≡ desc
  armed-inside j f at le lt =
      let n = start_of blk - abort_of blk in
      let (there, own) = sec.arms f at in
      elim (dec_lt j n) [
        | yes early ↦ absurd (
            passed j (n - j) f at le lt
              (subst (λ x. (steps desc blk x f).ip ≡ start_of blk) (sum j n early) there)
              (omega arith))
        | no n1 ↦
            let i = j - n in
            let same : n + i ≡ j = omega arith in
            let split : steps desc blk i (steps desc blk n f) ≡ steps desc blk j f =
              steps-steps desc blk sec.checked n i f ∙ ap (λ x. steps desc blk x f) same in
            let still =
              steps-inside desc blk sec.checked i (steps desc blk n f) (omega arith)
                (omega (arith, lt, ap (λ u. u.ip) split)) in
            ap (λ u. u.area.rseq_cs) (sym split) ∙ (ap (λ u. u.rseq_cs) still ∙ own)
      ]

  pub words :
      {r : Reg → ℕ} (f : State)
      → f.ip ≡ abort_of blk
      → inputs f.regs ≡ r
      → (finish desc blk f).mem ≡ (spec r f.mem f.area).0
  words f at ins = (sec.computes f at).0 ∙ ap (λ q. (spec q f.mem f.area).0) ins

  pub outcome :
      {r : Reg → ℕ} (f : State)
      → f.ip ≡ abort_of blk
      → inputs f.regs ≡ r
      → attempt blk (finish desc blk f) ≡ (spec r f.mem f.area).1
  outcome f at ins = (sec.computes f at).1 ∙ ap (λ q. (spec q f.mem f.area).1) ins
