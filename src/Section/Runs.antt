-- ===== src/Section/Runs.antt =====
-- Several steps of a restartable block: they reach the end, keep the inputs, and up to the commit they
-- leave the words alone but for the scratch store.
use native.Mathlib.Nat.{zero-add, suc-add}
use native.Mathlib.Decide.{dec_lt}
use mathlib.Core.Path.{fun_ext}
use rseq_rs.Base.{ℕ, zero, suc, ◌+◌, ◌≤◌, ◌<◌, ◌≡◌, refl, ap, ◌∙◌, true, inl, inr, arith}
use rseq_rs.Abi.{Area}
use rseq_rs.Machine.{Reg, Block, State, Mem, step, steps, write}
use rseq_rs.Section.Check.{is_input, is_restartable}
use rseq_rs.Section.Exec.{share, Scratch}
use rseq_rs.Section.Step.{
  st, co, ab, end, places, step-end, step-inputs, step-before, step-arming, step-inside,
  step-commit, step-behind, step-forward,
}

write-write : (m : Mem) (a v : ℕ) → write (write m a v) a v ≡ write m a v
write-write m a v = fun_ext λ b. ground arith

-- Scratch stores by the same registers add up to one.
Scratch-trans :
    (blk : Block) (r r' : Reg → ℕ) {m m' m'' : Mem}
    → r' Reg.side ≡ r Reg.side
    → r' Reg.side_new ≡ r Reg.side_new
    → Scratch blk r m m'
    → Scratch blk r' m' m''
    → Scratch blk r m m''
Scratch-trans blk r r' e f (inl p) (inl q) = inl (q ∙ p)
Scratch-trans blk r r' {m' = m'} e f (inl p) (inr (c, q)) = inr (c, q ∙ rw (e, f, p) refl)
Scratch-trans blk r r' e f (inr (c, p)) (inl q) = inr (c, q ∙ p)
Scratch-trans blk r r' {m = m} e f (inr (c, p)) (inr (d, q)) =
    inr (c, q ∙ rw (e, f, p) (write-write m (r Reg.side) (r Reg.side_new)))

module _ (desc : ℕ) (blk : Block) (ok : is_restartable blk ≡ true) where
  -- The step, and the place of the next line.
  pub step-ip : (s : State) → ab desc blk ≤ s.ip → s.ip ≤ (step desc blk s).ip
  step-ip s le = elim (dec_lt s.ip (end desc blk)) [
    | yes lt ↦ let f = step-forward desc blk ok s le lt in omega arith
    | no out ↦ rw (step-end desc blk s (omega arith)) (omega arith)
  ]

  pub steps-ip : (j : ℕ) (s : State) → ab desc blk ≤ s.ip → s.ip ≤ (steps desc blk j s).ip
  unfolding steps
  steps-ip zero s le = omega arith
  steps-ip (suc j) s le =
      let f = step-ip s le in let g = steps-ip j (step desc blk s) (omega arith) in omega arith

  pub steps-inputs :
      (j : ℕ) (s : State)
      → ab desc blk ≤ s.ip
      → (r : Reg) → is_input r ≡ true
      → (steps desc blk j s).regs r ≡ s.regs r
  unfolding steps
  steps-inputs zero s le r h = refl
  steps-inputs (suc j) s le r h =
      let f = step-ip s le in
      steps-inputs j (step desc blk s) (omega arith) r h ∙ step-inputs desc blk ok s le r h

  pub steps-out : (j : ℕ) (s : State) → end desc blk ≤ s.ip → steps desc blk j s ≡ s
  unfolding steps
  steps-out zero s h = refl
  steps-out (suc j) s h = ap (steps desc blk j) (step-end desc blk s h) ∙ steps-out j s h

  -- Enough steps reach the end.
  pub steps-end :
      (j : ℕ) (s : State)
      → ab desc blk ≤ s.ip
      → s.ip ≤ end desc blk
      → end desc blk ≤ s.ip + j
      → (steps desc blk j s).ip ≡ end desc blk
  unfolding steps
  steps-end zero s le bound h = omega arith
  steps-end (suc j) s le bound h = elim (dec_lt s.ip (end desc blk)) [
    | yes lt ↦
        let f = step-forward desc blk ok s le lt in
        steps-end j (step desc blk s) (omega arith) f.1 (omega arith)
    | no out ↦ rw (steps-out (suc j) s (omega arith)) (omega arith)
  ]

  -- A step that does not reach `co` was not the commit, and one in front of the section leads to the
  -- next line.
  step-next :
      (s : State) → ab desc blk ≤ s.ip → s.ip < end desc blk → suc s.ip ≤ (step desc blk s).ip
  step-next s le lt = (step-forward desc blk ok s le lt).0

  pub step-Scratch :
      (s : State)
      → ab desc blk ≤ s.ip
      → (step desc blk s).ip < co desc blk
      → Scratch blk s.regs s.mem (step desc blk s).mem
  step-Scratch s le lt = elim (dec_lt (suc s.ip) (st desc blk)) [
    | yes before ↦ inl (step-before desc blk ok s le before (λ m. m) s.area).2
    | no n1 ↦ elim (dec_lt s.ip (st desc blk)) [
      | yes here ↦ inl (step-arming desc blk ok s le (omega arith)).1
      | no n2 ↦ elim (dec_lt (suc s.ip) (co desc blk)) [
        | yes inside ↦ (step-inside desc blk ok s (omega arith) inside).2
        | no n3 ↦ absurd (
            let f =
              step-commit desc blk ok s (omega arith)
                (omega (arith, step-next s, step-ip s le, places desc blk ok)) in
            omega arith)
      ]
    ]
  ]

  -- Before the commit the words are as they were, but for the scratch store.
  pub steps-Scratch :
      (j : ℕ) (s : State)
      → ab desc blk ≤ s.ip
      → (steps desc blk j s).ip < co desc blk
      → Scratch blk s.regs s.mem (steps desc blk j s).mem
  unfolding steps
  steps-Scratch zero s le lt = inl refl
  steps-Scratch (suc j) s le lt =
      let f = step-ip s le in
      let g = steps-ip j (step desc blk s) (omega arith) in
      Scratch-trans blk s.regs (step desc blk s).regs (step-inputs desc blk ok s le Reg.side refl)
        (step-inputs desc blk ok s le Reg.side_new refl) (step-Scratch s le (omega arith))
        (steps-Scratch j (step desc blk s) (omega arith) lt)

  -- In front of the section an interruption commutes with the steps.
  pub steps-before :
      (j : ℕ) (s : State) (g : Mem → Mem) (a : Area)
      → ab desc blk ≤ s.ip
      → (steps desc blk j s).ip < st desc blk
      → (steps desc blk j (share g a s) ≡ share g a (steps desc blk j s))
        × ((steps desc blk j s).mem ≡ s.mem)
  unfolding steps
  steps-before zero s g a le lt = (refl, refl)
  steps-before (suc j) s g a le lt =
      let f = step-ip s le in
      let h = steps-ip j (step desc blk s) (omega arith) in
      let b =
        step-before desc blk ok s le (omega (arith, step-next s le, places desc blk ok)) g a in
      let r = steps-before j (step desc blk s) g a (omega arith) lt in
      (ap (steps desc blk j) b.0 ∙ r.0, r.1 ∙ b.2)

  -- Behind the section too, and there no word changes.
  pub steps-behind :
      (j : ℕ) (s : State) (g : Mem → Mem) (a : Area)
      → co desc blk ≤ s.ip
      → (steps desc blk j (share g a s) ≡ share g a (steps desc blk j s))
        × ((steps desc blk j s).mem ≡ s.mem)
  unfolding steps
  steps-behind zero s g a le = (refl, refl)
  steps-behind (suc j) s g a le = elim (dec_lt s.ip (end desc blk)) [
    | yes lt ↦
        let b = step-behind desc blk ok s le lt g a in
        let f = step-forward desc blk ok s (omega (arith, places desc blk ok)) lt in
        let r = steps-behind j (step desc blk s) g a (omega arith) in
        (ap (steps desc blk j) b.1 ∙ r.0, r.1 ∙ b.2)
    | no out ↦
        rw (steps-out (suc j) s (omega arith), steps-out (suc j) (share g a s) (omega arith))
          (refl, refl)
  ]

  -- Inside the section the area is left alone.
  pub steps-inside :
      (j : ℕ) (s : State)
      → st desc blk ≤ s.ip
      → (steps desc blk j s).ip < co desc blk
      → (steps desc blk j s).area ≡ s.area
  unfolding steps
  steps-inside zero s le lt = refl
  steps-inside (suc j) s le lt =
      let f = step-ip s (omega (arith, places desc blk ok)) in
      let h = steps-ip j (step desc blk s) (omega (arith, places desc blk ok)) in
      steps-inside j (step desc blk s) (omega arith) lt
      ∙ (step-inside desc blk ok s le (omega (arith, step-next s, places desc blk ok))).1

  pub steps-step :
      (j : ℕ) (s : State) → steps desc blk j (step desc blk s) ≡ step desc blk (steps desc blk j s)
  unfolding steps
  steps-step zero s = refl
  steps-step (suc j) s = steps-step j (step desc blk s)

  pub steps-steps :
      (i j : ℕ) (s : State) → steps desc blk j (steps desc blk i s) ≡ steps desc blk (i + j) s
  unfolding steps
  steps-steps zero j s = rw zero-add refl
  steps-steps (suc i) j s = steps-steps i j (step desc blk s) ∙ rw suc-add refl

  pub steps-bound :
      (j : ℕ) (s : State)
      → ab desc blk ≤ s.ip
      → s.ip ≤ end desc blk
      → (steps desc blk j s).ip ≤ end desc blk
  unfolding steps
  steps-bound zero s le bound = bound
  steps-bound (suc j) s le bound = elim (dec_lt s.ip (end desc blk)) [
    | yes lt ↦
        let f = step-forward desc blk ok s le lt in
        steps-bound j (step desc blk s) (omega arith) f.1
    | no out ↦ rw (steps-out (suc j) s (omega arith)) bound
  ]

  pub steps-suc :
      (j : ℕ) (s : State) → steps desc blk (suc j) s ≡ step desc blk (steps desc blk j s)
  unfolding steps
  steps-suc j s = steps-step j s

  pub steps-zero : (s : State) → steps desc blk 0 s ≡ s
  unfolding steps
  steps-zero s = refl
