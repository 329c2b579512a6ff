-- ===== src/Section/Foreign.antt =====
-- What other processors store while a direct block has not passed its commit label.
use rseq_rs.Base.{ℕ, zero, suc, ◌<◌, ◌≡◌, refl, sym, ap, ◌∙◌, true, inl, inr, arith}
use rseq_rs.Machine.{Reg, Block, State, Mem, step, steps}
use rseq_rs.Kernel.{Kernel, commit_of, abort_of}
use rseq_rs.Section.Runs.{step-ip, steps-ip, steps-inputs, steps-suc, steps-Scratch}
use rseq_rs.Section.Linearized.{Spec}
use rseq_rs.Section.Interrupt.{IsSection}
use rseq_rs.Section.IndexTest.{steps-on_index}
use rseq_rs.Section.Direct.{IsDirect, with_words, on_index_of, step-with_words}

module _ {k : Kernel} {desc : ℕ} {blk : Block} {spec : Spec} (sec : IsSection k desc blk spec)
    (direct : IsDirect blk) where
  pub quiet-words :
      (j : ℕ) (f : State)
      → f.ip ≡ abort_of blk
      → (steps desc blk j f).ip < commit_of blk
      → (steps desc blk j f).mem ≡ f.mem
  quiet-words j f at lt = elim (steps-Scratch desc blk sec.checked j f (omega arith) lt) [
    | inl same ↦ same
    | inr (stored, words) ↦ let quiet = direct.quiet in absurd (cc)
  ]

  -- Before the commit, stores of others are as if they had been there from the beginning: on another
  -- index any stores, on the index of the block stores that its operands do not name.
  pub steps-with_words :
      (j : ℕ) (f : State) (m : Mem)
      → f.ip ≡ abort_of blk
      → (steps desc blk j f).ip < commit_of blk
      → (on_index_of blk f ≡ true
          → (r : Reg) → direct.reads r ≡ true
          → f.mem (f.regs r) ≡ m (f.regs r))
      → steps desc blk j (with_words m f) ≡ with_words m (steps desc blk j f)
  unfolding steps
  steps-with_words zero f m at lt sees = refl
  steps-with_words (suc j) f m at lt sees =
      let s = steps desc blk j f in
      let whole = steps-suc desc blk sec.checked j f in
      let next_lt : (step desc blk s).ip < commit_of blk =
        omega (arith, lt, ap (λ u. u.ip) whole) in
      let early = steps-ip desc blk sec.checked j f (omega arith) in
      let ahead = step-ip desc blk sec.checked s (omega arith) in
      let kept : s.mem ≡ f.mem = quiet-words j f at (omega arith) in
      let here = steps-with_words j f m at (omega arith) sees in
      steps-suc desc blk sec.checked j (with_words m f)
      ∙ (ap (step desc blk) here
          ∙ (step-with_words desc blk sec.checked direct s m (omega arith) next_lt (λ behind r h.
                let input = direct.operands_only r h in
                let own = steps-inputs desc blk sec.checked j f (omega arith) r input in
                let seen = sees (steps-on_index sec direct j f at behind (omega arith)) r h in
                ap (λ a. s.mem a) own ∙ (ap (λ m. m (f.regs r)) kept ∙ (seen ∙ ap m (sym own))))
              ∙ ap (with_words m) (sym whole)))
