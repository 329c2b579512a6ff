-- ===== src/Section/IndexTest.antt =====
-- The test of the index at the head of a direct block: a thread behind it has passed it.
use mathlib.Core.Path.{subst}
use native.Mathlib.Decide.{dec_lt}
use rseq_rs.Base.{
  ℕ, zero, suc, ◌+◌, ◌-◌, ◌%◌, ◌^◌, ◌≤◌, ◌<◌, ◌≡◌, refl, ap, ◌∙◌, true, inl, inr, some, ◌==◌, ltb,
  if◌then◌else◌, arith, length, get_elem?, Bool-cases, ==-self, le_of_leb,
}
use rseq_rs.Abi.{Area, field_at}
use rseq_rs.Machine.{
  Reg, Insn, store_cs, number, label, jne, load_id, cmp_32, Block, find_label, State, exec, step,
  steps,
}
use rseq_rs.Kernel.{Kernel, start_of, commit_of, abort_of}
use rseq_rs.Section.Check.{is_arming, is_scratch, is_commit, is_epilogue}
use rseq_rs.Section.Lines.{and-right, get_elem?-lt}
use rseq_rs.Section.Exec.{exec-plain}
use rseq_rs.Section.Step.{
  Line-at, line_ok-before, line_ok-arming, line_ok-inside, line_ok-commit, line_ok-behind,
  step-forward, step-get, step-inside,
}
use rseq_rs.Section.Runs.{step-ip, steps-ip, steps-inputs, steps-suc, steps-steps}
use rseq_rs.Section.Linearized.{Spec}
use rseq_rs.Section.Interrupt.{IsSection}
use rseq_rs.Section.Settle.{order}
use rseq_rs.Section.Direct.{IsDirect, on_index_of}

module _ (desc : ℕ) (blk : Block) (direct : IsDirect blk) where
  at_line :
      (t : State) {q : ℕ} (i : Insn)
      → q ≡ t.ip
      → get_elem? blk.code q ≡ some i
      → step desc blk t ≡ exec desc blk i t
  at_line t i at here = step-get desc blk t (subst (λ q. get_elem? blk.code q ≡ some i) at here)

  -- The four lines of the test: where they lead, by the comparison.
  pub test-ip :
      (s : State)
      → s.ip ≡ start_of blk
      → ((steps desc blk 3 s).ip ≡ start_of blk + 3)
        × ((steps desc blk 4 s).ip
            ≡ (if on_index_of blk s then start_of blk + 4 else find_label blk.code direct.out))
  unfolding steps exec
  test-ip s at =
      let t₁ = exec desc blk (label direct.first) s in
      let t₂ = exec desc blk (load_id direct.got) t₁ in
      let t₃ = exec desc blk (cmp_32 direct.got Reg.id) t₂ in
      let t₄ = exec desc blk (jne direct.out) t₃ in
      let e₁ : step desc blk s ≡ t₁ = at_line s (label direct.first) (omega arith) direct.begins in
      let e₂ : step desc blk t₁ ≡ t₂ =
        at_line t₁ (load_id direct.got) (omega arith) direct.fetches in
      let e₃ : step desc blk t₂ ≡ t₃ =
        at_line t₂ (cmp_32 direct.got Reg.id) (omega arith) direct.compares in
      let e₄ : step desc blk t₃ ≡ t₄ = at_line t₃ (jne direct.out) (omega arith) direct.leaves in
      let three : steps desc blk 3 s ≡ t₃ =
        ap (λ u. step desc blk (step desc blk u)) e₁ ∙ (ap (step desc blk) e₂ ∙ e₃) in
      let next : suc (suc (suc (suc s.ip))) ≡ start_of blk + 4 = omega arith in
      let four : steps desc blk 4 s ≡ t₄ = ap (step desc blk) three ∙ e₄ in
      (
        ap (λ u. u.ip) three ∙ omega arith,
        ap (λ u. u.ip) four
            ∙ rw (==-self (number direct.got), direct.other_register)
                (ap (λ n. if on_index_of blk s then n else find_label blk.code direct.out) next),
      )

arming-index :
    (desc : ℕ) (blk : Block) (direct : IsDirect blk) (i : Insn) (s : State)
    → is_arming i ≡ true
    → field_at (exec desc blk i s).area blk.id_off ≡ field_at s.area blk.id_off
unfolding exec
arming-index desc blk direct (store_cs d) s h = direct.keeps_index s.area (s.regs d)
arming-index desc blk direct i s h = absurd (cc)

module _ {k : Kernel} {desc : ℕ} {blk : Block} {spec : Spec} (sec : IsSection k desc blk spec)
    (direct : IsDirect blk) where
  -- The index in the area stays as it was up to the commit.
  step-index :
      (s : State)
      → abort_of blk ≤ s.ip
      → (step desc blk s).ip < commit_of blk
      → field_at (step desc blk s).area blk.id_off ≡ field_at s.area blk.id_off
  step-index s le lt =
      let ahead = step-ip desc blk sec.checked s le in
      let bound : s.ip < length blk.code = omega (arith, order sec, ahead) in
      let l = Line-at desc blk sec.checked s.ip le bound in
      let field = λ (a : Area). field_at a blk.id_off in
      elim (dec_lt (suc s.ip) (start_of blk)) [
        | yes before ↦
            let plain = line_ok-before _ _ _ _ _ l.fine before in
            ap (λ u. field u.area) (l.fetched s refl)
            ∙ ap field (exec-plain desc blk l.insn s (λ m. m) s.area plain).3
        | no n1 ↦ elim (dec_lt s.ip (start_of blk)) [
          | yes here ↦
              ap (λ u. field u.area) (l.fetched s refl)
              ∙ arming-index desc blk direct l.insn s
                  (line_ok-arming _ _ _ _ _ l.fine (omega arith))
          | no n2 ↦
              let forward = step-forward desc blk sec.checked s le bound in
              ap field (step-inside desc blk sec.checked s (omega arith) (omega (arith, forward))).1
        ]
      ]

  steps-index :
      (j : ℕ) (f : State)
      → f.ip ≡ abort_of blk
      → (steps desc blk j f).ip < commit_of blk
      → field_at (steps desc blk j f).area blk.id_off ≡ field_at f.area blk.id_off
  unfolding steps
  steps-index zero f at lt = refl
  steps-index (suc j) f at lt =
      let s = steps desc blk j f in
      let whole = steps-suc desc blk sec.checked j f in
      let early = steps-ip desc blk sec.checked j f (omega arith) in
      let ahead = step-ip desc blk sec.checked s (omega arith) in
      let next_lt : (step desc blk s).ip < commit_of blk =
        omega (arith, lt, ap (λ u. u.ip) whole) in
      ap (λ u. field_at u.area blk.id_off) whole
      ∙ (step-index s (omega arith) next_lt ∙ steps-index j f at (omega arith))

  steps-order :
      (i j : ℕ) (f : State)
      → f.ip ≡ abort_of blk
      → i ≤ j
      → (steps desc blk i f).ip ≤ (steps desc blk j f).ip
  steps-order i j f at le =
      let start = steps-ip desc blk sec.checked i f (omega arith) in
      let more = steps-ip desc blk sec.checked (j - i) (steps desc blk i f) (omega arith) in
      let sum : i + (j - i) ≡ j = omega arith in
      let same : steps desc blk (j - i) (steps desc blk i f) ≡ steps desc blk j f =
        steps-steps desc blk sec.checked i (j - i) f ∙ ap (λ n. steps desc blk n f) sum in
      omega (arith, ap (λ u. u.ip) same)

  -- Another index leads out of the section.
  out-commit : commit_of blk ≤ find_label blk.code direct.out
  out-commit =
      let p = start_of blk + 3 in
      let places = order sec in
      let l =
        Line-at desc blk sec.checked p (omega (arith, places))
          (get_elem?-lt blk.code p direct.leaves) in
      let listed = l.listed in
      let leaves = direct.leaves in
      let own : l.insn ≡ jne direct.out = cc in
      elim (dec_lt (suc p) (commit_of blk)) [
        | yes inside ↦
            let jumps : is_scratch blk.code (commit_of blk) p (jne direct.out) ≡ true =
              subst (λ i. is_scratch blk.code (commit_of blk) p i ≡ true) own
                (line_ok-inside _ _ _ _ _ l.fine (omega arith) inside) in
            le_of_leb _ _ (and-right (ltb p (find_label blk.code direct.out)) _ jumps)
        | no n1 ↦ elim (dec_lt p (commit_of blk)) [
          | yes last ↦
              let stores : is_commit (jne direct.out) ≡ true =
                subst (λ i. is_commit i ≡ true) own
                  (line_ok-commit _ _ _ _ _ l.fine (omega arith) (omega arith)) in
              absurd (cc)
          | no n2 ↦
              let plain : is_epilogue blk.code (commit_of blk) p (jne direct.out) ≡ true =
                subst (λ i. is_epilogue blk.code (commit_of blk) p i ≡ true) own
                  (line_ok-behind _ _ _ _ _ l.fine (omega arith) (omega arith)) in
              absurd (cc)
        ]
      ]

  -- A state behind the test has passed it.
  pub steps-on_index :
      (j : ℕ) (f : State)
      → f.ip ≡ abort_of blk
      → start_of blk + 4 ≤ (steps desc blk j f).ip
      → (steps desc blk j f).ip < commit_of blk
      → on_index_of blk f ≡ true
  steps-on_index j f at le lt =
      let n = start_of blk - abort_of blk in
      let s = steps desc blk n f in
      let (there, own) = sec.arms f at in
      let (third, fourth) = test-ip desc blk direct s there in
      let three = ap (λ u. u.ip) (steps-steps desc blk sec.checked n 3 f) in
      let four = ap (λ u. u.ip) (steps-steps desc blk sec.checked n 4 f) in
      let same : on_index_of blk s ≡ on_index_of blk f =
        ap (λ x. x % 2 ^ 32 % 2 ^ 32 == s.regs Reg.id % 2 ^ 32)
          (steps-index n f at (omega (arith, there, order sec)))
        ∙ ap (λ y. field_at f.area blk.id_off % 2 ^ 32 % 2 ^ 32 == y % 2 ^ 32)
            (steps-inputs desc blk sec.checked n f (omega arith) Reg.id refl) in
      elim (Bool-cases (on_index_of blk f)) [
        | inl passed ↦ passed
        | inr other ↦ elim (dec_lt j (n + 4)) [
          | yes early ↦
              absurd (omega (arith, steps-order j (n + 3) f at (omega arith), three, third))
          | no late ↦
              let left : (steps desc blk 4 s).ip ≡ find_label blk.code direct.out =
                fourth ∙ rw (same, other) refl in
              absurd
                (omega (arith, steps-order (n + 4) j f at (omega arith), four, left, out-commit))
        ]
      ]
