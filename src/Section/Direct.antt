-- ===== src/Section/Direct.antt =====
-- Blocks whose loads stand at their operands, behind the test of the index: what happens to the words
-- elsewhere, or on another index, does not concern them.
use mathlib.Core.Path.{subst}
use native.Mathlib.Decide.{dec_lt}
use rseq_rs.Base.{
  ℕ, zero, suc, ◌+◌, ◌%◌, ◌^◌, ◌≤◌, ◌<◌, ◌≡◌, refl, sym, ap, ◌∙◌, Bool, true, false, ◌&&◌, some,
  List, [], ◌∷◌, ◌==◌, arith, length, get_elem?,
}
use rseq_rs.Abi.{Area, field_at}
use rseq_rs.Machine.{
  Reg, number, Insn, label, sig, jmp, jne, je, lea_cs, adrp_cs, add_lo12_cs, store_cs, load_id,
  cmp_32, cmp, load, store, xadd, mov, mov_imm, xor_self, mov_xzr, add, add_3, Block, State, Mem,
  exec, step,
}
use rseq_rs.Kernel.{start_of, commit_of, abort_of}
use rseq_rs.Section.Check.{
  is_input, is_plain, is_scratch, is_commit, is_arming, stores_side, is_restartable,
}
use rseq_rs.Section.Lines.{stores_side-get, and-left, and-right}
use rseq_rs.Section.Step.{
  Line-at, places, line_ok-before, line_ok-arming, line_ok-inside, step-forward,
}
use rseq_rs.Section.Runs.{step-ip}

abbrev load_ok : (Reg → Bool) → Insn → Bool
load_ok reads (load d a) = reads a
load_ok reads _ = true

abbrev loads_operands : (Reg → Bool) → List Insn → Bool
loads_operands reads [] = true
loads_operands reads (i ∷ is) = load_ok reads i && loads_operands reads is

-- The section begins with the test of the index, loads take their addresses from the operands `reads`, and
-- there is no scratch store.
pub record IsDirect (blk : Block) : Type 0 where
  pub got : Reg
  pub first : ℕ
  pub out : ℕ
  pub begins : get_elem? blk.code (start_of blk) ≡ some (label first)
  pub fetches : get_elem? blk.code (start_of blk + 1) ≡ some (load_id got)
  pub compares : get_elem? blk.code (start_of blk + 2) ≡ some (cmp_32 got Reg.id)
  pub leaves : get_elem? blk.code (start_of blk + 3) ≡ some (jne out)
  pub other_register : (number got == number Reg.id) ≡ false
  pub reads : Reg → Bool
  pub operands_only : (r : Reg) → reads r ≡ true → is_input r ≡ true
  pub addresses : loads_operands reads blk.code ≡ true
  pub quiet : stores_side blk.code ≡ false
  pub keeps_index :
      (a : Area) (v : ℕ) → field_at (record a { rseq_cs = v }) blk.id_off ≡ field_at a blk.id_off

-- The words are others.
abbrev pub with_words : Mem → State → State
with_words m s = record s { mem = m }

-- A load of the line gives the same in `m`.
abbrev pub LoadsSame : Insn → State → Mem → Type 0
LoadsSame (load d a) s m = s.mem (s.regs a) ≡ m (s.regs a)
LoadsSame i s m = s.mem ≡ s.mem

exec-with_words :
    (desc : ℕ) (blk : Block) (i : Insn) (s : State) (m : Mem)
    → is_commit i ≡ false
    → LoadsSame i s m
    → exec desc blk i (with_words m s) ≡ with_words m (exec desc blk i s)
unfolding exec
exec-with_words desc blk (load d a) s m h same = rw same refl
exec-with_words desc blk (store a r) s m h same = absurd (cc)
exec-with_words desc blk (xadd a r) s m h same = absurd (cc)
exec-with_words desc blk (label k) s m h same = refl
exec-with_words desc blk (sig k) s m h same = refl
exec-with_words desc blk (jmp l) s m h same = refl
exec-with_words desc blk (jne l) s m h same = refl
exec-with_words desc blk (je l) s m h same = refl
exec-with_words desc blk (lea_cs d) s m h same = refl
exec-with_words desc blk (adrp_cs d) s m h same = refl
exec-with_words desc blk (add_lo12_cs d) s m h same = refl
exec-with_words desc blk (store_cs d) s m h same = refl
exec-with_words desc blk (load_id d) s m h same = refl
exec-with_words desc blk (cmp_32 a b) s m h same = refl
exec-with_words desc blk (cmp a b) s m h same = refl
exec-with_words desc blk (mov d r) s m h same = refl
exec-with_words desc blk (mov_imm d k) s m h same = refl
exec-with_words desc blk (xor_self d) s m h same = refl
exec-with_words desc blk (mov_xzr d) s m h same = refl
exec-with_words desc blk (add d r) s m h same = refl
exec-with_words desc blk (add_3 d a b) s m h same = refl

loads_operands-get :
    (reads : Reg → Bool) (is : List Insn) (p : ℕ) {i : Insn}
    → loads_operands reads is ≡ true
    → get_elem? is p ≡ some i
    → load_ok reads i ≡ true
loads_operands-get reads [] p h e = cc
loads_operands-get reads (j ∷ is) zero {i} h e =
    let same : i ≡ j = cc in rw same (and-left (load_ok reads j) _ h)
loads_operands-get reads (j ∷ is) (suc p) h e =
    loads_operands-get reads is p (and-right (load_ok reads j) _ h) e

plain-commit : (i : Insn) → is_plain i ≡ true → is_commit i ≡ false
plain-commit (store a r) h = absurd (cc)
plain-commit (xadd a r) h = absurd (cc)
plain-commit i h = refl

plain-LoadsSame : (i : Insn) (s : State) (m : Mem) → is_plain i ≡ true → LoadsSame i s m
plain-LoadsSame (load d a) s m h = absurd (cc)
plain-LoadsSame i s m h = refl

arming-commit : (i : Insn) → is_arming i ≡ true → is_commit i ≡ false
arming-commit (store_cs d) h = refl
arming-commit i h = absurd (cc)

arming-LoadsSame : (i : Insn) (s : State) (m : Mem) → is_arming i ≡ true → LoadsSame i s m
arming-LoadsSame (load d a) s m h = absurd (cc)
arming-LoadsSame i s m h = refl

scratch-commit :
    (code : List Insn) (co p : ℕ) (i : Insn)
    → stores_side code ≡ false
    → get_elem? code p ≡ some i
    → is_scratch code co p i ≡ true
    → is_commit i ≡ false
scratch-commit code co p (store a r) q e h =
    let aside = and-left (number a == number Reg.side) (number r == number Reg.side_new) h in
    let stored = stores_side-get code p e aside in cc
scratch-commit code co p (xadd a r) q e h = absurd (cc)
scratch-commit code co p i q e h = refl

LoadsSame-of_address :
    (reads : Reg → Bool) (i : Insn) (s : State) (m : Mem)
    → load_ok reads i ≡ true
    → ((r : Reg) → reads r ≡ true → s.mem (s.regs r) ≡ m (s.regs r))
    → LoadsSame i s m
LoadsSame-of_address reads (load d a) s m ok same = same a ok
LoadsSame-of_address reads i s m ok same = refl

-- What the test of the index compares.
abbrev pub on_index_of : Block → State → Bool
on_index_of blk s = field_at s.area blk.id_off % 2 ^ 32 % 2 ^ 32 == s.regs Reg.id % 2 ^ 32

module _ (desc : ℕ) (blk : Block) (ok : is_restartable blk ≡ true) (direct : IsDirect blk) where
  -- The first four lines of the section hold no load.
  early-LoadsSame :
      (p : ℕ) (i : Insn) (s : State) (m : Mem)
      → start_of blk ≤ p
      → p < start_of blk + 4
      → get_elem? blk.code p ≡ some i
      → LoadsSame i s m
  early-LoadsSame p i s m le lt e = elim (dec_lt p (start_of blk + 1)) [
    | yes a ↦ known (label direct.first) (omega arith) direct.begins refl
    | no n1 ↦ elim (dec_lt p (start_of blk + 2)) [
      | yes a ↦ known (load_id direct.got) (omega arith) direct.fetches refl
      | no n2 ↦ elim (dec_lt p (start_of blk + 3)) [
        | yes a ↦ known (cmp_32 direct.got Reg.id) (omega arith) direct.compares refl
        | no n3 ↦ known (jne direct.out) (omega arith) direct.leaves refl
      ]
    ]
  ]
    where
      known :
          {q : ℕ} (j : Insn)
          → q ≡ p
          → get_elem? blk.code q ≡ some j
          → LoadsSame j s m
          → LoadsSame i s m
      known j at here same = let eq : j ≡ i = cc in subst (λ i. LoadsSame i s m) eq same

  pub step-with_words :
      (s : State) (m : Mem)
      → abort_of blk ≤ s.ip
      → (step desc blk s).ip < commit_of blk
      → (start_of blk + 4 ≤ s.ip
          → (r : Reg) → direct.reads r ≡ true
          → s.mem (s.regs r) ≡ m (s.regs r))
      → step desc blk (with_words m s) ≡ with_words m (step desc blk s)
  step-with_words s m le lt sees =
      let order = places desc blk ok in
      let stays = step-ip desc blk ok s le in
      let bound : s.ip < length blk.code = omega (arith, order, stays) in
      let ahead = step-forward desc blk ok s le bound in
      let l = Line-at desc blk ok s.ip le bound in
      let by_line : is_commit l.insn ≡ false
          → LoadsSame l.insn s m
          → step desc blk (with_words m s) ≡ with_words m (step desc blk s) =
        λ stores loads.
          l.fetched (with_words m s) refl
          ∙ (exec-with_words desc blk l.insn s m stores loads
              ∙ ap (with_words m) (sym (l.fetched s refl))) in
      elim (dec_lt (suc s.ip) (start_of blk)) [
        | yes before ↦
            let plain = line_ok-before _ _ _ _ _ l.fine before in
            by_line (plain-commit l.insn plain) (plain-LoadsSame l.insn s m plain)
        | no n1 ↦ elim (dec_lt s.ip (start_of blk)) [
          | yes here ↦
              let arming = line_ok-arming _ _ _ _ _ l.fine (omega arith) in
              by_line (arming-commit l.insn arming) (arming-LoadsSame l.insn s m arming)
          | no n2 ↦
              let scratch =
                line_ok-inside _ _ _ _ _ l.fine (omega arith) (omega (arith, ahead, order)) in
              by_line (scratch-commit blk.code _ s.ip l.insn direct.quiet l.listed scratch)
                (elim (dec_lt s.ip (start_of blk + 4)) [
                  | yes early ↦ early-LoadsSame s.ip l.insn s m (omega arith) early l.listed
                  | no n3 ↦
                      LoadsSame-of_address direct.reads l.insn s m
                        (loads_operands-get direct.reads blk.code s.ip direct.addresses l.listed)
                        (sees (omega arith))
                ])
        ]
      ]
