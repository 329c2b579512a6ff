-- ===== src/Section/Step.antt =====
-- One step of a restartable block, by the place of the line: in front of the critical section, at its
-- first store, inside it, at the commit, and behind it.
use rseq_rs.Base.{
  ℕ, suc, ◌≤◌, ◌<◌, ◌≡◌, refl, Bool, true, ◌&&◌, some, List, arith, ltb, leb, ◌==◌, if◌then◌else◌,
  length, get_elem?,
}
use native.Mathlib.Decide.{dec_lt}
use rseq_rs.Abi.{Area}
use rseq_rs.Machine.{Reg, Insn, Block, State, Mem, exec, step}
use rseq_rs.Kernel.{start_of, commit_of, abort_of}
use rseq_rs.Section.Check.{
  is_input, keeps_inputs, is_plain, is_scratch, is_commit, is_epilogue, is_arming, line_ok,
  is_restartable,
}
use rseq_rs.Section.Lines.{get_elem?-none, get_elem?-some, and-left, and-right, line_ok-get}
use rseq_rs.Section.Exec.{
  exec-input, exec-plain, exec-arming, exec-commit, exec-Scratch, exec-epilogue, share, Scratch,
  Ahead,
}

places_of_tests :
    (b : Bool) (x y z : ℕ) {w : ℕ}
    → (b && (ltb x y && (ltb y z && leb z w))) ≡ true
    → (x < y) × (y < z) × (z ≤ w)
places_of_tests b x y z h = ground arith

lines_of_tests : (b c : Bool) → (b && c) ≡ true → b ≡ true
lines_of_tests = and-left

-- A ladder of tests on the place of a line, with a Boolean on each rung.
abbrev ladder : (st co p : ℕ) (a b c d e : Bool) → Bool
ladder st co p a b c d e =
    if ltb (suc p) st
    then a
    else if suc p == st
    then b
    else if ltb (suc p) co
    then c
    else if suc p == co
    then d
    else e

module _ (st co p : ℕ) (a b c d e : Bool) (h : ladder st co p a b c d e ≡ true) where
  ladder-before : suc p < st → a ≡ true
  ladder-before lt = ground arith

  ladder-arming : suc p ≡ st → b ≡ true
  ladder-arming eq = ground arith

  ladder-inside : st ≤ p → suc p < co → c ≡ true
  ladder-inside le lt = ground arith

  ladder-commit : st ≤ p → suc p ≡ co → d ≡ true
  ladder-commit le eq = ground arith

  ladder-behind : st ≤ p → co ≤ p → e ≡ true
  ladder-behind le lt = ground arith

-- `line_ok` by the place of the line.
module _ (code : List Insn) (st co p : ℕ) (i : Insn) (h : line_ok code st co p i ≡ true) where
  abbrev Rung : Type 0
  Rung =
      ladder st co p (is_plain i) (is_arming i) (is_scratch code co p i) (is_commit i)
        (is_epilogue code co p i)
      ≡ true

  rung : Rung
  unfolding line_ok
  rung = and-right (keeps_inputs i) _ h

  pub line_ok-inputs : keeps_inputs i ≡ true
  unfolding line_ok
  line_ok-inputs = and-left (keeps_inputs i) _ h

  pub line_ok-before : suc p < st → is_plain i ≡ true
  line_ok-before lt = ladder-before st co p _ _ _ _ _ rung lt

  pub line_ok-arming : suc p ≡ st → is_arming i ≡ true
  line_ok-arming eq = ladder-arming st co p _ _ _ _ _ rung eq

  pub line_ok-inside : st ≤ p → suc p < co → is_scratch code co p i ≡ true
  line_ok-inside le lt = ladder-inside st co p _ _ _ _ _ rung le lt

  pub line_ok-commit : st ≤ p → suc p ≡ co → is_commit i ≡ true
  line_ok-commit le eq = ladder-commit st co p _ _ _ _ _ rung le eq

  pub line_ok-behind : st ≤ p → co ≤ p → is_epilogue code co p i ≡ true
  line_ok-behind le lt = ladder-behind st co p _ _ _ _ _ rung le lt

module _ (desc : ℕ) (blk : Block) where
  -- The places of the block.
  abbrev pub st : ℕ
  st = start_of blk

  abbrev pub co : ℕ
  co = commit_of blk

  abbrev pub ab : ℕ
  ab = abort_of blk

  abbrev pub end : ℕ
  end = length blk.code

  pub places : is_restartable blk ≡ true → (ab < st) × (st < co) × (co ≤ end)
  unfolding is_restartable
  places ok = places_of_tests _ _ _ _ ok

  pub step-end : (s : State) → end ≤ s.ip → step desc blk s ≡ s
  unfolding step
  step-end s h = rw (step, get_elem?-none blk.code s.ip h) refl

  -- The line at position `p`.
  pub record Line (p : ℕ) : Type 0 where
    pub insn : Insn
    pub listed : get_elem? blk.code p ≡ some insn
    pub fetched : (t : State) → t.ip ≡ p → step desc blk t ≡ exec desc blk insn t
    pub fine : line_ok blk.code st co p insn ≡ true

  pub step-get :
      (s : State) {i : Insn}
      → get_elem? blk.code s.ip ≡ some i
      → step desc blk s ≡ exec desc blk i s
  unfolding step
  step-get s e = rw (step, e) refl

  pub Line-at : is_restartable blk ≡ true → (p : ℕ) → ab ≤ p → p < end → Line p
  unfolding is_restartable
  Line-at ok p le lt =
      let (i, e) = get_elem?-some blk.code p lt in
      record {
        insn = i;
        listed = e;
        fetched = λ t at. step-get t (rw at e);
        fine =
            line_ok-get blk.code blk.code st co ab 0 p p (lines_of_tests _ _ ok) e le (omega arith);
      }

  module _ (ok : is_restartable blk ≡ true) (s : State) where
    pub step-inputs :
        ab ≤ s.ip → (r : Reg) → is_input r ≡ true → (step desc blk s).regs r ≡ s.regs r
    step-inputs le r hr = elim (dec_lt s.ip end) [
      | yes lt ↦
          let l = Line-at ok s.ip le lt in
          rw (l.fetched s refl)
            (exec-input desc blk l.insn s r (line_ok-inputs _ _ _ _ _ l.fine) hr)
      | no out ↦ rw (step-end s (omega arith)) refl
    ]

    -- In front of the section a line neither sees nor changes what is shared.
    pub step-before :
        ab ≤ s.ip
        → suc s.ip < st
        → (g : Mem → Mem) (a : Area)
        → (step desc blk (share g a s) ≡ share g a (step desc blk s))
          × ((step desc blk s).ip ≡ suc s.ip)
          × ((step desc blk s).mem ≡ s.mem)
    step-before le lt g a =
        let (p, q, r) = places ok in
        let l = Line-at ok s.ip le (omega arith) in
        let f = exec-plain desc blk l.insn s g a (line_ok-before _ _ _ _ _ l.fine lt) in
        rw (l.fetched s refl, l.fetched (share g a s) refl) (f.0, f.1, f.2)

    pub step-arming :
        ab ≤ s.ip
        → suc s.ip ≡ st
        → ((step desc blk s).ip ≡ suc s.ip) × ((step desc blk s).mem ≡ s.mem)
    step-arming le eq =
        let (p, q, r) = places ok in
        let l = Line-at ok s.ip le (omega arith) in
        rw (l.fetched s refl) (exec-arming desc blk l.insn s (line_ok-arming _ _ _ _ _ l.fine eq))

    pub step-inside :
        st ≤ s.ip
        → suc s.ip < co
        → Ahead blk s.ip co (step desc blk s).ip
          × ((step desc blk s).area ≡ s.area)
          × Scratch blk s.regs s.mem (step desc blk s).mem
    step-inside le lt =
        let (p, q, r) = places ok in
        let l = Line-at ok s.ip (omega arith) (omega arith) in
        rw (l.fetched s refl) (
          exec-Scratch desc blk s.ip s refl co l.insn l.listed
            (line_ok-inside _ _ _ _ _ l.fine le lt))

    pub step-commit : st ≤ s.ip → suc s.ip ≡ co → (step desc blk s).ip ≡ suc s.ip
    step-commit le eq =
        let (p, q, r) = places ok in
        let l = Line-at ok s.ip (omega arith) (omega arith) in
        rw (l.fetched s refl)
          (exec-commit desc blk s.ip s refl l.insn (line_ok-commit _ _ _ _ _ l.fine le eq))

    -- Behind the section a line neither sees nor changes what is shared.
    pub step-behind :
        co ≤ s.ip
        → s.ip < end
        → (g : Mem → Mem) (a : Area)
        → Ahead blk s.ip co (step desc blk s).ip
          × (step desc blk (share g a s) ≡ share g a (step desc blk s))
          × ((step desc blk s).mem ≡ s.mem)
    step-behind le lt g a =
        let (p, q, r) = places ok in
        let l = Line-at ok s.ip (omega arith) lt in
        let f =
          exec-epilogue desc blk s.ip s refl co l.insn g a
            (line_ok-behind _ _ _ _ _ l.fine (omega arith) le) in
        rw (l.fetched s refl, l.fetched (share g a s) refl) f

    -- Every line leads on, and not past the end.
    pub step-forward :
        ab ≤ s.ip → s.ip < end → (s.ip < (step desc blk s).ip) × ((step desc blk s).ip ≤ end)
    step-forward le lt = elim (dec_lt (suc s.ip) st) [
      | yes before ↦ let f = step-before le before (λ m. m) s.area in omega (arith, places ok)
      | no n1 ↦ elim (dec_lt s.ip st) [
        | yes here ↦ let f = step-arming le (omega arith) in omega (arith, places ok)
        | no n2 ↦ elim (dec_lt (suc s.ip) co) [
          | yes inside ↦ let f = step-inside (omega arith) inside in omega (arith, places ok)
          | no n3 ↦ elim (dec_lt s.ip co) [
            | yes here ↦ let f = step-commit (omega arith) (omega arith) in omega (arith, places ok)
            | no n4 ↦
                let f = step-behind (omega arith) lt (λ m. m) s.area in omega (arith, places ok)
          ]
        ]
      ]
    ]
