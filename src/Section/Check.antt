-- ===== src/Section/Check.antt =====
-- A check of the lines of a block: jumps lead forward out of the critical section, operands that are
-- inputs are not written, only the last line of the section stores (but for the scratch store to
-- `side`), and the lines around the section touch registers alone.
use rseq_rs.Base.{
  ℕ, suc, Bool, true, false, ◌&&◌, ◌||◌, not, List, [], ◌∷◌, leb, ltb, ◌==◌, if◌then◌else◌, length,
}
use rseq_rs.Machine.{
  Reg, number, Insn, label, jmp, jne, je, lea_cs, adrp_cs, add_lo12_cs, store_cs, load_id, cmp_32,
  cmp, load, store, xadd, mov, mov_imm, xor_self, mov_xzr, add, add_3, Block, find_label,
}
use rseq_rs.Kernel.{start_of, commit_of, abort_of}

-- `in(reg)` operands
abbrev pub is_input : Reg → Bool
is_input r = ltb (number r) 13

abbrev is_output : Reg → Bool
is_output r = not (is_input r)

-- The registers that a line writes are outputs.
abbrev pub keeps_inputs : Insn → Bool
keeps_inputs (lea_cs d) = is_output d
keeps_inputs (adrp_cs d) = is_output d
keeps_inputs (add_lo12_cs d) = is_output d
keeps_inputs (load_id d) = is_output d
keeps_inputs (load d a) = is_output d
keeps_inputs (xadd a r) = is_output r
keeps_inputs (mov d r) = is_output d
keeps_inputs (mov_imm d k) = is_output d
keeps_inputs (xor_self d) = is_output d
keeps_inputs (mov_xzr d) = is_output d
keeps_inputs (add d r) = is_output d
keeps_inputs (add_3 d a b) = is_output d
keeps_inputs _ = true

-- The target of a jump at position `p` lies behind `p`, at `lo` or later.
abbrev target_ok : List Insn → ℕ → ℕ → ℕ → Bool
target_ok code lo p l = ltb p (find_label code l) && leb lo (find_label code l)

-- Straight-line code over registers.
abbrev pub is_plain : Insn → Bool
is_plain (label k) = true
is_plain (lea_cs d) = true
is_plain (adrp_cs d) = true
is_plain (add_lo12_cs d) = true
is_plain (mov d r) = true
is_plain (mov_imm d k) = true
is_plain (xor_self d) = true
is_plain (mov_xzr d) = true
is_plain _ = false

-- A line of the section before the last: it may read, compare, jump to `lo` or later, and store
-- `side_new` to `side`.
abbrev pub is_scratch : List Insn → ℕ → ℕ → Insn → Bool
is_scratch code lo p (label k) = true
is_scratch code lo p (jne l) = target_ok code lo p l
is_scratch code lo p (je l) = target_ok code lo p l
is_scratch code lo p (load_id d) = true
is_scratch code lo p (cmp_32 a b) = true
is_scratch code lo p (cmp a b) = true
is_scratch code lo p (load d a) = true
is_scratch code lo p (store a r) =
    (number a == number Reg.side) && (number r == number Reg.side_new)
is_scratch code lo p (mov d r) = true
is_scratch code lo p (add d r) = true
is_scratch code lo p (add_3 d a b) = true
is_scratch _ _ _ _ = false

-- The block has a store to `side`.
abbrev pub is_side_store : Insn → Bool
is_side_store (store a r) = number a == number Reg.side
is_side_store _ = false

abbrev pub stores_side : List Insn → Bool
stores_side [] = false
stores_side (i ∷ is) = is_side_store i || stores_side is

abbrev pub is_commit : Insn → Bool
is_commit (store a r) = true
is_commit (xadd a r) = true
is_commit _ = false

abbrev pub is_epilogue : List Insn → ℕ → ℕ → Insn → Bool
is_epilogue code lo p (jmp l) = target_ok code lo p l
is_epilogue code lo p i = is_plain i

abbrev pub is_arming : Insn → Bool
is_arming (store_cs d) = true
is_arming _ = false

-- Line `i` at position `p` of a block whose section is [start, commit).
unfoldable pub line_ok : List Insn → (start commit p : ℕ) → Insn → Bool
line_ok code start commit p i =
    keeps_inputs i
    && (if ltb (suc p) start
        then is_plain i
        else if suc p == start
        then is_arming i
        else if ltb (suc p) commit
        then is_scratch code commit p i
        else if suc p == commit
        then is_commit i
        else is_epilogue code commit p i)

-- Every line from `from` on.
unfoldable pub lines_ok : List Insn → (start commit from p : ℕ) → List Insn → Bool
lines_ok code start commit from p [] = true
lines_ok code start commit from p (i ∷ is) =
    (ltb p from || line_ok code start commit p i) && lines_ok code start commit from (suc p) is

unfoldable pub is_restartable : Block → Bool
unfolding lines_ok line_ok find_label
is_restartable blk =
    lines_ok blk.code (start_of blk) (commit_of blk) (abort_of blk) 0 blk.code
    && (ltb (abort_of blk) (start_of blk)
        && (ltb (start_of blk) (commit_of blk) && leb (commit_of blk) (length blk.code)))
