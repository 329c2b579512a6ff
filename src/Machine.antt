-- ===== src/Machine.antt =====
-- The instructions of the `asm!` blocks of src/x86_64.rs and src/aarch64.rs, the state of a thread that
-- executes them, and one step of it.
pub mod Memory
use rseq_rs.Base.{
  ℕ, zero, suc, ◌+◌, ◌*◌, ◌/◌, ◌%◌, ◌^◌, Bool, true, none, some, List, [], ◌∷◌, ◌==◌, if◌then◌else◌,
  get_elem?,
}
use rseq_rs.Abi.{Area, field_at}
use rseq_rs.Attempt.{Attempt, from_status}

-- The named operands of the blocks. Each has a register of its own.
pub data Reg : Type 0 where
  rseq word id expect new side side_new other other_expect expect_not offset count ptr : Reg
  got tmp current status other_val chase base slot sum prev : Reg

abbrev pub number : Reg → ℕ
number rseq = 0
number word = 1
number id = 2
number expect = 3
number new = 4
number side = 5
number side_new = 6
number other = 7
number other_expect = 8
number expect_not = 9
number offset = 10
number count = 11
number ptr = 12
number got = 13
number tmp = 14
number current = 15
number status = 16
number other_val = 17
number chase = 18
number base = 19
number slot = 20
number sum = 21
number prev = 22

-- One line of a block. Two mnemonics with the same effect share a constructor.
pub data Insn : Type 0 where
  label : ℕ → Insn  -- `12:`
  sig : ℕ → Insn  -- `.long {sig}`, `.inst {sig}`
  jmp : ℕ → Insn  -- `jmp 17f`, `b 17f`
  jne : ℕ → Insn  -- `jne 19f`, `b.ne 19f`
  je : ℕ → Insn  -- `je 44f`, `b.eq 44f`
  lea_cs : Reg → Insn  -- `lea {tmp}, [rip + 99b]`
  adrp_cs : Reg → Insn  -- `adrp {tmp}, 99b`
  add_lo12_cs : Reg → Insn  -- `add {tmp}, {tmp}, :lo12:99b`
  store_cs : Reg → Insn  -- `mov qword ptr [{rseq} + {cs_off}], {tmp}`, `str {tmp}, [{rseq}, #{cs_off}]`
  load_id : Reg → Insn  -- `mov {got:e}, dword ptr [{rseq} + {id_off}]`, `ldr {got:w}, [{rseq}, #{id_off}]`
  cmp_32 : Reg → Reg → Insn  -- `cmp {got:e}, {id:e}`
  cmp : Reg → Reg → Insn  -- `cmp {current}, {expect}`
  load : Reg → Reg → Insn  -- `mov {d}, qword ptr [{a}]`, `ldr {d}, [{a}]`
  store : Reg → Reg → Insn  -- `mov qword ptr [{a}], {s}`, `str {s}, [{a}]`
  xadd : Reg → Reg → Insn  -- `xadd qword ptr [{a}], {s}`
  mov : Reg → Reg → Insn  -- `mov {d}, {s}`
  mov_imm : Reg → ℕ → Insn  -- `mov {d:e}, 1`, `mov {d}, #1`
  xor_self : Reg → Insn  -- `xor {d:e}, {d:e}`
  mov_xzr : Reg → Insn  -- `mov {d}, xzr`
  add : Reg → Reg → Insn  -- `add {d}, {s}`
  add_3 : Reg → Reg → Reg → Insn  -- `add {d}, {a}, {b}`

abbrev pub Mem : Type 0
Mem = ℕ → ℕ

abbrev pub write : Mem → ℕ → ℕ → Mem
write m a v b = if a == b then v else m b

-- A thread inside a block: its registers and zero flag, the position of the next line, and what it
-- shares: the words, and its own area.
pub record State : Type 0 where
  pub ip : ℕ
  pub zf : Bool
  pub regs : Reg → ℕ
  pub mem : Mem
  pub area : Area

-- An `asm!` block: its lines, the labels that its descriptor names, the offset of the index, and the
-- register that holds the value next to `status` when it ends.
pub record Block : Type 0 where
  pub code : List Insn
  pub start_label : ℕ  -- `.quad 12f`
  pub commit_label : ℕ  -- `.quad (16f - 12f)`
  pub abort_label : ℕ  -- `.quad 17f`
  pub id_off : ℕ
  pub value : Reg

-- The position of a label; past the end of the block if it is missing.
unfoldable pub find_label : List Insn → ℕ → ℕ
find_label [] l = 0
find_label (label k ∷ is) l = if k == l then 0 else suc (find_label is l)
find_label (_ ∷ is) l = suc (find_label is l)

abbrev pub set_reg : (Reg → ℕ) → Reg → ℕ → Reg → ℕ
set_reg f r v q = if number r == number q then v else f q

-- 64-bit wrap-around
abbrev pub usize : ℕ → ℕ
usize n = n % 2 ^ 64

-- `d` receives `v`, and the next line follows.
abbrev pub put : State → Reg → ℕ → State
put s d v = record s { ip = suc s.ip; regs = set_reg s.regs d v }

-- `desc` is the address of the block's descriptor.
unfoldable pub exec : (desc : ℕ) → Block → Insn → State → State
unfolding find_label field_at
exec desc blk (label k) s = record s { ip = suc s.ip }
exec desc blk (sig k) s = s
exec desc blk (jmp l) s = record s { ip = find_label blk.code l }
exec desc blk (jne l) s = record s { ip = if s.zf then suc s.ip else find_label blk.code l }
exec desc blk (je l) s = record s { ip = if s.zf then find_label blk.code l else suc s.ip }
exec desc blk (lea_cs d) s = put s d desc
exec desc blk (adrp_cs d) s = put s d (desc / 4096 * 4096)
exec desc blk (add_lo12_cs d) s = put s d (usize (s.regs d + desc % 4096))
exec desc blk (store_cs r) s = record s {
  ip = suc s.ip;
  area = record s.area { rseq_cs = s.regs r };
}
exec desc blk (load_id d) s = put s d (field_at s.area blk.id_off % 2 ^ 32)
exec desc blk (cmp_32 a b) s = record s {
  ip = suc s.ip;
  zf = s.regs a % 2 ^ 32 == s.regs b % 2 ^ 32;
}
exec desc blk (cmp a b) s = record s { ip = suc s.ip; zf = s.regs a == s.regs b }
exec desc blk (load d a) s = put s d (s.mem (s.regs a))
exec desc blk (store a r) s = record s { ip = suc s.ip; mem = write s.mem (s.regs a) (s.regs r) }
exec desc blk (xadd a r) s =
    let old = s.mem (s.regs a) in
    let new_value = usize (old + s.regs r) in
    record s {
      ip = suc s.ip;
      zf = new_value == 0;
      regs = set_reg s.regs r old;
      mem = write s.mem (s.regs a) new_value;
    }
exec desc blk (mov d r) s = put s d (s.regs r)
exec desc blk (mov_imm d k) s = put s d k
exec desc blk (xor_self d) s = record s { ip = suc s.ip; zf = true; regs = set_reg s.regs d 0 }
exec desc blk (mov_xzr d) s = put s d 0
exec desc blk (add d r) s =
    let total = usize (s.regs d + s.regs r) in
    record s { ip = suc s.ip; zf = total == 0; regs = set_reg s.regs d total }
exec desc blk (add_3 d a b) s = put s d (usize (s.regs a + s.regs b))

-- One line. Past the last line the block is left, and the state stays.
unfoldable pub step : ℕ → Block → State → State
unfolding exec
step desc blk s = elim (get_elem? blk.code s.ip) [ none ↦ s | some i ↦ exec desc blk i s ]

unfoldable pub steps : ℕ → Block → ℕ → State → State
unfolding step
steps desc blk zero s = s
steps desc blk (suc n) s = steps desc blk n (step desc blk s)

-- `Attempt::from_status(status, current)` behind the block
unfoldable pub attempt : Block → State → Attempt
unfolding from_status
attempt blk s = from_status (s.regs status) (s.regs blk.value)
