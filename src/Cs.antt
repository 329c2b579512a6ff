-- ===== src/Cs.antt =====
-- The functions that the crate calls `cs`: those of src/x86_64.rs and src/aarch64.rs, each an `asm!` block
-- with its operands, and the stubs of src/fallback.rs. src/lib.rs chooses between them by the target.
use mathlib.Core.Option
use rseq_rs.Base.{ℕ, ◌+◌, ◌*◌, ◌^◌, Bool, Option, some, List}
use rseq_rs.Abi.{Area}
use rseq_rs.Attempt.{Attempt, abort}
use rseq_rs.Machine.{Reg, Mem, Block, attempt}
use rseq_rs.Kernel.{Kernel, Event, call}
use rseq_rs.X86_64
use rseq_rs.Aarch64

pub data Arch : Type 0 where
  x86_64 aarch64 : Arch

pub data Target : Type 0 where
  linux : Arch → Target
  other : Target

-- What a thread shares: the words, and its own area.
pub record World : Type 0 where
  pub mem : Mem
  pub area : Area

-- What a call finds and cannot choose: the kernel, the address of the descriptor, what the registers
-- and the flag hold that no operand sets, and how the call is interrupted.
pub record Call : Type 0 where
  pub kernel : Kernel
  pub desc : ℕ
  pub garbage : Reg → ℕ
  pub zf : Bool
  pub events : List Event

-- Runs a block with operands in its registers. `none` is SIGSEGV.
unfoldable pub enter : Call → Block → (Reg → ℕ) → World → Option (World × Attempt)
enter c blk regs s =
    Option.map (λ t. (record { mem = t.mem; area = t.area }, attempt blk t))
      (call c.kernel c.desc blk c.events
        (record { ip = 0; zf = c.zf; regs = regs; mem = s.mem; area = s.area }))

-- `id` is a u32: the upper half of its register holds anything.
abbrev pub id_register : Call → ℕ → ℕ
id_register c id = id + 2 ^ 32 * c.garbage Reg.id

abbrev pub compare_exchange_operands : Call → (area word id expect new : ℕ) → Reg → ℕ
compare_exchange_operands c area word id expect new Reg.rseq = area
compare_exchange_operands c area word id expect new Reg.word = word
compare_exchange_operands c area word id expect new Reg.id = id_register c id
compare_exchange_operands c area word id expect new Reg.expect = expect
compare_exchange_operands c area word id expect new Reg.new = new
compare_exchange_operands c area word id expect new r = c.garbage r

abbrev pub fetch_add_operands : Call → (area word id count : ℕ) → Reg → ℕ
fetch_add_operands c area word id count Reg.rseq = area
fetch_add_operands c area word id count Reg.word = word
fetch_add_operands c area word id count Reg.id = id_register c id
fetch_add_operands c area word id count Reg.count = count
fetch_add_operands c area word id count r = c.garbage r

abbrev pub store_if_operands : Call → (area word id expect new side side_new : ℕ) → Reg → ℕ
store_if_operands c area word id expect new side side_new Reg.rseq = area
store_if_operands c area word id expect new side side_new Reg.word = word
store_if_operands c area word id expect new side side_new Reg.id = id_register c id
store_if_operands c area word id expect new side side_new Reg.expect = expect
store_if_operands c area word id expect new side side_new Reg.new = new
store_if_operands c area word id expect new side side_new Reg.side = side
store_if_operands c area word id expect new side side_new Reg.side_new = side_new
store_if_operands c area word id expect new side side_new r = c.garbage r

abbrev pub compare_exchange_if_operands :
    Call → (area word id expect new other other_expect : ℕ) → Reg → ℕ
compare_exchange_if_operands c area word id expect new o e Reg.rseq = area
compare_exchange_if_operands c area word id expect new o e Reg.word = word
compare_exchange_if_operands c area word id expect new o e Reg.id = id_register c id
compare_exchange_if_operands c area word id expect new o e Reg.expect = expect
compare_exchange_if_operands c area word id expect new o e Reg.new = new
compare_exchange_if_operands c area word id expect new o e Reg.other = o
compare_exchange_if_operands c area word id expect new o e Reg.other_expect = e
compare_exchange_if_operands c area word id expect new o e r = c.garbage r

abbrev pub load_if_ne_operands : Call → (area word id expect_not offset : ℕ) → Reg → ℕ
load_if_ne_operands c area word id expect_not offset Reg.rseq = area
load_if_ne_operands c area word id expect_not offset Reg.word = word
load_if_ne_operands c area word id expect_not offset Reg.id = id_register c id
load_if_ne_operands c area word id expect_not offset Reg.expect_not = expect_not
load_if_ne_operands c area word id expect_not offset Reg.offset = offset
load_if_ne_operands c area word id expect_not offset r = c.garbage r

abbrev pub fetch_add_at_operands : Call → (area ptr id offset count : ℕ) → Reg → ℕ
fetch_add_at_operands c area ptr id offset count Reg.rseq = area
fetch_add_at_operands c area ptr id offset count Reg.ptr = ptr
fetch_add_at_operands c area ptr id offset count Reg.id = id_register c id
fetch_add_at_operands c area ptr id offset count Reg.offset = offset
fetch_add_at_operands c area ptr id offset count Reg.count = count
fetch_add_at_operands c area ptr id offset count r = c.garbage r

-- The block of each function on each architecture, by the offset of the index.
abbrev pub compare_exchange_block : Arch → ℕ → Block
compare_exchange_block x86_64 off = X86_64.compare_exchange off
compare_exchange_block aarch64 off = Aarch64.compare_exchange off

abbrev pub fetch_add_block : Arch → ℕ → Block
fetch_add_block x86_64 off = X86_64.fetch_add off
fetch_add_block aarch64 off = Aarch64.fetch_add off

abbrev pub store_if_block : Arch → ℕ → Block
store_if_block x86_64 off = X86_64.store_if off
store_if_block aarch64 off = Aarch64.store_if off

abbrev pub compare_exchange_if_block : Arch → ℕ → Block
compare_exchange_if_block x86_64 off = X86_64.compare_exchange_if off
compare_exchange_if_block aarch64 off = Aarch64.compare_exchange_if off

abbrev pub load_if_ne_block : Arch → ℕ → Block
load_if_ne_block x86_64 off = X86_64.load_if_ne off
load_if_ne_block aarch64 off = Aarch64.load_if_ne off

abbrev pub fetch_add_at_block : Arch → ℕ → Block
fetch_add_at_block x86_64 off = X86_64.fetch_add_at off
fetch_add_at_block aarch64 off = Aarch64.fetch_add_at off

-- The functions, with the stubs for a target that has no block.
unfoldable pub compare_exchange :
    Target → Call → (off area word id expect new : ℕ) → World → Option (World × Attempt)
compare_exchange (linux arch) c off area word id expect new s =
    enter c (compare_exchange_block arch off) (compare_exchange_operands c area word id expect new)
      s
compare_exchange other c off area word id expect new s = some (s, abort)

unfoldable pub fetch_add :
    Target → Call → (off area word id count : ℕ) → World → Option (World × Attempt)
fetch_add (linux arch) c off area word id count s =
    enter c (fetch_add_block arch off) (fetch_add_operands c area word id count) s
fetch_add other c off area word id count s = some (s, abort)

unfoldable pub store_if :
    Target
    → Call
    → (off area word id expect new side side_new : ℕ) → World
    → Option (World × Attempt)
store_if (linux arch) c off area word id expect new side side_new s =
    enter c (store_if_block arch off) (store_if_operands c area word id expect new side side_new) s
store_if other c off area word id expect new side side_new s = some (s, abort)

unfoldable pub compare_exchange_if :
    Target
    → Call
    → (off area word id expect new other_word other_expect : ℕ) → World
    → Option (World × Attempt)
compare_exchange_if (linux arch) c off area word id expect new o e s =
    enter c (compare_exchange_if_block arch off)
      (compare_exchange_if_operands c area word id expect new o e) s
compare_exchange_if other c off area word id expect new o e s = some (s, abort)

unfoldable pub load_if_ne :
    Target → Call → (off area word id expect_not offset : ℕ) → World → Option (World × Attempt)
load_if_ne (linux arch) c off area word id expect_not offset s =
    enter c (load_if_ne_block arch off) (load_if_ne_operands c area word id expect_not offset) s
load_if_ne other c off area word id expect_not offset s = some (s, abort)

unfoldable pub fetch_add_at :
    Target → Call → (off area ptr id offset count : ℕ) → World → Option (World × Attempt)
fetch_add_at (linux arch) c off area ptr id offset count s =
    enter c (fetch_add_at_block arch off) (fetch_add_at_operands c area ptr id offset count) s
fetch_add_at other c off area ptr id offset count s = some (s, abort)
