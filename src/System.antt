-- ===== src/System.antt =====
-- Many calls on one processor: each is a block of src/x86_64.rs or src/aarch64.rs with its operands, the
-- processor executes one line of one call at a time, and the kernel switches between the calls anywhere.
pub mod Phase
pub mod Line
pub mod Replays
pub mod Explained
pub mod Operations
pub mod Added
pub mod Tickets
pub mod Apart
pub mod Winner
mod Tests
use mathlib.Core.Option
use rseq_rs.Base.{
  ◌≡◌, ℕ, Bool, ◌&&◌, Option, none, some, List, [], ◌∷◌, ◌==◌, leb, ltb, if◌then◌else◌, length,
}
use rseq_rs.Abi.{Area}
use rseq_rs.Attempt.{Attempt}
use rseq_rs.Machine.{Reg, Mem, Block, State, step, attempt}
use rseq_rs.Kernel.{Kernel, commit_of, interrupt, finish}
use rseq_rs.Section.Linearized.{Spec}

-- A call: its block, the address of the descriptor, what it is to do, and what it finds in the
-- registers and the flag.
pub record Client : Type 0 where
  pub desc : ℕ
  pub blk : Block
  pub spec : Spec
  pub operands : Reg → ℕ
  pub zf : Bool

-- What is a call's own, on the processor or saved: the position of the next line, the flag, the
-- registers, and the area of its thread.
pub record Local : Type 0 where
  pub ip : ℕ
  pub zf : Bool
  pub regs : Reg → ℕ
  pub area : Area

-- That call `who` passed its commit label while its area was `area`, and the outcome it goes on with.
pub record Entry : Type 0 where
  pub who : ℕ
  pub area : Area
  pub outcome : Attempt

-- The words, the call on the processor with the area that the kernel gave it, the calls, and the calls
-- that have passed their commit labels, the last one first. `given` and `log` are for the proof only.
pub record System : Type 0 where
  pub words : Mem
  pub running : ℕ
  pub given : Area
  pub locals : ℕ → Local
  pub log : List Entry

abbrev pub load_local : Mem → Local → State
load_local m l = record { ip = l.ip; zf = l.zf; regs = l.regs; mem = m; area = l.area }

abbrev pub save : State → Local
save s = record { ip = s.ip; zf = s.zf; regs = s.regs; area = s.area }

abbrev pub set_local : (ℕ → Local) → ℕ → Local → ℕ → Local
set_local f i l j = if i == j then l else f j

-- The outcome that call `i` has in the log.
abbrev pub outcome_of : ℕ → List Entry → Option Attempt
outcome_of i [] = none
outcome_of i (e ∷ es) = if e.who == i then some e.outcome else outcome_of i es

-- The outcome of call `i` is `o`, by whether the last entry is its own.
abbrev pub LookedUp : Entry → List Entry → ℕ → Attempt → Bool → Type 0
LookedUp e es i o own = (if own then some e.outcome else outcome_of i es) ≡ some o

-- The line from `s` to `t` passes the commit label.
abbrev pub passes : Block → State → State → Bool
passes blk s t = ltb s.ip (commit_of blk) && leb (commit_of blk) t.ip

-- The processor executes a line, or the kernel takes the running call off it and lets call `j` go on,
-- whose area then is `area`.
pub data Move : Type 0 where
  line : Move
  switch : ℕ → Area → Move

module _ (k : Kernel) (calls : ℕ → Client) where
  unfoldable pub execute : System → System
  unfolding step finish attempt
  execute s =
      let i = s.running in
      let c = calls i in
      let before = load_local s.words (s.locals i) in
      let t = step c.desc c.blk before in
      let entry : Entry = record {
        who = i;
        area = s.given;
        outcome = attempt c.blk (finish c.desc c.blk t);
      } in
      record {
        words = t.mem;
        running = i;
        given = s.given;
        locals = set_local s.locals i (save t);
        log = if passes c.blk before t then entry ∷ s.log else s.log;
      }

  unfoldable pub move : Move → System → Option System
  unfolding execute interrupt
  move line s = some (execute s)
  move (switch j area) s =
      let c = calls j in
      Option.map
        (λ t. record {
          words = t.mem;
          running = j;
          given = area;
          locals = set_local s.locals j (save t);
          log = s.log;
        })
        (interrupt k c.desc c.blk (λ m. m) area (load_local s.words (s.locals j)))

  -- `none` is SIGSEGV.
  unfoldable pub moves : List Move → System → Option System
  unfolding move
  moves [] s = some s
  moves (m ∷ ms) s = elim (move m s) [ none ↦ none | some t ↦ moves ms t ]

  -- No call has begun, and call `i` is on the processor of the area `a`.
  abbrev pub begin : Mem → ℕ → Area → System
  begin m i a = record {
    words = m;
    running = i;
    given = a;
    locals = λ j. record { ip = 0; zf = (calls j).zf; regs = (calls j).operands; area = a };
    log = [];
  }
