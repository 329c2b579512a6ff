-- ===== src/System/Operations.antt =====
-- The word operations of src/thread.rs, called by many threads of one processor.
use mathlib.Core.Path.{subst}
use rseq_rs.Base.{ℕ, ◌≡◌, Bool, List, [], some, length, IsU32, IsUsize}
use rseq_rs.Abi.{Area}
use rseq_rs.Attempt.{Attempt}
use rseq_rs.Machine.{Reg, Mem, attempt}
use rseq_rs.Kernel.{Kernel}
use rseq_rs.Section.Interrupt.{IsSection}
use rseq_rs.Cs.{Arch, Call}
use rseq_rs.Thread.{Kind, Thread}
use rseq_rs.Thread.Lift.{signature}
use rseq_rs.Thread.Operation.{Operation, promised, Leftover, word_of, IsPaired}
use rseq_rs.Thread.Sections.{
  block_of, operands_of, spec_of, view_of, operation-IsSection, operation-same, operation-Scratch,
}
use rseq_rs.System.{Client, Entry, System, load_local, Move, moves, begin, outcome_of}
use rseq_rs.System.Replays.{Replays, Replays-map}
use rseq_rs.System.Explained.{moves-Explained}

-- Who calls: the handle, the address of the descriptor of the call, and what the registers and the flag
-- hold that no operand sets.
pub record Seat : Type 0 where
  pub thread : Thread
  pub desc : ℕ
  pub garbage : Reg → ℕ
  pub zf : Bool

-- A call of an operation.
pub record Job : Type 0 where
  pub seat : Seat
  pub kind : Kind
  pub operation : Operation kind

abbrev pub call_of : Kernel → Job → Call
call_of k j = record {
  kernel = k;
  desc = j.seat.desc;
  garbage = j.seat.garbage;
  zf = j.seat.zf;
  events = [];
}

abbrev pub client : Arch → Kernel → Job → Client
client arch k j = record {
  desc = j.seat.desc;
  blk = block_of arch j.operation;
  spec = spec_of j.operation;
  operands = operands_of (call_of k j) j.seat.thread j.operation;
  zf = j.seat.zf;
}

-- The descriptor has a 64-bit address, the key is a u32, and two words have one key.
pub record IsReady (j : Job) : Type 0 where
  pub fits : IsUsize j.seat.desc
  pub small : IsU32 (word_of j.operation).key
  pub paired : IsPaired j.operation

-- The calls of the log, one after another, each as its documentation promises, lead from one state of
-- the words to another.
abbrev pub Sequential : (ℕ → Job) → Mem → List Entry → Mem → Type 0
Sequential jobs =
    Replays (λ i. view_of (jobs i).operation) (λ i. promised (jobs i).operation)
      (λ i. Leftover (jobs i).operation)

module _ (arch : Arch) (k : Kernel) (jobs : ℕ → Job) where
  abbrev pub clients : ℕ → Client
  clients i = client arch k (jobs i)

  -- Call `i` has come to the end of its block.
  abbrev pub HasReturned : System → ℕ → Type 0
  HasReturned t i = (t.locals i).ip ≡ length (clients i).blk.code

  -- What `Attempt::from_status` then reads off its registers.
  abbrev pub attempt_of : System → ℕ → Attempt
  attempt_of t i = attempt (clients i).blk (load_local t.words (t.locals i))

  module _ (registered : k.registered ≡ signature arch) (ready : (i : ℕ) → IsReady (jobs i)) where
    secs : (j : ℕ) → IsSection k (clients j).desc (clients j).blk (clients j).spec
    secs j =
        operation-IsSection (call_of k (jobs j)) arch (jobs j).operation
          (record { registered = registered; fits = (ready j).fits })

    -- With the areas registered with the signature of the architecture, descriptors at 64-bit
    -- addresses, keys that are u32, and two words of one key where there are two: any number of calls
    -- of the six operations by the threads of one processor, which the kernel switches between after
    -- any line and in any order, run without a signal, and at every moment the words are those that
    -- the calls in the log, each of them once, give when they are done one after another, each as its
    -- documentation promises and with the promised result; attempts that were given up leave at most
    -- the store of `store_if` to `side`.
    pub moves-Sequential :
        (ms : List Move) (m : Mem) (i : ℕ) (a : Area)
        → (t : System) × (moves k clients ms (begin k clients m i a) ≡ some t)
          × Sequential jobs m t.log t.words
    moves-Sequential ms m i a =
        let (t, ran, e) = moves-Explained clients secs ms m i a in
        (
          t,
          ran,
          Replays-map (λ j. view_of (jobs j).operation)
              (λ j.
                operation-same arch (call_of k (jobs j)) (jobs j).seat.thread (jobs j).operation
                  (ready j).small)
              (λ j.
                operation-Scratch arch (call_of k (jobs j)) (jobs j).seat.thread (jobs j).operation)
              e.replays,
        )

    pub reached-Sequential :
        (ms : List Move) (m : Mem) (i : ℕ) (a : Area) (t : System)
        → moves k clients ms (begin k clients m i a) ≡ some t
        → Sequential jobs m t.log t.words
    reached-Sequential ms m i a t ran =
        let (u, same, seq) = moves-Sequential ms m i a in
        let eq : u ≡ t = cc in subst (λ t. Sequential jobs m t.log t.words) eq seq

    -- Under the same conditions, a call that has come to the end of its block is in the log, with the
    -- outcome that it returns.
    pub returned-outcome :
        (ms : List Move) (m : Mem) (i : ℕ) (a : Area) (t : System)
        → moves k clients ms (begin k clients m i a) ≡ some t
        → (j : ℕ) → HasReturned t j
        → outcome_of j t.log ≡ some (attempt_of t j)
    returned-outcome ms m i a t ran j ended =
        let (u, same, e) = moves-Explained clients secs ms m i a in
        let eq : u ≡ t = cc in
        subst (λ t. HasReturned t j → outcome_of j t.log ≡ some (attempt_of t j)) eq (e.returned j)
          ended
