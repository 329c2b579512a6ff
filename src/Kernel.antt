-- ===== src/Kernel.antt =====
-- What the blocks rely on in the kernel (`rseq(2)`), as an interface, and the runs of a block that the
-- kernel may interrupt between any two lines.
use mathlib.Core.Option
use rseq_rs.Base.{
  ℕ, ◌+◌, ◌-◌, ◌≡◌, ◌≢◌, Bool, true, false, ◌&&◌, Option, none, some, List, [], ◌∷◌, ◌==◌, leb, ltb,
  if◌then◌else◌, length, get_elem?,
}
use rseq_rs.Abi.{Area}
use rseq_rs.Machine.{Insn, sig, Mem, State, Block, find_label, step, steps}

-- `struct rseq_cs` as the block's `__rseq_cs` entry gives it (version and flags are 0), and the word
-- that stands in front of the abort address.
pub record Cs : Type 0 where
  pub start_ip : ℕ
  pub post_commit_offset : ℕ
  pub abort_ip : ℕ
  pub signature : Option ℕ

unfoldable pub sig_at : List Insn → ℕ → Option ℕ
sig_at code p = elim (get_elem? code p) [ some (sig k) ↦ some k | _ ↦ none ]

abbrev pub start_of : Block → ℕ
start_of blk = find_label blk.code blk.start_label

abbrev pub commit_of : Block → ℕ
commit_of blk = find_label blk.code blk.commit_label

abbrev pub abort_of : Block → ℕ
abort_of blk = find_label blk.code blk.abort_label

abbrev pub descriptor : Block → Cs
descriptor blk = record {
  start_ip = start_of blk;
  post_commit_offset = commit_of blk - start_of blk;
  abort_ip = abort_of blk;
  signature = sig_at blk.code (abort_of blk - 1);
}

-- start_ip <= ip < start_ip + post_commit_offset
abbrev pub in_cs : Cs → ℕ → Bool
in_cs cs ip = leb cs.start_ip ip && ltb ip (cs.start_ip + cs.post_commit_offset)

-- Where a thread goes on that was preempted, migrated or signalled at `ip`, with the descriptor that
-- its area named; `none` is SIGSEGV. `registered` is the signature given to `rseq(2)`.
pub record Kernel : Type 0 where
  pub registered : ℕ
  pub resume : Option Cs → ℕ → Option ℕ
  pub resume_unarmed : (ip : ℕ) → resume none ip ≡ some ip
  pub resume_outside : (cs : Cs) (ip : ℕ) → in_cs cs ip ≡ false → resume (some cs) ip ≡ some ip
  pub resume_inside :
      (cs : Cs) (ip : ℕ)
      → in_cs cs ip ≡ true
      → cs.signature ≡ some registered
      → resume (some cs) ip ≡ some cs.abort_ip
  pub resume_bad_signature :
      (cs : Cs) (ip : ℕ)
      → in_cs cs ip ≡ true
      → cs.signature ≢ some registered
      → resume (some cs) ip ≡ none

-- The thread executes a line, or is off the CPU: `others` is what other threads do to the words
-- meanwhile, and `area` is what the kernel has written into the area when the thread goes on.
pub data Event : Type 0 where
  tick : Event
  preempt : (others : Mem → Mem) → Area → Event

-- The area names this block's descriptor, or none that the position of the thread lies in.
unfoldable pub armed : ℕ → Block → Area → Option Cs
armed desc blk a = if a.rseq_cs == desc then some (descriptor blk) else none

-- No line jumps back, so as many steps as there are lines reach the end.
unfoldable pub finish : ℕ → Block → State → State
unfolding steps
finish desc blk s = steps desc blk (length blk.code) s

module _ (k : Kernel) (desc : ℕ) (blk : Block) where
  unfoldable pub interrupt : (Mem → Mem) → Area → State → Option State
  unfolding armed sig_at
  interrupt others area s =
      Option.map (λ ip. record s { ip = ip; mem = others s.mem; area = area })
        (k.resume (armed desc blk s.area) s.ip)

  unfoldable pub run : List Event → State → Option State
  unfolding interrupt
  run [] s = some s
  run (tick ∷ es) s = run es (step desc blk s)
  run (preempt others area ∷ es) s = elim (interrupt others area s) [
    | none ↦ none
    | some t ↦ run es t
  ]

  -- A call: the events, and then the rest of the block undisturbed. `none` is SIGSEGV.
  unfoldable pub call : List Event → State → Option State
  unfolding run finish
  call es s = Option.map (finish desc blk) (run es s)
