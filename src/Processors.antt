-- ===== src/Processors.antt =====
-- Many calls on `cpus` processors: every processor executes one line of its own call at a time, in any
-- order, and the kernel switches between the calls of a processor, also to one that was on another.
pub mod Foreign
pub mod Invariant
pub mod Explained
pub mod Progress
pub mod Direct
pub mod Stores
pub mod Operations
pub mod Sequential
pub mod Counter
mod Tests
use rseq_rs.Base.{ℕ, ◌<◌, ◌≡◌, ◌≢◌, some, List, [], ◌==◌, if◌then◌else◌}
use rseq_rs.Abi.{Area}
use rseq_rs.Machine.{Mem}
use rseq_rs.Kernel.{Kernel}
use rseq_rs.System.{Client, Local, Entry, System, Move, switch, execute, move}

-- The words, and for each processor the call that it executes and the area that the kernel gave it.
pub record Processors : Type 0 where
  pub words : Mem
  pub running : ℕ → ℕ
  pub given : ℕ → Area
  pub locals : ℕ → Local
  pub log : List Entry

-- What processor `p` sees.
abbrev pub seen_by : ℕ → Processors → System
seen_by p s = record {
  words = s.words;
  running = s.running p;
  given = s.given p;
  locals = s.locals;
  log = s.log;
}

abbrev pub set_at : {A : Type 0} → (ℕ → A) → ℕ → A → ℕ → A
set_at f p x q = if p == q then x else f q

abbrev pub with_processor : ℕ → System → Processors → Processors
with_processor p t s = record {
  words = t.words;
  running = set_at s.running p t.running;
  given = set_at s.given p t.given;
  locals = t.locals;
  log = t.log;
}

module _ (k : Kernel) (calls : ℕ → Client) (index : Area → ℕ) (cpus : ℕ) where
  abbrev pub execute_on : ℕ → Processors → Processors
  execute_on p s = with_processor p (execute k calls (seen_by p s)) s

  -- The kernel lets call `j` go on on processor `p`: the index in its area is that of the processor, and
  -- the call is on no other.
  pub record Switch (p j : ℕ) (a : Area) (s : Processors) (t : System) : Type 0 where
    pub within : p < cpus
    pub placed : index a ≡ p
    pub free : (q : ℕ) → q < cpus → p ≢ q → s.running q ≢ j
    pub resumed : move k calls (switch j a) (seen_by p s) ≡ some t

  pub data Reached (s₀ : Processors) : Processors → Type 0 where
    start : Reached s₀ s₀
    by_line : {s : Processors} (p : ℕ) → p < cpus → Reached s₀ s → Reached s₀ (execute_on p s)
    by_switch :
        {s : Processors} {t : System} (p j : ℕ) (a : Area)
        → Reached s₀ s
        → Switch p j a s t
        → Reached s₀ (with_processor p t s)

  -- No call has begun, the area of its thread is `home`, and processor `p` is to execute call `first p`.
  abbrev pub begin_on : Mem → (home : ℕ → Area) → (first : ℕ → ℕ) → Processors
  begin_on m home first = record {
    words = m;
    running = first;
    given = λ p. home (first p);
    locals = λ j. record { ip = 0; zf = (calls j).zf; regs = (calls j).operands; area = home j };
    log = [];
  }
