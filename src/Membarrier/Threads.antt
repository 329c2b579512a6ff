-- ===== src/Membarrier/Threads.antt =====
-- Calls of `Membarrier::run` by several threads at the same time (src/membarrier.rs), one access to a static
-- or to the kernel after another. `get_or_init` is one step, since it lets one thread at a time run `register`.
use rseq_rs.Base.{ℕ, zero, suc, Bool, true, false, List, [], ◌∷◌, ◌==◌, ◌+◌, if◌then◌else◌}
use rseq_rs.Membarrier.{Command, Rc, zero_rc, errno, eperm, is_zero, State, register_now, ready}

-- What a thread does next.
pub data At : Type 0 where
  asks : At  -- Self::ready()
  calls : At  -- the first syscall
  marks : At  -- USED.store(true)
  swaps : At  -- USED.swap(false)
  registers : At  -- Self::register()
  calls_again : At  -- the second syscall
  ended : (result : Bool) → At

abbrev pub answered : Rc → At
answered zero_rc = marks
answered (errno n) = if n == eperm then swaps else ended false

-- The threads share the statics and the kernel.
pub record Threads (K : Type 0) : Type 0 where
  pub shared : State K
  pub at : ℕ → At

module _ {K : Type 0} (syscall : Command → K → K × Rc) where
  -- The next access of a thread in `run`.
  unfoldable pub step : Command → At → State K → State K × At
  step cmd asks s = let (s', ok) = ready syscall s in (s', if ok then calls else ended false)
  step cmd calls s = let (k, rc) = syscall cmd s.kernel in (record s { kernel = k }, answered rc)
  step cmd marks s = (record s { used = true }, ended true)
  step cmd swaps s = (record s { used = false }, if s.used then registers else ended false)
  step cmd registers s =
      let (s', ok) = register_now syscall s in (s', if ok then calls_again else ended false)
  step cmd calls_again s =
      let (k, rc) = syscall cmd s.kernel in (record s { kernel = k }, ended (is_zero rc))
  step cmd (ended b) s = (s, ended b)

  -- Steps of one thread in a row.
  unfoldable pub alone : (n : ℕ) → Command → State K × At → State K × At
  alone zero cmd p = p
  alone (suc n) cmd (s, a) = alone n cmd (step cmd a s)

  module _ (cmds : ℕ → Command) where
    -- A step of thread `i`.
    abbrev pub turn : ℕ → Threads K → Threads K
    turn i t =
        let (s, a) = step (cmds i) (t.at i) t.shared in
        record { shared = s; at = λ j. if i == j then a else t.at j }

    -- The threads in the order of the list.
    unfoldable pub interleave : List ℕ → Threads K → Threads K
    interleave [] t = t
    interleave (i ∷ is) t = interleave is (turn i t)

-- A thread that has `n` turns in a row.
unfoldable pub repeat : (n i : ℕ) → List ℕ
repeat zero i = []
repeat (suc n) i = i ∷ repeat n i

-- How often a thread has its turn.
unfoldable pub turns_of : ℕ → List ℕ → ℕ
turns_of i [] = 0
turns_of i (j ∷ is) = (if j == i then 1 else 0) + turns_of i is
