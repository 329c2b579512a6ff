-- ===== src/Membarrier.antt =====
-- src/membarrier.rs: the expedited membarrier, registered on first use. `membarrier(2)` is a parameter
-- that acts on a state `K` of the kernel.
pub mod Laws
pub mod Fork
pub mod Threads
pub mod Steps
pub mod Together
pub mod Sound
mod Tests
use rseq_rs.Base.{
  ℕ, ◌^◌, Bool, true, false, ◌&&◌, not, Option, none, some, ◌==◌, ltb, if◌then◌else◌,
}

-- The two calls that the module makes.
pub data Command : Type 0 where
  register : Command  -- MEMBARRIER_CMD_REGISTER_PRIVATE_EXPEDITED_RSEQ
  expedited : (flags cpu : ℕ) → Command  -- MEMBARRIER_CMD_PRIVATE_EXPEDITED_RSEQ

-- `rc == 0`, or the number that `errno` holds.
pub data Rc : Type 0 where
  zero_rc : Rc
  errno : ℕ → Rc

abbrev pub eperm : ℕ
eperm = 1

abbrev pub flag_cpu : ℕ
flag_cpu = 1

abbrev pub is_zero : Rc → Bool
is_zero zero_rc = true
is_zero (errno n) = false

abbrev pub is_eperm : Rc → Bool
is_eperm zero_rc = false
is_eperm (errno n) = n == eperm

-- The statics `READY` and `USED`, and the kernel.
pub record State (K : Type 0) : Type 0 where
  pub ready : Option Bool
  pub used : Bool
  pub kernel : K

module _ {K : Type 0} (syscall : Command → K → K × Rc) where
  -- `Self::register`
  unfoldable pub register_now : State K → State K × Bool
  register_now s = let (k, rc) = syscall register s.kernel in (record s { kernel = k }, is_zero rc)

  abbrev pub set_ready : State K × Bool → State K × Bool
  set_ready (s, b) = (record s { ready = some b }, b)

  -- `READY.get_or_init(Self::register)`
  unfoldable pub ready : State K → State K × Bool
  ready s = elim s.ready [ some b ↦ (s, b) | none ↦ set_ready (register_now s) ]

  -- `syscall(…) == 0`
  abbrev pub again : Command → State K → State K × Bool
  again cmd s = let (k, rc) = syscall cmd s.kernel in (record s { kernel = k }, is_zero rc)

  abbrev pub again_if : Command → State K × Bool → State K × Bool
  again_if cmd (s, registered) = if registered then again cmd s else (s, false)

  -- `USED.swap(false) && Self::register()`, and the second call
  abbrev pub retry : Command → State K → State K × Bool
  retry cmd s =
      if s.used then again_if cmd (register_now (record s { used = false })) else (s, false)

  abbrev pub after_call : Command → State K → Rc → State K × Bool
  after_call cmd s zero_rc = (record s { used = true }, true)
  after_call cmd s (errno n) = if n == eperm then retry cmd s else (s, false)

  abbrev pub call : Command → State K → State K × Bool
  call cmd s = let (k, rc) = syscall cmd s.kernel in after_call cmd (record s { kernel = k }) rc

  abbrev pub run_if : Command → State K × Bool → State K × Bool
  run_if cmd (s, is_ready) = if not is_ready then (s, false) else call cmd s

  -- `Self::run`
  unfoldable pub run : Command → State K → State K × Bool
  run cmd s = run_if cmd (ready s)

  -- `cpu` is a u32, the call takes a c_int.
  unfoldable pub fence : (cpu : ℕ) → State K → State K × Bool
  fence cpu s = if not (ltb cpu (2 ^ 31)) then (s, false) else run (expedited flag_cpu cpu) s

  unfoldable pub fence_all : State K → State K × Bool
  fence_all s = run (expedited 0 0) s
