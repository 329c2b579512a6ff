-- ===== src/Rseq.antt =====
-- src/rseq.rs: the process-wide handle. `possible` is `Cpus::possible()` of src/cpus.rs, and the area of a
-- thread that glibc registered is read at the address that `glibc_area` gives.
pub mod Handle
mod Tests
use rseq_rs.Base.{
  ℕ, Bool, true, false, ◌&&◌, not, Option, none, some, ◌>>=◌, ◌==◌, ltb, leb, if◌then◌else◌,
}
use rseq_rs.Abi.{Area, slice_feature_size}
use rseq_rs.Registration as Registrations
use rseq_rs.Registration.{
  Syscall, System, is_sentinel, register, glibc_area_info, glibc_area, node_supported,
  cid_supported, slice_supported, libc_available,
}
use rseq_rs.Membarrier as Membarriers
use rseq_rs.Membarrier.{Command, Rc, State}
use rseq_rs.Words as Regions
use rseq_rs.Words.{Words}
use rseq_rs.Thread.{Thread, CInt, nonneg, negative}

pub data Mode : Type 0 where
  glibc : (offset : ℕ) → Mode
  self_registered : Mode

pub record Rseq : Type 0 where
  pub mode : Mode
  pub cpus : ℕ
  pub node : Bool
  pub cid : Bool
  pub slice : Bool

pub data Available : Type 0 where
  kernel libc : Available

-- `registration::kernel_available`: `rc` is what `SYS_rseq(NULL, 0, 0, 0)` returns, and 22 is EINVAL.
abbrev pub kernel_available : (rc : CInt) (errno : ℕ) → Bool
kernel_available (negative n) errno = (n == 0) && (errno == 22)
kernel_available (nonneg n) errno = false

-- `Rseq::available`
unfoldable pub available : Available → System → (rc : CInt) (errno : ℕ) → Bool
available kernel sys rc errno = kernel_available rc errno
available libc sys rc errno = libc_available sys

-- What a thread has: where its own slot stands, and the area and the kernel's state behind it; and the
-- area that stands at each address that glibc registered.
pub record Local (K : Type 0) : Type 0 where
  pub slot : ℕ
  pub own : Area × K
  pub glibc_at : ℕ → Area

abbrev pub handle : Option ℕ → System → Mode → Bool → Option Rseq
handle possible sys mode slice = possible >>= λ cpus. some (record {
  mode = mode;
  cpus = cpus;
  node = node_supported sys;
  cid = cid_supported sys;
  slice = slice;
})

module _ {K : Type 0} (rseq : Syscall K) (sig : ℕ) (possible : Option ℕ) (sys : System) where
  -- `Registration::bind`, of a thread whose slot is alive.
  unfoldable pub bind_own : Local K → Local K × Option ℕ
  bind_own t =
      let (s, bound) = register rseq sig t.own in
      (record t { own = s }, if bound then some t.slot else none)

  -- `Rseq::init`, by what `glibc_area_info` gives.
  abbrev pub init_by : Option (ℕ × ℕ) → (Local K × Option ℕ) → Local K → Local K × Option Rseq
  init_by (some (offset, size)) own t =
      (t, handle possible sys (glibc offset) (slice_supported sys && leb slice_feature_size size))
  init_by none (t', own) t = (t', own >>= λ at. handle possible sys self_registered false)

  unfoldable pub init : Local K → Local K × Option Rseq
  init t = init_by (glibc_area_info sys) (bind_own t) t

  -- `Rseq::new`: the static holds the result of the first call.
  unfoldable pub new :
      Option (Option Rseq) × Local K → (Option (Option Rseq) × Local K) × Option Rseq
  new (some r, t) = ((some r, t), r)
  new (none, t) = let (t', r) = init t in ((some r, t'), r)

  -- `self.area()`, with what the area at the address holds.
  unfoldable pub area : Rseq → Local K → Local K × Option (ℕ × Area)
  area r t = elim r.mode [
    | glibc offset ↦ (t, glibc_area sys offset >>= λ at. some (at, t.glibc_at at))
    | self_registered ↦ let (t', own) = bind_own t in (t', own >>= λ at. some (at, t'.own.0))
  ]

  abbrev pub thread_at : Rseq → ℕ × Area → Option Thread
  thread_at r (at, a) =
      if is_sentinel a.cpu_id
      then none
      else some (record { area = at; node = r.node; cid = r.cid; slice = r.slice })

  -- `Rseq::bind`
  unfoldable pub bind : Rseq → Local K → Local K × Option Thread
  bind r t = let (t', found) = area r t in (t', found >>= thread_at r)

module _ {K : Type 0} (syscall : Command → K → K × Rc) (r : Rseq) where
  unfoldable pub fence : (cpu : ℕ) → State K → State K × Bool
  fence cpu s = if ltb cpu r.cpus then Membarriers.fence syscall cpu s else (s, false)

  unfoldable pub fence_all : State K → State K × Bool
  fence_all s = Membarriers.fence_all syscall s

unfoldable pub words : (mmap : ℕ → ℕ) → Rseq → Option Words
words mmap r = Regions.new mmap r.cpus
