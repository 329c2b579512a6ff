-- ===== src/Thread/Fixture.antt =====
-- A kernel that behaves as documented, and calls on it, for the tests of src/thread.rs and of its clients.
use rseq_rs.Base.{
  ℕ, ◌≡◌, ◌≢◌, refl, ap, true, false, Option, none, some, List, ◌==◌, arith, ==-self, ==-ne,
  if◌then◌else◌,
}
use rseq_rs.Abi.{Area}
use rseq_rs.Kernel.{Kernel, Cs, in_cs, Event}
use rseq_rs.Cs.{Arch, x86_64, aarch64, Call}
use rseq_rs.Thread.{Thread}
use rseq_rs.Thread.Lift.{signature, IsSetUp}

-- `rseq(2)`: outside the section the thread goes on, inside it at the abort label, if the signature in
-- front of it is the registered one; if it is another the thread is killed.
abbrev pub resume : ℕ → Option Cs → ℕ → Option ℕ
resume registered none ip = some ip
resume registered (some cs) ip =
    if in_cs cs ip
    then (elim cs.signature [
      | none ↦ none
      | some k ↦ if k == registered then some cs.abort_ip else none
    ])
    else some ip

pub resume-inside :
    (registered : ℕ) (cs : Cs) (ip : ℕ)
    → in_cs cs ip ≡ true
    → cs.signature ≡ some registered
    → resume registered (some cs) ip ≡ some cs.abort_ip
resume-inside registered cs ip inside sign = rw (inside, sign, ==-self registered) refl

pub mismatch :
    (registered : ℕ) (found : Option ℕ) (to : ℕ)
    → found ≢ some registered
    → (elim found [ none ↦ none | some k ↦ if k == registered then some to else none ]) ≡ none
mismatch registered none to ne = refl
mismatch registered (some k) to ne = rw (==-ne k registered (λ same. ne (ap some same))) refl

abbrev pub linux_kernel : ℕ → Kernel
linux_kernel registered = record {
  registered = registered;
  resume = resume registered;
  resume_unarmed = λ ip. refl;
  resume_outside = λ cs ip outside. rw outside refl;
  resume_inside = λ cs ip inside sign. resume-inside registered cs ip inside sign;
  resume_bad_signature =
      λ cs ip inside ne. rw inside (mismatch registered cs.signature cs.abort_ip ne);
}

-- An area on a CPU, the same number standing for the concurrency id.
abbrev pub on_cpu : ℕ → Area
on_cpu n = record {
  cpu_id_start = n;
  cpu_id = n;
  rseq_cs = 0;
  flags = 0;
  node_id = 0;
  mm_cid = n;
  slice_ctrl = 0;
}

abbrev pub call : Arch → List Event → Call
call arch events = record {
  kernel = linux_kernel (signature arch);
  desc = 0x1000;
  garbage = λ r. 0xdead;
  zf = false;
  events = events;
}

abbrev pub handle : Thread
handle = record { area = 0x2000; node = true; cid = true; slice = false }

pub set_up : (arch : Arch) (events : List Event) → IsSetUp arch (call arch events)
set_up x86_64 events = record { registered = refl; fits = omega arith }
set_up aarch64 events = record { registered = refl; fits = omega arith }
