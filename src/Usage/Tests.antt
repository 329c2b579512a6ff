-- ===== src/Usage/Tests.antt =====
-- The example in the documentation of src/lib.rs on a thread of CPU 1 whose area glibc has registered.
use rseq_rs.Base.{ℕ, ◌≡◌, refl, true, some, [], ◌∷◌, arith}
use rseq_rs.Kernel as Kernels
use rseq_rs.Machine
use rseq_rs.Machine.{Mem, write}
use rseq_rs.Abi.{sig_x86_64}
use rseq_rs.Registration as Registrations
use rseq_rs.Registration.{Syscall, System, fresh}
use rseq_rs.Region as Regions
use rseq_rs.Region.{mapped}
use rseq_rs.Rseq.{Rseq, Local, glibc, area, bind, words}
use rseq_rs.Words as Slots
use rseq_rs.Words.{Words, get}
use rseq_rs.Cs as Sections
use rseq_rs.Cs.{x86_64, linux, World, Call}
use rseq_rs.Thread as Ops
use rseq_rs.Thread.{Kind, cpu_kind, Word, Thread, Result, ok, err, miss}
use rseq_rs.Thread.Fixture.{on_cpu, call, set_up}
use rseq_rs.Usage.{broke, try_it}
use rseq_rs.Usage.Swaps.{swapped, try_it-swaps}

abbrev rseq_call : Syscall ℕ
rseq_call len flags sig s = (s, true)

abbrev system : System
system = record {
  size_p = 0x7000;
  offset_p = 0x7008;
  flags_p = 0x7010;
  size = 32;
  offset = 0x40;
  feature_size = 32;
  thread_pointer = 0x5000;
}

abbrev local : Local ℕ
local = record { slot = 0x9000; own = (fresh, 0); glibc_at = λ at. on_cpu 1 }

abbrev rseq : Rseq
rseq = record { mode = glibc 0x40; cpus = 2; node = true; cid = true; slice = true }

abbrev thread : Thread
thread = record { area = 0x5040; node = true; cid = true; slice = true }

abbrev two_words : Words
two_words = record { region = mapped 0x1000 4096; cpus = 2 }

binds : (bind rseq_call sig_x86_64 (some 2) system rseq local).1 ≡ some thread
unfolding bind area Registrations.glibc_area Registrations.is_sentinel
binds = refl

stands : (area rseq_call sig_x86_64 (some 2) system rseq local).1 ≡ some (0x5040, on_cpu 1)
unfolding area Registrations.glibc_area
stands = refl

maps : words (λ len. 0x1000) rseq ≡ some two_words
unfolding words Slots.new Regions.map Regions.length_of
maps = refl

abbrev started : World
started = record { mem = write (λ a. 0) 0x1000 5; area = on_cpu 1 }

try_it-swaps_example :
    (w : Word cpu_kind) × (get two_words 1 ≡ some w)
    × (s' : World) × (try_it (linux x86_64) thread two_words (call x86_64 [] ∷ []) started
        ≡ broke s' (swapped w.word started.mem).1 [])
    × (s'.mem ≡ (swapped w.word started.mem).0)
try_it-swaps_example =
    try_it-swaps rseq_call sig_x86_64 (some 2) system (λ len. 0x1000) x86_64 rseq local thread
      two_words (call x86_64 []) [] started (omega arith) binds maps stands (omega arith)
      (set_up x86_64 []) refl

-- On CPU 0, which has a 5.
abbrev on_zero : World
on_zero = record { mem = write (λ a. 0) 0x1000 5; area = on_cpu 0 }

abbrev left_at : World
left_at = record { mem = write (λ a. 0) 0x1000 5; area = record (on_cpu 0) { rseq_cs = 0x1000 } }

misses :
    try_it (linux x86_64) thread two_words (call x86_64 [] ∷ []) on_zero
    ≡ broke left_at (err (miss 5)) []
unfolding try_it Ops.compare_exchange Sections.compare_exchange Sections.enter Kernels.call
    Machine.attempt Ops.cpu_id Ops.cpu_id_new Slots.get Regions.word Regions.base
misses = refl
