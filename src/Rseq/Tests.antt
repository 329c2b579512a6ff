-- ===== src/Rseq/Tests.antt =====
-- A kernel with one CPU to run on, for src/registration.rs and src/rseq.rs, and the theorems on it.
use rseq_rs.Base.{
  ℕ, ◌≤◌, ◌<◌, ◌^◌, ◌≡◌, refl, Bool, true, false, not, none, some, ◌==◌, ◌-◌, if◌then◌else◌,
}
use rseq_rs.Abi.{Area, area_size, flag_unregister, cpu_uninit, sig_x86_64, slice_feature_size}
use rseq_rs.Registration.{Syscall, System, fresh, is_sentinel, register, drop, glibc_area_info}
use rseq_rs.Registration.Bind.{IsRseq, IsBound, register-IsBound, drop-register}
use rseq_rs.Membarrier as Membarriers
use rseq_rs.Membarrier.{Command, expedited, Rc, zero_rc, flag_cpu, State}
use rseq_rs.Membarrier.Laws.{Answered}
use rseq_rs.Region as Regions
use rseq_rs.Region.{mapped}
use rseq_rs.Words as Slots
use rseq_rs.Words.{Words, get}
use rseq_rs.Thread.{Thread, cpu_id}
use rseq_rs.Rseq as Handles
use rseq_rs.Rseq.{Mode, glibc, self_registered, Rseq, Local, init, area, bind, words}
use rseq_rs.Rseq.Handle.{bind-cpu, init-slice, counted_fence_sound}

-- The kernel remembers whether it knows the area.
abbrev on_two : Syscall Bool
on_two len flags sig (a, true) =
    if flags == flag_unregister
    then ((record a { cpu_id = cpu_uninit }, false), true)
    else ((a, true), false)
on_two len flags sig (a, false) =
    if flags == flag_unregister
    then ((a, false), false)
    else ((record a { cpu_id = 2; cpu_id_start = 2 }, true), true)

writes :
    (s : Area × Bool)
    → (on_two area_size 0 sig_x86_64 s).1 ≡ true
    → (is_sentinel (on_two area_size 0 sig_x86_64 s).0.0.cpu_id ≡ false)
      × ((on_two area_size 0 sig_x86_64 s).0.1 ≡ true)
unfolding is_sentinel
writes (a, true) done = absurd (cc)
writes (a, false) done = (refl, refl)

refuses :
    (s : Area × Bool)
    → (on_two area_size 0 sig_x86_64 s).1 ≡ false
    → (on_two area_size 0 sig_x86_64 s).0 ≡ s
refuses (a, true) refused = refl
refuses (a, false) refused = absurd (cc)

clears :
    (s : Area × Bool)
    → s.1 ≡ true
    → (is_sentinel (on_two area_size flag_unregister sig_x86_64 s).0.0.cpu_id ≡ true)
      × ((on_two area_size flag_unregister sig_x86_64 s).0.1 ≡ false)
unfolding is_sentinel
clears (a, true) known = (refl, refl)
clears (a, false) known = absurd (cc)

abbrev os : IsRseq on_two sig_x86_64
os = record { registered = λ k. k; writes = writes; refuses = refuses; clears = clears }

unbound : is_sentinel cpu_uninit ≡ true
unfolding is_sentinel
unbound = refl

starts : false ≡ not (is_sentinel fresh.cpu_id)
starts = rw unbound refl

register-IsBound_example :
    IsBound on_two sig_x86_64 os (fresh, false) (register on_two sig_x86_64 (fresh, false))
register-IsBound_example = register-IsBound on_two sig_x86_64 os (fresh, false) starts

registers : (register on_two sig_x86_64 (fresh, false)).1 ≡ true
unfolding register
registers = rw unbound refl

drop-register_example :
    let s' = drop on_two sig_x86_64 (register on_two sig_x86_64 (fresh, false)).0 in
    (is_sentinel s'.0.cpu_id ≡ true) × (s'.1 ≡ false)
drop-register_example = drop-register on_two sig_x86_64 os (fresh, false) starts registers

-- glibc has registered an area of 40 bytes.
abbrev glibc_system : System
glibc_system = record {
  size_p = 0x7000;
  offset_p = 0x7008;
  flags_p = 0x7010;
  size = 40;
  offset = 2 ^ 64 - 0x40;
  feature_size = 40;
  thread_pointer = 0x5000;
}

abbrev bare_system : System
bare_system = record {
  size_p = 0;
  offset_p = 0;
  flags_p = 0;
  size = 0;
  offset = 0;
  feature_size = 28;
  thread_pointer = 0x5000;
}

abbrev local : Local Bool
local = record { slot = 0x9000; own = (fresh, false); glibc_at = λ at. record fresh { cpu_id = 1 } }

abbrev of_glibc : Rseq
of_glibc = record { mode = glibc (2 ^ 64 - 0x40); cpus = 8; node = true; cid = true; slice = true }

abbrev of_crate : Rseq
of_crate = record { mode = self_registered; cpus = 8; node = true; cid = true; slice = false }

glibc_starts : (init on_two sig_x86_64 (some 8) glibc_system local).1 ≡ some of_glibc
unfolding init glibc_area_info
glibc_starts = refl

init-slice_example :
    (offset : ℕ) × (of_glibc.mode ≡ glibc offset)
    × (slice_feature_size ≤ glibc_system.feature_size)
    × (slice_feature_size ≤ glibc_system.size)
init-slice_example =
    init-slice on_two sig_x86_64 (some 8) glibc_system local of_glibc glibc_starts refl

abbrev bound : Thread
bound = record { area = 0x9000; node = true; cid = true; slice = false }

binds : (bind on_two sig_x86_64 (some 8) bare_system of_crate local).1 ≡ some bound
unfolding bind area Handles.bind_own register is_sentinel
binds = refl

bind-cpu_example :
    (a : Area) × ((area on_two sig_x86_64 (some 8) bare_system of_crate local).1
      ≡ some (bound.area, a))
    × (cpu_id a ≡ some a.cpu_id)
bind-cpu_example = bind-cpu on_two sig_x86_64 (some 8) bare_system of_crate local bound binds

abbrev obliging : Command → Bool → Bool × Rc
obliging cmd k = (true, zero_rc)

abbrev unregistered : State Bool
unregistered = record { ready = none; used = false; kernel = false }

fences : (Handles.fence obliging of_glibc 3 unregistered).1 ≡ true
unfolding Handles.fence Membarriers.fence Membarriers.run Membarriers.ready Membarriers.register_now
fences = refl

counted_fence_sound_example :
    (3 < of_glibc.cpus)
    × Answered obliging
        (expedited flag_cpu 3)
        (Handles.fence obliging of_glibc 3 unregistered).0.kernel
counted_fence_sound_example = counted_fence_sound obliging of_glibc 3 unregistered fences

abbrev eight : Words
eight = record { region = mapped 0x7f00_0000_0000 4096; cpus = 8 }

maps : words (λ len. 0x7f00_0000_0000) of_glibc ≡ some eight
unfolding words Slots.new Regions.map Regions.length_of
maps = refl
