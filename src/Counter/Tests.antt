-- ===== src/Counter/Tests.antt =====
-- The counter of benches/counter.rs with eight CPUs: a thread that is interrupted, by others that count too,
-- and moved to another CPU.
use rseq_rs.Base.{◌*◌, ◌<◌, ℕ, ◌+◌, ◌≡◌, refl, some, List, [], ◌∷◌, arith}
use rseq_rs.Machine.{Mem, write, usize}
use rseq_rs.Machine
use rseq_rs.Kernel as Kernels
use rseq_rs.Kernel.{Event, tick, preempt}
use rseq_rs.Cs as Sections
use rseq_rs.Cs.{Arch, x86_64, linux, World, Call}
use rseq_rs.Region as Regions
use rseq_rs.Region.{mapped}
use rseq_rs.Words.{Words}
use rseq_rs.Thread as Ops
use rseq_rs.Thread.{Kind, cpu_kind, Word, Thread, Result, ok, cpu_id}
use rseq_rs.Thread.Count.{◌≈◌, Adds, none_left, by_tick, by_others}
use rseq_rs.Thread.Fixture.{on_cpu, call, handle, set_up}
use rseq_rs.Counter.{returned, add, total}
use rseq_rs.Counter.Total.{sum-add}
use rseq_rs.Counter.Loop.{Schedule, ended, turn, Counted, add-Counted, add-returns}

abbrev words : Words
words = record { region = mapped 0x1000 4096; cpus = 8 }

-- Another thread adds 5 on CPU 3.
abbrev five_on_three : Mem → Mem
five_on_three m = write m 0x1018 (usize (m 0x1018 + 5))

abbrev interrupted : List Event
interrupted = tick ∷ tick ∷ tick ∷ preempt five_on_three (on_cpu 3) ∷ []

abbrev started : World
started = record { mem = λ a. 0; area = on_cpu 2 }

slot_adds :
    (j count : ℕ) (m : Mem)
    → j < 8
    → let a = 0x1000 + j * 8 in
      total words (write m a (usize (m a + count))) ≈ (total words m + count)
unfolding Regions.base
slot_adds j count m inside = sum-add 0x1000 8 j count m inside

adds : Adds (total words) interrupted 5
adds = by_tick (by_tick (by_tick (by_others 5 (λ m. slot_adds 3 5 m (omega arith)) none_left)))

schedule : Schedule (total words) x86_64 (call x86_64 interrupted ∷ call x86_64 [] ∷ []) 5
schedule = turn 5 (set_up x86_64 interrupted) adds (turn 0 (set_up x86_64 []) none_left ended)

add-Counted_example :
    Counted
      (total words)
      x86_64
      7
      (total words started.mem)
      5
      (add (linux x86_64) handle words 7 (call x86_64 interrupted ∷ call x86_64 [] ∷ []) started)
add-Counted_example = add-Counted x86_64 handle words 7 (omega arith) schedule started

on_two : cpu_id started.area ≡ some 2
unfolding cpu_id Ops.cpu_id_new
on_two = refl

add-returns_example :
    (s' : World) × (prev : ℕ) × (add (linux x86_64) handle words 7 (call x86_64 [] ∷ []) started
      ≡ returned s' prev [])
add-returns_example =
    add-returns x86_64 handle words 7 (omega arith) (call x86_64 []) [] started 2 (set_up x86_64 [])
      refl on_two (omega arith)

abbrev slot_two : Word cpu_kind
slot_two = record { word = 0x1010; key = 2 }

-- The thread comes back to CPU 2.
abbrev stays : List Event
stays = tick ∷ tick ∷ tick ∷ preempt five_on_three (on_cpu 2) ∷ []

stays_add : Adds (total words) stays 5
stays_add = by_tick (by_tick (by_tick (by_others 5 (λ m. slot_adds 3 5 m (omega arith)) none_left)))

abbrev after_both : World
after_both = record {
  mem = write (five_on_three (λ a. 0)) 0x1010 7;
  area = record (on_cpu 2) { rseq_cs = 0x1000 };
}

adds_seven :
    Ops.fetch_add (linux x86_64) (call x86_64 stays) handle slot_two 7 started
    ≡ some (after_both, ok 0)
unfolding Ops.fetch_add Sections.fetch_add Sections.enter Kernels.call Machine.attempt
adds_seven = refl
