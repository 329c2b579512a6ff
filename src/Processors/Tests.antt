-- ===== src/Processors/Tests.antt =====
-- Two processors with a word each: call 0 is taken off processor 0 inside its section, and goes on on processor
-- 1, when call 1 has returned there.
use rseq_rs.Base.{
  ℕ, zero, suc, ◌+◌, ◌*◌, ◌<◌, ◌≡◌, ◌≢◌, refl, Bool, true, false, IsU32, none, some, arith, ◌==◌,
  if◌then◌else◌, Bool-cases, inl, inr, Option,
}
use rseq_rs.Abi.{sig_aarch64}
use rseq_rs.Attempt.{ok, abort}
use rseq_rs.Machine.{attempt}
use rseq_rs.Kernel.{Kernel}
use rseq_rs.Cs.{aarch64}
use rseq_rs.Region as Regions
use rseq_rs.Region.{mapped}
use rseq_rs.Words.{Words, get}
use rseq_rs.Counter as Sums
use rseq_rs.Counter.{total}
use rseq_rs.Thread.{Word, cpu_kind}
use rseq_rs.Thread.Promise.{index}
use rseq_rs.Thread.Count.{◌≈◌}
use rseq_rs.Thread.Fixture.{linux_kernel, on_cpu, handle}
use rseq_rs.System.{Client, System, load_local, switch, move, execute, outcome_of}
use rseq_rs.System.Operations.{Seat, IsReady, Sequential}
use rseq_rs.System.Added as Added
use rseq_rs.Processors.{
  Processors, seen_by, with_processor, execute_on, Switch, Reached, start, by_line, by_switch,
  begin_on,
}
use rseq_rs.Processors.Counter.{additions, reached-total}
use rseq_rs.Processors.Sequential.{
  tasks, programs, AreApart, reached-Sequential, reached-returns, reached-unharmed, reached-ends,
}
use rseq_rs.Processors.Operations.{Plain}
use rseq_rs.Processors.Progress.{Stays, here, own_line, other_line}

abbrev kernel : Kernel
kernel = linux_kernel sig_aarch64

abbrev slots : Words
slots = record { region = mapped 0x1000 4096; cpus = 2 }

-- Call 1 is for CPU 1, the others are for CPU 0.
abbrev keys : ℕ → ℕ
keys i = if i == 1 then 1 else 0

abbrev words : ℕ → Word cpu_kind
words i = record { word = 0x1000 + keys i * 8; key = keys i }

abbrev counts : ℕ → ℕ
counts i = 3 + i

abbrev seats : ℕ → Seat
seats i = record { thread = handle; desc = 0x1000; garbage = λ r. 0xdead; zf = true }

abbrev ops : ℕ → Plain cpu_kind
ops = additions aarch64 kernel slots keys words counts seats

abbrev calls : ℕ → Client
calls = programs aarch64 kernel ops seats

abbrev begun : Processors
begun = begin_on kernel calls (index cpu_kind) 2 (λ a. 7) on_cpu (λ p. p)

abbrev Reaches : Processors → Type 0
Reaches = Reached kernel calls (index cpu_kind) 2 begun

-- `n` lines of processor `p`.
abbrev lines_on : (n p : ℕ) → Processors → Processors
lines_on zero p s = s
lines_on (suc n) p s = lines_on n p (execute_on kernel calls (index cpu_kind) 2 p s)

lines_on-Reaches : (n p : ℕ) → p < 2 → (s : Processors) → Reaches s → Reaches (lines_on n p s)
lines_on-Reaches zero p h s r = r
lines_on-Reaches (suc n) p h s r = lines_on-Reaches n p h _ (by_line p h r)

abbrev system_of : Option System → Processors → ℕ → System
system_of none s p = seen_by p s
system_of (some t) s p = t

-- Processor `p` goes on with call `j`.
abbrev turned : (p j : ℕ) → Processors → Processors
turned p j s =
    with_processor p (system_of (move kernel calls (switch j (on_cpu p)) (seen_by p s)) s p) s

abbrev apart : Processors
apart = lines_on 28 1 (lines_on 9 0 begun)

abbrev swapped : Processors
swapped = lines_on 20 0 (turned 0 2 apart)

abbrev final : Processors
final = lines_on 20 1 (turned 1 0 swapped)

-- Calls 1 and 2 add 4 and 5, call 0 gives up.
ends :
    (final.words 0x1000 ≡ 12)
    × (final.words 0x1008 ≡ 11)
    × (outcome_of 0 final.log ≡ some abort)
    × (outcome_of 1 final.log ≡ some (ok 7))
    × (outcome_of 2 final.log ≡ some (ok 7))
unfolding move execute
ends = (refl, refl, refl, refl, refl)

abbrev turned_to : (p j : ℕ) → Processors → System
turned_to p j s = system_of (move kernel calls (switch j (on_cpu p)) (seen_by p s)) s p

to_two : Switch kernel calls (index cpu_kind) 2 0 2 (on_cpu 0) apart (turned_to 0 2 apart)
unfolding move execute
to_two = record { within = omega arith; placed = refl; free = free; resumed = refl }
  where
    free : (q : ℕ) → q < 2 → 0 ≢ q → apart.running q ≢ 2
    free zero h ne = absurd (ne refl)
    free (suc zero) h ne = λ e. absurd (cc)
    free (suc (suc q)) h ne = absurd (omega (arith, h))

to_zero : Switch kernel calls (index cpu_kind) 2 1 0 (on_cpu 1) swapped (turned_to 1 0 swapped)
unfolding move execute
to_zero = record { within = omega arith; placed = refl; free = free; resumed = refl }
  where
    free : (q : ℕ) → q < 2 → 1 ≢ q → swapped.running q ≢ 0
    free zero h ne = λ e. absurd (cc)
    free (suc zero) h ne = absurd (ne refl)
    free (suc (suc q)) h ne = absurd (omega (arith, h))

final-Reaches : Reaches final
final-Reaches = lines_on-Reaches 20 1 (omega arith) _ (
    by_switch 1 0 (on_cpu 1)
      (lines_on-Reaches 20 0 (omega arith) _ (
        by_switch 0 2 (on_cpu 0)
          (lines_on-Reaches 28 1 (omega arith) _ (lines_on-Reaches 9 0 (omega arith) _ start))
          to_two))
      to_zero)

found : (i : ℕ) → get slots (keys i) ≡ some (words i)
unfolding get Regions.word Regions.base
found i = elim (Bool-cases (i == 1)) [ inl same ↦ rw same refl | inr other ↦ rw other refl ]

placed : (p : ℕ) → p < 2 → index cpu_kind (on_cpu p) ≡ p
placed p h = omega arith

reached-total_example : total slots final.words ≈ (14 + Added.total counts final.log)
unfolding Sums.sum_of_slots
reached-total_example =
    reached-total aarch64 kernel slots keys words counts seats refl (omega arith) (λ i. omega arith)
      found (λ a. 7) on_cpu (λ p. p) 2 placed final final-Reaches

abbrev ready : (i : ℕ) → IsReady (tasks aarch64 kernel ops seats i)
ready i = record { fits = omega arith; small = small (i == 1); paired = refl }
  where
    small : (b : Bool) → IsU32 (if b then 1 else 0)
    small true = omega arith
    small false = omega arith

-- The words of the two CPUs.
separate : AreApart aarch64 kernel ops seats
separate i j ne = (λ e. ne (omega arith), λ e. ne (omega arith))

reached-Sequential_example :
    Sequential (tasks aarch64 kernel ops seats) (λ a. 7) final.log final.words
reached-Sequential_example =
    reached-Sequential aarch64 kernel ops seats refl ready separate (λ a. 7) on_cpu (λ p. p) 2
      placed final final-Reaches

reached-returns_example :
    outcome_of 2 final.log ≡ some (attempt (calls 2).blk (load_local final.words (final.locals 2)))
unfolding move execute
reached-returns_example =
    reached-returns aarch64 kernel ops seats refl ready separate (λ a. 7) on_cpu (λ p. p) 2 placed
      final final-Reaches 2 refl

reached-unharmed_example :
    (u : System) × (move kernel calls (switch 2 (on_cpu 1)) (seen_by 1 final) ≡ some u)
reached-unharmed_example =
    reached-unharmed aarch64 kernel ops seats refl ready separate (λ a. 7) on_cpu (λ p. p) 2 placed
      final final-Reaches 1 2 (on_cpu 1)

-- Twenty lines of processor 0, with a line of processor 1 behind the first.
abbrev mixed : ℕ → Processors
mixed zero = begun
mixed (suc zero) =
    execute_on kernel calls (index cpu_kind) 2 1
      (execute_on kernel calls (index cpu_kind) 2 0 begun)
mixed (suc n) = execute_on kernel calls (index cpu_kind) 2 0 (mixed n)

mixed-Stays : (n : ℕ) → Stays kernel calls (index cpu_kind) 2 0 begun n (mixed n)
mixed-Stays zero = here
mixed-Stays (suc zero) = other_line 1 (omega arith) (omega arith) (own_line here)
mixed-Stays (suc (suc n)) = own_line (mixed-Stays (suc n))

reached-ends_example : ((mixed 20).running 0 ≡ 0) × (((mixed 20).locals 0).ip ≡ 20)
reached-ends_example =
    reached-ends aarch64 kernel ops seats refl ready separate (λ a. 7) on_cpu (λ p. p) 2 placed
      begun start 0 20 (mixed 20) (omega arith) (mixed-Stays 20) (omega arith)
