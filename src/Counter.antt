-- ===== src/Counter.antt =====
-- benches/counter.rs: the counter with one word for each CPU, and its retry loops.
pub mod Total
pub mod Loop
mod Tests
use rseq_rs.Base.{ℕ, zero, suc, ◌+◌, ◌*◌, ◌>>=◌, Option, none, some, List, [], ◌∷◌}
use rseq_rs.Abi.{Area}
use rseq_rs.Machine.{Mem}
use rseq_rs.Kernel.{Event, tick, preempt}
use rseq_rs.Section.Linearized.{after, area_after}
use rseq_rs.Cs.{Target, World, Call}
use rseq_rs.Region.{word_size, base}
use rseq_rs.Words.{Words, get}
use rseq_rs.Thread as Ops
use rseq_rs.Thread.{Kind, cpu_kind, Word, Thread, Result, ok, err, cpu_id}

-- The loop has returned, with the calls that were not made; or is still going when the calls are used
-- up; or the process was killed.
pub data Outcome : Type 0 where
  returned : World → (prev : ℕ) → List Call → Outcome
  going : World → Outcome
  killed : Outcome

-- A turn that makes no call.
abbrev pub waited : Call → World → World
waited c s = record { mem = after c.events s.mem; area = area_after c.events s.area }

-- The `match` on the result of `fetch_add`.
abbrev pub settle : (World → Outcome) → List Call → Option (World × Result) → Outcome
settle again cs none = killed
settle again cs (some (s, ok prev)) = returned s prev cs
settle again cs (some (s, err e)) = again s

module _ (target : Target) (t : Thread) where
  -- One call for each turn of the loop.
  unfoldable pub add : Words → (count : ℕ) → List Call → World → Outcome
  add ws count [] s = going s
  add ws count (c ∷ cs) s =
      let again = add ws count cs in
      elim (cpu_id s.area >>= get ws) [
        | none ↦ again (waited c s)
        | some w ↦ settle again cs (Ops.fetch_add target c t {k = cpu_kind} w count s)
      ]

  unfoldable pub add_word : Word cpu_kind → (count : ℕ) → List Call → World → Outcome
  add_word w count [] s = going s
  add_word w count (c ∷ cs) s =
      let again = add_word w count cs in settle again cs (Ops.fetch_add target c t w count s)

-- The sum of the words of `n` slots.
unfoldable pub sum_of_slots : (at n : ℕ) → Mem → ℕ
sum_of_slots at zero m = 0
sum_of_slots at (suc n) m = sum_of_slots at n m + m (at + n * word_size)

abbrev pub total : Words → Mem → ℕ
total ws = sum_of_slots (base ws.region) ws.cpus
