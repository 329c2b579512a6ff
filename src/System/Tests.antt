-- ===== src/System/Tests.antt =====
-- Calls that the kernel switches between inside their critical sections.
use rseq_rs.Base.{
  ℕ, zero, suc, ◌+◌, ◌≡◌, ◌≢◌, refl, true, Option, none, some, List, [], ◌∷◌, ◌++◌, arith,
}
use rseq_rs.Machine.{Mem}
use rseq_rs.Kernel.{Kernel}
use rseq_rs.Attempt.{ok, miss}
use rseq_rs.Abi.{sig_x86_64}
use rseq_rs.Cs.{x86_64}
use rseq_rs.Thread as Ops
use rseq_rs.Thread.{Word, cpu_kind, result_of}
use rseq_rs.Thread.Fixture.{linux_kernel, on_cpu, handle}
use rseq_rs.System.{System, Move, line, switch, moves, begin, outcome_of}
use rseq_rs.System.Operations.{Seat, Job, clients, attempt_of, Sequential, moves-Sequential}
use rseq_rs.System.Tickets.{moves-total}
use rseq_rs.System.Apart.{moves-distinct}
use rseq_rs.System.Winner.{moves-winner}
use rseq_rs.System.Tickets as Tickets
use rseq_rs.System.Winner as Winner

abbrev seats : ℕ → Seat
seats i = record { thread = handle; desc = 0x1000; garbage = λ r. 0xdead; zf = true }

abbrev word_two : Word cpu_kind
word_two = record { key = 2; word = 0x110 }

abbrev words : Mem
words a = 5

-- `n` lines one after another.
abbrev lines : ℕ → List Move
lines zero = []
lines (suc n) = line ∷ lines n

-- Call 0 is taken off the processor in front of its store, call 1 does all of its work, and call 0 goes
-- on.
abbrev cut : List Move
cut = lines 8 ++ (switch 1 (on_cpu 2) ∷ (lines 20 ++ (switch 0 (on_cpu 2) ∷ lines 20)))

abbrev adders : ℕ → Job
adders = Tickets.adders word_two (λ i. 3 + i) seats

abbrev kernel : Kernel
kernel = linux_kernel sig_x86_64

abbrev start : (ℕ → Job) → System
start jobs = begin kernel (clients x86_64 kernel jobs) words 0 (on_cpu 2)

abbrev end_of : Option System → System
end_of none = start adders
end_of (some t) = t

-- The system after the moves.
abbrev final : (ℕ → Job) → System
unfolding moves
final jobs = end_of (moves kernel (clients x86_64 kernel jobs) cut (start jobs))

runs : moves kernel (clients x86_64 kernel adders) cut (start adders) ≡ some (final adders)
unfolding moves final
runs = refl

-- Call 1 was first, and both additions count.
both :
    ((final adders).words 0x110 ≡ 12)
    × (outcome_of 1 (final adders).log ≡ some (ok 5))
    × (outcome_of 0 (final adders).log ≡ some (ok 9))
unfolding final
both = (refl, refl, refl)

abbrev claimers : ℕ → Job
claimers = Winner.claimers word_two 5 (λ i. 10 + i) seats

runs_claimers :
    moves kernel (clients x86_64 kernel claimers) cut (start claimers) ≡ some (final claimers)
unfolding moves final
runs_claimers = refl

-- Call 1 claims the word, and call 0 misses with its value.
claimed :
    ((final claimers).words 0x110 ≡ 11)
    × (outcome_of 1 (final claimers).log ≡ some (ok 5))
    × (outcome_of 0 (final claimers).log ≡ some (miss 11))
unfolding final
claimed = (refl, refl, refl)

moves-Sequential_example :
    (t : System) × (moves kernel (clients x86_64 kernel adders) cut (start adders) ≡ some t)
    × Sequential adders words t.log t.words
moves-Sequential_example =
    moves-Sequential x86_64 kernel adders refl
      (λ i. record { fits = omega arith; small = omega arith; paired = refl }) cut words 0
      (on_cpu 2)

abbrev nine : ℕ
nine = 9

moves-distinct_example : nine ≢ 5
unfolding final
moves-distinct_example =
    moves-distinct word_two (λ i. 3 + i) seats x86_64 kernel refl (omega arith) (λ i. omega arith)
      cut words 0 (on_cpu 2) (final adders) runs 0 1 (λ e. absurd (cc)) refl refl 9 5 refl refl
      (omega arith) (omega arith) (omega arith)

moves-winner_example : result_of (attempt_of x86_64 kernel claimers (final claimers) 0) ≢ Ops.ok 11
unfolding final
moves-winner_example =
    moves-winner word_two 5 (λ i. 10 + i) seats x86_64 kernel refl (omega arith) (λ i. omega arith)
      (λ i. omega arith) cut words 0 (on_cpu 2) (final claimers) runs_claimers 1 0
      (λ e. absurd (cc)) refl refl 5 11 refl
