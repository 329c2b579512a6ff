-- ===== src/System/Added.antt =====
-- `fetch_add` of src/thread.rs, called by many threads, and a measure of the words.
use rseq_rs.Base.{ℕ, ◌+◌, inl, inr, List, [], ◌∷◌, ◌==◌, arith, Bool-cases}
use rseq_rs.Abi.{Area}
use rseq_rs.Machine.{Mem, usize, write}
use rseq_rs.Thread.{Kind, Word, sum_of}
use rseq_rs.Thread.Promise
use rseq_rs.Thread.Promise.{index}
use rseq_rs.Thread.Count.{added, ◌≈◌}
use rseq_rs.Thread.Operation.{fetch_add}
use rseq_rs.System.{Entry}
use rseq_rs.System.Replays.{nothing, given_up, takes}
use rseq_rs.System.Operations.{Seat, Job, Sequential}

-- What the calls of the log have added, by their results, when call `i` adds `counts i`.
abbrev pub total : (counts : ℕ → ℕ) → List Entry → ℕ
total counts [] = 0
total counts (e ∷ es) = total counts es + added (sum_of e.outcome) (counts e.who)

module _ (f : Mem → ℕ) {kind : Kind} (words : ℕ → Word kind) (counts : ℕ → ℕ) (seats : ℕ → Seat)
    (hits : (i : ℕ) (m : Mem)
      → f (write m (words i).word (usize (m (words i).word + counts i))) ≈ (f m + counts i)) where
  -- Call `i` adds `counts i` to its word.
  abbrev pub additions : ℕ → Job
  additions i = record { seat = seats i; kind = kind; operation = fetch_add (words i) (counts i) }

  promised-added :
      (i : ℕ) (m : Mem) (a : Area)
      → f (Promise.fetch_add (words i) (counts i) m a).0
        ≈ (f m + added (Promise.fetch_add (words i) (counts i) m a).1 (counts i))
  promised-added i m a = elim (Bool-cases (index kind a == (words i).key)) [
    | inl here ↦ rw here (hits i m)
    | inr elsewhere ↦ rw elsewhere (omega arith)
  ]

  pub Sequential-added :
      {m₀ m : Mem} {log : List Entry}
      → Sequential additions m₀ log m
      → f m ≈ (f m₀ + total counts log)
  Sequential-added nothing = omega arith
  Sequential-added (given_up i r same) = rw same (Sequential-added r)
  Sequential-added (takes {m = m} {e = e} r first words_after out) =
      let before = Sequential-added r in
      let own = promised-added e.who m e.area in rw (words_after, out) (omega (arith, before, own))
