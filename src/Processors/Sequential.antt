-- ===== src/Processors/Sequential.antt =====
-- The plain operations of src/thread.rs on several processors, and what their calls return.
use rseq_rs.Base.{ℕ, ◌<◌, ◌%◌, ◌^◌, ◌≡◌, ◌≢◌, ◌≤◌, sym, ◌∙◌, inl, inr, some, length}
use rseq_rs.Abi.{Area, field_at}
use rseq_rs.Machine.{Mem, attempt}
use rseq_rs.Kernel.{Kernel}
use rseq_rs.Section.Interrupt.{IsSection}
use rseq_rs.Section.Direct.{IsDirect}
use rseq_rs.Cs.{Arch}
use rseq_rs.Thread.{Kind}
use rseq_rs.Thread.Promise.{index}
use rseq_rs.Thread.Lift.{signature}
use rseq_rs.Thread.Sections.{view_of, operation-IsSection, operation-same, operation-Scratch}
use rseq_rs.System.{Client, System, load_local, switch, move, outcome_of}
use rseq_rs.System.Replays.{Replays-map}
use rseq_rs.System.Operations.{Seat, Job, IsReady, call_of, clients, Sequential}
use rseq_rs.Processors.{Processors, seen_by, Reached, begin_on}
use rseq_rs.Processors.Operations.{
  Plain, operation, word_in, other_in, plain-IsDirect, plain-index, plain-reads, plain-Stores,
  plain-word, plain-key,
}
use rseq_rs.Processors.Invariant.{Stores, Separate}
use rseq_rs.Processors.Explained.{reached-History, reached-outcome, reached-resumes, reached-Holds}
use rseq_rs.Processors.Progress.{Stays, Stays-ended}

module _ (arch : Arch) (k : Kernel) {kind : Kind} (ops : ℕ → Plain kind) (seats : ℕ → Seat) where
  -- Call `i` is the operation `ops i`.
  abbrev pub tasks : ℕ → Job
  tasks i = record { seat = seats i; kind = kind; operation = operation (ops i) }

  abbrev pub programs : ℕ → Client
  programs = clients arch k tasks

  -- No operation stores to a word that an operation with another key reads.
  abbrev pub AreApart : Type 0
  AreApart =
      (i j : ℕ)
      → (word_in (ops i)).key ≢ (word_in (ops j)).key
      → ((word_in (ops i)).word ≢ (word_in (ops j)).word)
        × ((word_in (ops i)).word ≢ (other_in (ops j)).word)

  module _ (registered : k.registered ≡ signature arch) (ready : (i : ℕ) → IsReady (tasks i))
      (apart : AreApart) (m : Mem) (home : ℕ → Area) (first : ℕ → ℕ) (cpus : ℕ)
      (placed : (p : ℕ) → p < cpus → index kind (home (first p)) ≡ p) where
    secs : (i : ℕ) → IsSection k (programs i).desc (programs i).blk (programs i).spec
    secs i =
        operation-IsSection (call_of k (tasks i)) arch (operation (ops i))
          (record { registered = registered; fits = (ready i).fits })

    abbrev direct : (i : ℕ) → IsDirect (programs i).blk
    direct i = plain-IsDirect arch (ops i)

    shows : (i : ℕ) (a : Area) → field_at a (programs i).blk.id_off % 2 ^ 32 % 2 ^ 32 ≡ index kind a
    shows i = plain-index arch (ops i)

    stores : (i : ℕ) → Stores (programs i)
    stores i = plain-Stores arch k (seats i) (ops i)

    separate : Separate programs (index kind) cpus secs direct shows stores
    separate i j differ q reads =
        let word = λ (i : ℕ). plain-word (call_of k (tasks i)) (seats i).thread (ops i) in
        let key =
          λ (i : ℕ). plain-key (call_of k (tasks i)) (seats i).thread (ops i) (ready i).small in
        let keys = λ (e : (word_in (ops i)).key ≡ (word_in (ops j)).key).
          differ (key i ∙ (e ∙ sym (key j))) in
        let (own, other) = apart i j keys in
        elim (plain-reads arch (call_of k (tasks j)) (seats j).thread (ops j) q reads) [
          | inl at ↦ λ e. own (sym (word i) ∙ (e ∙ at))
          | inr at ↦ λ e. other (sym (word i) ∙ (e ∙ at))
        ]

    module _ (t : Processors)
        (reached : Reached k programs
          (index kind)
          cpus
          (begin_on k programs (index kind) cpus m home first)
          t) where
      -- With the areas registered with the signature of the architecture, descriptors at 64-bit
      -- addresses, keys that are u32, two words of one key where there are two, no operation that stores
      -- to a word that an operation with another key reads, and an area on each processor that shows
      -- the number of the processor as its index: any number of calls of `compare_exchange`,
      -- `compare_exchange_if` and `fetch_add` by threads on any number of processors, each of which
      -- executes its lines at any speed, while the kernel switches between the calls and moves them to
      -- other processors after any line, take effect one after another: at every moment the words are
      -- those that the calls in the log, each of them once, give in that order, each as its documentation
      -- promises and with the promised result, and attempts that were given up leave no trace.
      pub reached-Sequential : Sequential tasks m t.log t.words
      reached-Sequential =
          Replays-map (λ j. view_of (tasks j).operation)
            (λ j.
              operation-same arch (call_of k (tasks j)) (seats j).thread (tasks j).operation
                (ready j).small)
            (λ j. operation-Scratch arch (call_of k (tasks j)) (seats j).thread (tasks j).operation)
            (reached-History programs (index kind) cpus secs direct shows stores separate m home
              first placed t reached)

      -- Under the same conditions, a call that has come to the end of its block is in the log, with the
      -- outcome that it returns.
      pub reached-returns :
          (i : ℕ)
          → (t.locals i).ip ≡ length (programs i).blk.code
          → outcome_of i t.log ≡ some (attempt (programs i).blk (load_local t.words (t.locals i)))
      reached-returns =
          reached-outcome programs (index kind) cpus secs direct shows stores separate m home first
            placed t reached

      -- Under the same conditions, the kernel kills no thread that it lets go on, on whatever processor
      -- and wherever it was interrupted.
      pub reached-unharmed :
          (p j : ℕ) (a : Area)
          → (u : System) × (move k programs (switch j a) (seen_by p t) ≡ some u)
      reached-unharmed =
          reached-resumes programs (index kind) cpus secs direct shows stores separate m home first
            placed t reached

      -- Under the same conditions, a call that is on a processor and stays there for as many lines as its
      -- block has comes to its end, whatever the other processors execute and switch to meanwhile.
      pub reached-ends :
          (p n : ℕ) (u : Processors)
          → p < cpus
          → Stays k programs (index kind) cpus p t n u
          → length (programs (t.running p)).blk.code ≤ n
          → (u.running p ≡ t.running p)
            × ((u.locals (t.running p)).ip ≡ length (programs (t.running p)).blk.code)
      reached-ends p n u within stays enough =
          Stays-ended programs (index kind) cpus secs direct shows stores separate p within t
            (reached-Holds programs (index kind) cpus secs direct shows stores separate m home first
              placed t reached)
            stays enough
