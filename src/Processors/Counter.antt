-- ===== src/Processors/Counter.antt =====
-- `fetch_add` of src/thread.rs on the slots of src/words.rs, called by many threads on several processors: the
-- counter of benches/counter.rs.
use rseq_rs.Base.{ℕ, ◌≡◌, ◌≢◌, refl, sym, ◌∙◌, inl, inr, some, arith, ◌<◌, IsU32, IsUsize, ◌+◌}
use rseq_rs.Abi.{Area}
use rseq_rs.Machine.{Mem}
use rseq_rs.Kernel.{Kernel}
use rseq_rs.Cs.{Arch}
use rseq_rs.Thread.{cpu_kind, Word}
use rseq_rs.Thread.Promise.{index}
use rseq_rs.Thread.Lift.{signature}
use rseq_rs.Thread.Count.{◌≈◌}
use rseq_rs.Thread.Fixture.{handle}
use rseq_rs.Words.{Words, get}
use rseq_rs.Words.Slots.{get-apart, get-slot}
use rseq_rs.Counter.{total}
use rseq_rs.Counter.Loop.{slot-adds}
use rseq_rs.System.Operations.{Seat, IsReady}
use rseq_rs.System.Added as Added
use rseq_rs.System.Added.{Sequential-added}
use rseq_rs.Processors.{Processors, Reached, begin_on}
use rseq_rs.Processors.Operations.{Plain, fetch_add}
use rseq_rs.Processors.Sequential.{tasks, programs, AreApart, reached-Sequential}

module _ (arch : Arch) (k : Kernel) (ws : Words) (keys : ℕ → ℕ) (words : ℕ → Word cpu_kind)
    (counts : ℕ → ℕ) (seats : ℕ → Seat) where
  -- Call `i` adds `counts i` to the word of CPU `keys i`.
  abbrev pub additions : ℕ → Plain cpu_kind
  additions i = fetch_add (words i) (counts i)

  module _ (registered : k.registered ≡ signature arch) (small : IsU32 ws.cpus)
      (fits : (i : ℕ) → IsUsize (seats i).desc) (found : (i : ℕ) → get ws (keys i) ≡ some (words i))
      (m : Mem) (home : ℕ → Area) (first : ℕ → ℕ) (cpus : ℕ)
      (placed : (p : ℕ) → p < cpus → index cpu_kind (home (first p)) ≡ p) where
    ready : (i : ℕ) → IsReady (tasks arch k additions seats i)
    ready i =
        let (within, _, keyed) = get-slot ws (keys i) small (words i) (found i) in
        record { fits = fits i; small = omega (arith, within, keyed, small); paired = refl }

    apart : AreApart arch k additions seats
    apart i j differ =
        let (_, _, own) = get-slot ws (keys i) small (words i) (found i) in
        let (_, _, its) = get-slot ws (keys j) small (words j) (found j) in
        let keys_differ : keys i ≢ keys j = λ e. differ (own ∙ (e ∙ sym its)) in
        let ne : (words i).word ≢ (words j).word = λ e.
          elim (get-apart ws (keys i) (keys j) small keys_differ (words i) (words j) (found i)
            (found j)) [ inl before ↦ omega (arith, e) | inr after ↦ omega (arith, e) ] in
        (ne, ne)

    -- With the areas registered with the signature of the architecture, descriptors at 64-bit addresses, a
    -- count of CPUs that is a u32, every call of `fetch_add` on the word that `get` gives for some
    -- number, and an area on each processor that shows the number of the processor as its CPU: while
    -- any number of threads on any number of processors call `fetch_add`, interrupted and migrated
    -- after any line, no addition is lost or done twice: at every moment the sum of the words is, up
    -- to multiples of 2^64, what it was in the beginning plus the counts of the calls that have passed
    -- their commit label and give `Ok`.
    pub reached-total :
        (t : Processors)
        → Reached k
            (programs arch k additions seats)
            (index cpu_kind)
            cpus
            (begin_on k (programs arch k additions seats) (index cpu_kind) cpus m home first)
            t
        → total ws t.words ≈ (total ws m + Added.total counts t.log)
    reached-total t reached =
        Sequential-added (total ws) words counts seats
          (λ i n. slot-adds arch handle ws (counts i) small (keys i) (words i) (found i) n)
          (reached-Sequential arch k additions seats registered ready apart m home first cpus placed
            t reached)
