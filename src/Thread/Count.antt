-- ===== src/Thread/Count.antt =====
-- `fetch_add` of src/thread.rs as a counter: what it adds to a measure of the words, whatever the other
-- threads add meanwhile.
use rseq_rs.Base.{
  ℕ, ◌+◌, ◌≡◌, sym, ap, inl, inr, some, List, [], ◌∷◌, ◌==◌, Bool-cases, IsU32, arith,
}
use rseq_rs.Abi.{Area}
use rseq_rs.Machine.{Mem, write, usize}
use rseq_rs.Kernel.{Event, tick, preempt}
use rseq_rs.Section.Linearized.{Linearized, now, later, retry, after}
use rseq_rs.Cs.{Arch, linux, World, Call}
use rseq_rs.Thread as Ops
use rseq_rs.Thread.{Kind, Word, Thread, Result, ok, err}
use rseq_rs.Thread.Promise
use rseq_rs.Thread.Promise.{Untouched, index}
use rseq_rs.Thread.Lift.{IsSetUp}
use rseq_rs.Thread.FetchAdd.{fetch_add-TakesEffect}

-- What a call has added, by its result.
abbrev pub added : Result → ℕ → ℕ
added (ok old) count = count
added (err e) count = 0

-- Equal up to multiples of 2^64.
infix 40 ◌≈◌
abbrev pub ◌≈◌ : ℕ → ℕ → Type 0
a ≈ b = usize a ≡ usize b

-- In the interruptions of the events, the other threads add `n` to the measure `f`.
pub data Adds (f : Mem → ℕ) : List Event → ℕ → Type 0 where
  none_left : Adds f [] 0
  by_tick : {es : List Event} {n : ℕ} → Adds f es n → Adds f (tick ∷ es) n
  by_others :
      {others : Mem → Mem} {area : Area} {es : List Event} {n : ℕ} (d : ℕ)
      → ((m : Mem) → f (others m) ≈ (f m + d))
      → Adds f es n
      → Adds f (preempt others area ∷ es) (d + n)

module _ (f : Mem → ℕ) where
  pub after-Adds : {es : List Event} {n : ℕ} → Adds f es n → (m : Mem) → f (after es m) ≈ (f m + n)
  after-Adds none_left m = omega arith
  after-Adds (by_tick rest) m = after-Adds rest m
  after-Adds (by_others {others = g} {n = n} d adds rest) m =
      let later_on = after-Adds rest (g m) in let here = adds m in omega (arith, later_on, here)

  Adds-Linearized :
      {promise : Mem → Area → Mem × Result} (count : ℕ)
      → ((m : Mem) (a : Area) → f (promise m a).0 ≈ (f m + added (promise m a).1 count))
      → {m' : Mem} {r : Result} {es : List Event} {m : Mem} {a : Area} {n : ℕ} → Adds f es n
      → Linearized promise Untouched m' r es m a
      → f m' ≈ (f m + (n + added r count))
  Adds-Linearized {promise = promise} count counts {m' = m'} {r = r} {m = m} {a = a} adds
        (now {es = es} p q) =
      let own = counts m a in
      let others = after-Adds adds (promise m a).0 in
      let same : f m' ≡ f (after es (promise m a).0) = ap f p in
      let gain : added r count ≡ added (promise m a).1 count = ap (λ r. added r count) q in
      omega (arith, own, others, same, gain)
  Adds-Linearized count counts (by_tick rest) (later l) = Adds-Linearized count counts rest l
  Adds-Linearized count counts (by_others {n = n} d adds rest)
        (retry {m = m} {m₁ = m₁} {others = g} kept l) =
      let own = Adds-Linearized count counts rest l in
      let others = adds m in
      let same : f (g m₁) ≡ f (g m) = ap (λ m. f (g m)) kept in omega (arith, own, others, same)

module _ (f : Mem → ℕ) (arch : Arch) (c : Call) (t : Thread) {k : Kind} (w : Word k) (count : ℕ)
    (s : World) (up : IsSetUp arch c) (small : IsU32 w.key) where
  -- With the area registered and the key a u32: if a store of the sum to the word adds `count` to a
  -- measure of the words, and the other threads add `n` to it while they interrupt the call, then
  -- no addition is lost: after the call the measure has grown by `n`, and by `count` if the call
  -- gives `Ok`, up to multiples of 2^64.
  pub fetch_add-Adds :
      ((m : Mem) → f (write m w.word (usize (m w.word + count))) ≈ (f m + count))
      → {n : ℕ} → Adds f c.events n
      → (s' : World) (r : Result) → Ops.fetch_add (linux arch) c t w count s ≡ some (s', r)
      → f s'.mem ≈ (f s.mem + (n + added r count))
  fetch_add-Adds hits adds s' r ran =
      let effect = fetch_add-TakesEffect arch c t w count s up small in
      let back = effect.returns in
      let words : s'.mem ≡ effect.world.mem = cc in
      let outcome : effect.result ≡ r = cc in
      let grown = Adds-Linearized f count (promised hits) adds effect.linear in
      rw (words, sym outcome) grown
    where
      promised :
          ((m : Mem) → f (write m w.word (usize (m w.word + count))) ≈ (f m + count))
          → (m : Mem) (a : Area)
          → f (Promise.fetch_add w count m a).0
            ≈ (f m + added (Promise.fetch_add w count m a).1 count)
      promised hits m a = elim (Bool-cases (index k a == w.key)) [
        | inl here ↦ rw here (hits m)
        | inr elsewhere ↦ rw elsewhere (omega arith)
      ]
