-- ===== src/Thread/Outcome.antt =====
-- What a caller of src/thread.rs may conclude from the result of an operation.
use mathlib.Core.Path.{subst}
use rseq_rs.Base.{◌≡◌, refl, sym, ap, ◌∙◌, true, false, some, Option, Bool, arith, IsU32, List, ◌∷◌}
use rseq_rs.Abi.{Area}
use rseq_rs.Machine.{Mem}
use rseq_rs.Kernel.{Event, tick, preempt}
use rseq_rs.Section.Linearized.{Linearized, now, later, retry, after}
use rseq_rs.Cs.{Arch, linux, World, Call}
use rseq_rs.Thread.{Kind, Thread, Error, Result, err}
use rseq_rs.Thread.Promise.{Untouched}
use rseq_rs.Thread.Tells.{Tells, promised-Tells}
use rseq_rs.Thread.Lift.{IsSetUp, TakesEffect}
use rseq_rs.Thread.Operation.{
  Operation, compare_exchange, compare_exchange_if, fetch_add, load_if_ne, fetch_add_at, store_if,
  perform, promised, Leftover, word_of, IsPaired, perform-TakesEffect,
}

-- A promise keeps the words where it gives an error.
abbrev Harmless : (Mem → Area → Mem × Result) → Type 0
Harmless promise = (m : Mem) (a : Area) (e : Error) → (promise m a).1 ≡ err e → (promise m a).0 ≡ m

Harmless-Linearized :
    {promise : Mem → Area → Mem × Result}
    → Harmless promise
    → {m' : Mem} {r : Result} {es : List Event} {m : Mem} {a : Area} (e : Error) → r ≡ err e
    → Linearized promise Untouched m' r es m a
    → m' ≡ after es m
Harmless-Linearized harmless {es = es} {m = m} {a = a} e failed (now p q) =
    p ∙ ap (after es) (harmless m a e (sym q ∙ failed))
Harmless-Linearized harmless e failed (later l) = Harmless-Linearized harmless e failed l
Harmless-Linearized harmless e failed (retry {es = es} {others = g} kept l) =
    Harmless-Linearized harmless e failed l ∙ ap (λ m. after es (g m)) kept

-- The words and the area at an instant of a call: the events up to it have changed them, and the stores that
-- attempts which were given up have left behind.
pub data Instant (scratch : Mem → Mem → Type 0) (m' : Mem) (a' : Area)
    : List Event → Mem → Area → Type 0 where
  reached : {es : List Event} → Instant scratch m' a' es m' a'
  past_line :
      {es : List Event} {m : Mem} {a : Area}
      → Instant scratch m' a' es m a
      → Instant scratch m' a' (tick ∷ es) m a
  past_preempt :
      {es : List Event} {m m₁ : Mem} {a a₁ : Area} {others : Mem → Mem}
      → scratch m m₁
      → Instant scratch m' a' es (others m₁) a₁
      → Instant scratch m' a' (preempt others a₁ ∷ es) m a

-- At some instant the words, the area and the result are so related.
abbrev pub AtOnce :
    (scratch : Mem → Mem → Type 0)
    → (Mem → Area → Result → Type 0)
    → Result
    → List Event
    → Mem
    → Area
    → Type 0
AtOnce scratch P r es m a = (m' : Mem) × (a' : Area) × Instant scratch m' a' es m a × P m' a' r

-- What a promise does at every instant, the call has done at one.
outcome-Linearized :
    {promise : Mem → Area → Mem × Result} {scratch : Mem → Mem → Type 0}
    (P : Mem → Area → Result → Type 0)
    → ((m : Mem) (a : Area) → P m a (promise m a).1)
    → {m' : Mem} {r : Result} {es : List Event} {m : Mem} {a : Area}
    → Linearized promise scratch m' r es m a
    → AtOnce scratch P r es m a
outcome-Linearized P holds {m = m} {a = a} (now p q) =
    (m, a, reached, subst (P m a) (sym q) (holds m a))
outcome-Linearized P holds (later l) =
    let (m', a', at, so) = outcome-Linearized P holds l in (m', a', past_line at, so)
outcome-Linearized P holds (retry kept l) =
    let (m', a', at, so) = outcome-Linearized P holds l in (m', a', past_preempt kept at, so)

module _ {c : Call} {promise : Mem → Area → Mem × Result} {s : World}
    {call : Option (World × Result)} where
  failed :
      Harmless promise
      → TakesEffect c promise Untouched s call
      → (s' : World) (e : Error) → call ≡ some (s', err e)
      → s'.mem ≡ after c.events s.mem
  failed harmless effect s' e ran =
      let back = effect.returns in
      let words : s'.mem ≡ effect.world.mem = cc in
      let outcome : effect.result ≡ err e = cc in
      words ∙ Harmless-Linearized harmless e outcome effect.linear

  concluded :
      {scratch : Mem → Mem → Type 0} (P : Mem → Area → Result → Type 0)
      → ((m : Mem) (a : Area) → P m a (promise m a).1)
      → TakesEffect c promise scratch s call
      → (s' : World) (r : Result) → call ≡ some (s', r)
      → AtOnce scratch P r c.events s.mem s.area
  concluded {scratch = scratch} P holds effect s' r ran =
      let back = effect.returns in
      let outcome : effect.result ≡ r = cc in
      subst (λ r. AtOnce scratch P r c.events s.mem s.area) outcome
        (outcome-Linearized P holds effect.linear)

module _ {k : Kind} where
  abbrev pub stores_side : Operation k → Bool
  stores_side (store_if w expect new side side_new) = true
  stores_side o = false

  promised-Harmless : (o : Operation k) → stores_side o ≡ false → Harmless (promised o)
  promised-Harmless (compare_exchange w expect new) none_stored m a e bad = ground arith
  promised-Harmless (compare_exchange_if w expect new o other_expect) none_stored m a e bad =
      ground arith
  promised-Harmless (fetch_add w count) none_stored m a e bad = ground arith
  promised-Harmless (load_if_ne w expect_not offset) none_stored m a e bad = ground arith
  promised-Harmless (fetch_add_at w offset count) none_stored m a e bad = ground arith
  promised-Harmless (store_if w expect new side side_new) none_stored m a e bad = absurd (cc)

  Leftover-Untouched : (o : Operation k) → stores_side o ≡ false → Leftover o ≡ Untouched
  Leftover-Untouched (compare_exchange w expect new) clean = refl
  Leftover-Untouched (compare_exchange_if w expect new o other_expect) clean = refl
  Leftover-Untouched (fetch_add w count) clean = refl
  Leftover-Untouched (load_if_ne w expect_not offset) clean = refl
  Leftover-Untouched (fetch_add_at w offset count) clean = refl
  Leftover-Untouched (store_if w expect new side side_new) clean = absurd (cc)

module _ {k : Kind} (arch : Arch) (c : Call) (t : Thread) (o : Operation k) (s : World)
    (up : IsSetUp arch c) (small : IsU32 (word_of o).key) (paired : IsPaired o) where
  -- With the area registered, the key a u32 and a second word, if any, of the same key: for whatever
  -- interrupts an operation, there is an instant of the call that explains the result. An `Abort`:
  -- the thread is not on the index of the word. Any other result: it is, and an `Ok` of a compare
  -- carries the expected value, which the word holds, as the other word of `compare_exchange_if`
  -- holds its own; an `Ok` of `load_if_ne` carries the word, which is not the excluded value, an
  -- `Ok` of an add the word that it adds to; a `Miss` carries the word of the compare that fails,
  -- which is the first one that does; the adds never miss.
  pub perform-Tells :
      (s' : World) (r : Result)
      → perform (linux arch) c t o s ≡ some (s', r)
      → AtOnce (Leftover o) (Tells o) r c.events s.mem s.area
  perform-Tells =
      concluded (Tells o) (promised-Tells o) (perform-TakesEffect arch c t o s up small paired)

  -- With the area registered, the key a u32 and a second word, if any, of the same key: whatever
  -- interrupts an operation other than `store_if`, if it gives an error, the words are as the other
  -- threads left them.
  pub perform-err :
      stores_side o ≡ false
      → (s' : World) (e : Error) → perform (linux arch) c t o s ≡ some (s', err e)
      → s'.mem ≡ after c.events s.mem
  perform-err clean = failed (promised-Harmless o clean) (
      subst (λ left. TakesEffect c (promised o) left s (perform (linux arch) c t o s))
        (Leftover-Untouched o clean) (perform-TakesEffect arch c t o s up small paired))
