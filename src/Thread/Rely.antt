-- ===== src/Thread/Rely.antt =====
-- Two properties of the words through a call of src/thread.rs: one that the other threads keep before it takes
-- effect, and one that they keep behind it.
use mathlib.Core.Path.{subst}
use rseq_rs.Base.{sym, List, [], ◌∷◌}
use rseq_rs.Abi.{Area}
use rseq_rs.Machine.{Mem}
use rseq_rs.Kernel.{Event, tick, preempt}
use rseq_rs.Section.Linearized.{Linearized, now, later, retry, after}
use rseq_rs.Thread.{Result, ok, err}

-- In every interruption of the events, the other threads keep both properties of the words.
pub data Keeps (P Q : Mem → Type 0) : List Event → Type 0 where
  none_left : Keeps P Q []
  by_tick : {es : List Event} → Keeps P Q es → Keeps P Q (tick ∷ es)
  by_others :
      {others : Mem → Mem} {area : Area} {es : List Event}
      → ((m : Mem) → P m → P (others m))
      → ((m : Mem) → Q m → Q (others m))
      → Keeps P Q es
      → Keeps P Q (preempt others area ∷ es)

-- `Q` of the words behind a success, `P` behind an error.
abbrev pub Ends : (P Q : Mem → Type 0) → Mem → Result → Type 0
Ends P Q m (ok old) = Q m
Ends P Q m (err e) = P m

module _ {P Q : Mem → Type 0} where
  pub after-Keeps :
      {es : List Event}
      → Keeps P Q es
      → (r : Result) (m : Mem) → Ends P Q m r
      → Ends P Q (after es m) r
  after-Keeps none_left r m holds = holds
  after-Keeps (by_tick rest) r m holds = after-Keeps rest r m holds
  after-Keeps (by_others {others = g} p q rest) (ok old) m holds =
      after-Keeps rest (ok old) (g m) (q m holds)
  after-Keeps (by_others {others = g} p q rest) (err e) m holds =
      after-Keeps rest (err e) (g m) (p m holds)

  pub Linearized-Ends :
      {promise : Mem → Area → Mem × Result} {scratch : Mem → Mem → Type 0}
      → ((m : Mem) (a : Area) → P m → Ends P Q (promise m a).0 (promise m a).1)
      → ((m m' : Mem) → scratch m m' → P m → P m')
      → {m' : Mem} {r : Result} {es : List Event} {m : Mem} {a : Area} → Keeps P Q es
      → Linearized promise scratch m' r es m a
      → P m
      → Ends P Q m' r
  Linearized-Ends {promise = promise} does leaves {m' = m'} {r = r} {m = m} {a = a} keeps
        (now {es = es} p q) holds =
      subst (λ x. Ends P Q x r) (sym p)
        (subst (λ x. Ends P Q (after es (promise m a).0) x) (sym q)
          (after-Keeps keeps (promise m a).1 (promise m a).0 (does m a holds)))
  Linearized-Ends does leaves (by_tick rest) (later l) holds =
      Linearized-Ends does leaves rest l holds
  Linearized-Ends does leaves {m = m} (by_others p q rest) (retry {m₁ = m₁} left l) holds =
      Linearized-Ends does leaves rest l (p m₁ (leaves m m₁ left holds))
