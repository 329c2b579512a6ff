-- ===== src/Section/Linearized.antt =====
-- What it means that an interrupted call takes effect at one instant.
use rseq_rs.Base.{ℕ, ◌≡◌, ap, ◌∙◌, List, [], ◌∷◌, if◌then◌else◌}
use rseq_rs.Abi.{Area}
use rseq_rs.Attempt.{Attempt}
use rseq_rs.Machine.{Reg, Mem}
use rseq_rs.Kernel.{Event, tick, preempt}
use rseq_rs.Section.Check.{is_input}

-- The operands that the block is given; the other registers count for nothing.
abbrev pub inputs : (Reg → ℕ) → Reg → ℕ
inputs r q = if is_input q then r q else 0

-- What an operation does at one instant: the words after it, and its outcome.
abbrev pub Spec : Type 0
Spec = (Reg → ℕ) → Mem → Area → Mem × Attempt

-- The words after the interruptions of the events.
abbrev pub after : List Event → Mem → Mem
after [] m = m
after (tick ∷ es) m = after es m
after (preempt others area ∷ es) m = after es (others m)

-- The area after the events.
abbrev pub area_after : List Event → Area → Area
area_after [] a = a
area_after (tick ∷ es) a = area_after es a
area_after (preempt others a' ∷ es) a = area_after es a'

-- From the words `m` and the area `a` the events lead to the words `m'` and the outcome `r`, as if `spec`
-- were done at one instant between two of them, and nothing else but the scratch stores of attempts
-- that were given up.
pub data Linearized {R : Type 0} (spec : Mem → Area → Mem × R) (scratch : Mem → Mem → Type 0)
    (m' : Mem) (r : R) : List Event → Mem → Area → Type 0 where
  now :
      {es : List Event} {m : Mem} {a : Area}
      → m' ≡ after es (spec m a).0
      → r ≡ (spec m a).1
      → Linearized spec scratch m' r es m a
  later :
      {es : List Event} {m : Mem} {a : Area}
      → Linearized spec scratch m' r es m a
      → Linearized spec scratch m' r (tick ∷ es) m a
  retry :
      {es : List Event} {m m₁ : Mem} {a a' : Area} {others : Mem → Mem}
      → scratch m m₁
      → Linearized spec scratch m' r es (others m₁) a'
      → Linearized spec scratch m' r (preempt others a' ∷ es) m a

-- A view of the outcome, an equal specification, and a wider set of scratch stores.
pub Linearized-map :
    {R S : Type 0} (f : R → S) {spec : Mem → Area → Mem × R} {spec' : Mem → Area → Mem × S}
    {scratch scratch' : Mem → Mem → Type 0}
    → ((m : Mem) (a : Area) → ((spec m a).0 ≡ (spec' m a).0) × (f (spec m a).1 ≡ (spec' m a).1))
    → ((m m' : Mem) → scratch m m' → scratch' m m')
    → {m' : Mem} {r : R} {es : List Event} {m : Mem} {a : Area}
    → Linearized spec scratch m' r es m a
    → Linearized spec' scratch' m' (f r) es m a
Linearized-map f same wider {es = es} {m = m} {a = a} (now p q) =
    now (p ∙ ap (after es) (same m a).0) (ap f q ∙ (same m a).1)
Linearized-map f same wider (later l) = later (Linearized-map f same wider l)
Linearized-map f same wider (retry {m = m} {m₁ = m₁} sc l) =
    retry (wider m m₁ sc) (Linearized-map f same wider l)
