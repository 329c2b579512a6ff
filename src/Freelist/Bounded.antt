-- ===== src/Freelist/Bounded.antt =====
-- The heads and links of benches/freelist.rs inside the vector of nodes, and calls that keep them there.
use mathlib.Core.Path.{subst}
use rseq_rs.Base.{ℕ, ◌<◌, ◌≡◌, sym, List, [], ◌∷◌, inl, inr, ◌==◌, Bool-cases}
use rseq_rs.Abi.{Area}
use rseq_rs.Machine.{Mem, write}
use rseq_rs.Kernel.{Event}
use rseq_rs.Section.Linearized.{Linearized, now, later, retry, after}
use rseq_rs.Cs.{Arch, Call}
use rseq_rs.Words.{Words}
use rseq_rs.Thread.{Result, ok, err}
use rseq_rs.Thread.Promise.{Untouched}
use rseq_rs.Thread.Lift.{IsSetUp}
use rseq_rs.Thread.Rely.{Keeps, by_tick, by_others, after-Keeps}
use rseq_rs.Freelist.{Nodes, next_at}
use rseq_rs.Freelist.Chain.{slot}

pub write-lt : (m : Mem) (a b v n : ℕ) → v < n → m b < n → write m a v b < n
write-lt m a b v n below old = elim (Bool-cases (a == b)) [
  | inl same ↦ rw same below
  | inr other ↦ rw other old
]

-- Every head and every link is the number of a node of the vector.
pub record IsBounded (ws : Words) (l : Nodes) (m : Mem) : Type 0 where
  pub heads : (key : ℕ) → key < ws.cpus → m (slot ws key) < l.len
  pub links : (node : ℕ) → node < l.len → m (next_at l node) < l.len

module _ (ws : Words) (l : Nodes) where
  pub write-IsBounded :
      (m : Mem) (a v : ℕ) → v < l.len → IsBounded ws l m → IsBounded ws l (write m a v)
  write-IsBounded m a v below old = record {
    heads = λ key h. write-lt m a (slot ws key) v l.len below (old.heads key h);
    links = λ node h. write-lt m a (next_at l node) v l.len below (old.links node h);
  }

  -- Calls in which the area is registered, and the other threads keep every head and every link in bounds.
  pub data Schedule (arch : Arch) : List Call → Type 0 where
    ended : Schedule arch []
    turn :
        {c : Call} {cs : List Call}
        → IsSetUp arch c
        → Keeps (IsBounded ws l) (IsBounded ws l) c.events
        → Schedule arch cs
        → Schedule arch (c ∷ cs)

  -- A success carries the number of a node.
  abbrev pub Fits : Result → Type 0
  Fits (ok old) = old < l.len
  Fits (err e) = e ≡ e

  abbrev pub Fine : Mem × Result → Type 0
  Fine (m, r) = IsBounded ws l m × Fits r

  pub after-IsBounded :
      {es : List Event}
      → Keeps (IsBounded ws l) (IsBounded ws l) es
      → (m : Mem) → IsBounded ws l m
      → IsBounded ws l (after es m)
  after-IsBounded keeps m old = after-Keeps keeps (ok 0) m old

  pub Linearized-Fine :
      {promise : Mem → Area → Mem × Result}
      → ((m : Mem) (a : Area) → IsBounded ws l m → Fine (promise m a))
      → {m' : Mem} {r : Result} {es : List Event} {m : Mem} {a : Area}
      → Keeps (IsBounded ws l) (IsBounded ws l) es
      → Linearized promise Untouched m' r es m a
      → IsBounded ws l m
      → Fine (m', r)
  Linearized-Fine {promise = promise} does keeps (now {m = m} {a = a} p q) old =
      let (words, fits) = does m a old in
      (
        subst (IsBounded ws l) (sym p) (after-IsBounded keeps (promise m a).0 words),
        subst Fits (sym q) fits,
      )
  Linearized-Fine does (by_tick rest) (later lin) old = Linearized-Fine does rest lin old
  Linearized-Fine does (by_others p _ rest) (retry {m₁ = m₁} same lin) old =
      Linearized-Fine does rest lin (p m₁ (subst (IsBounded ws l) (sym same) old))
