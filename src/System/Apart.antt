-- ===== src/System/Apart.antt =====
-- `fetch_add` of src/thread.rs called by many threads of one processor: the values that it returns.
use mathlib.Core.Path.{subst}
use rseq_rs.Base.{
  ℕ, ◌+◌, ◌≤◌, ◌<◌, ◌≡◌, ◌≢◌, ◌⊎◌, ◌^◌, sym, ◌∙◌, inl, inr, some, List, ◌∷◌, ◌==◌, arith,
  Bool-cases, IsU32, IsUsize, eq_of_==,
}
use rseq_rs.Abi.{Area}
use rseq_rs.Attempt.{Attempt}
use rseq_rs.Machine.{Mem}
use rseq_rs.Thread.{Kind, Word, ok, sum_of}
use rseq_rs.Cs.{Arch}
use rseq_rs.Kernel.{Kernel}
use rseq_rs.Thread.Lift.{signature}
use rseq_rs.System.{Entry, System, Move, moves, begin, outcome_of, LookedUp}
use rseq_rs.System.Tickets as Tickets
use rseq_rs.System.Added.{total}
use rseq_rs.System.Replays.{nothing, given_up, takes}
use rseq_rs.System.Operations.{
  Seat, Job, Sequential, clients, HasReturned, attempt_of, reached-Sequential, returned-outcome,
}

module _ {kind : Kind} (w : Word kind) (counts : ℕ → ℕ) (seats : ℕ → Seat) where
  abbrev jobs : ℕ → Job
  jobs = Tickets.adders w counts seats

  abbrev Place : Mem → List Entry → (i v : ℕ) → Type 0
  Place = Tickets.Placed w counts seats

  -- Two calls that returned have Tickets.placed w counts seats their counts apart.
  pub record Apart (m₀ : Mem) (log : List Entry) (i j v u : ℕ) : Type 0 where
    pub first : Place m₀ log i v
    pub second : Place m₀ log j u
    pub order : (first.place + counts i ≤ second.place) ⊎ (second.place + counts j ≤ first.place)

  Apart-later :
      {m₀ : Mem} {log : List Entry} {i j v u : ℕ} (e : Entry)
      → Apart m₀ log i j v u
      → Apart m₀ (e ∷ log) i j v u
  Apart-later e a = record {
    first = Tickets.placed-later w counts seats e a.first;
    second = Tickets.placed-later w counts seats e a.second;
    order = a.order;
  }

  pub placed-Apart :
      {m₀ m : Mem} {log : List Entry} (i j : ℕ) {o p : Attempt} (v u : ℕ)
      → Sequential jobs m₀ log m
      → i ≢ j
      → outcome_of i log ≡ some o
      → outcome_of j log ≡ some p
      → sum_of o ≡ ok v
      → sum_of p ≡ ok u
      → Apart m₀ log i j v u
  placed-Apart i j v u nothing ne fi fj gi gj = absurd (cc)
  placed-Apart i j v u (given_up n r same) ne fi fj gi gj = placed-Apart i j v u r ne fi fj gi gj
  placed-Apart i j {o = o} {p = p} v u (takes {log = log} {e = e} r first words out) ne fi fj gi
        gj =
      elim (Bool-cases (e.who == i)) [
        | inl own ↦ elim (Bool-cases (e.who == j)) [
          | inl own_too ↦ absurd (ne (sym (eq_of_== e.who i own) ∙ eq_of_== e.who j own_too))
          | inr other ↦
              let (new, at) = Tickets.placed-newest w counts seats i v r out own fi gi in
              let old =
                Tickets.placed w counts seats j u r (subst (LookedUp e log j p) other fj) gj in
              record {
                first = new;
                second = Tickets.placed-later w counts seats e old;
                order = inr (omega (arith, old.fits, at));
              }
        ]
        | inr other ↦
            let fi' = subst (LookedUp e log i o) other fi in
            elim (Bool-cases (e.who == j)) [
              | inl own ↦
                  let (new, at) = Tickets.placed-newest w counts seats j u r out own fj gj in
                  let old = Tickets.placed w counts seats i v r fi' gi in
                  record {
                    first = Tickets.placed-later w counts seats e old;
                    second = new;
                    order = inl (omega (arith, old.fits, at));
                  }
              | inr other_too ↦
                  Apart-later e
                    (placed-Apart i j v u r ne fi' (subst (LookedUp e log j p) other_too fj) gi gj)
            ]
      ]

  -- Calls that add something return different values, as long as the sum does not wrap.
  pub Apart-ne :
      {m₀ : Mem} {log : List Entry} {i j v u : ℕ}
      → Apart m₀ log i j v u
      → 0 < counts i
      → 0 < counts j
      → total counts log ≤ 2 ^ 64
      → v ≢ u
  Apart-ne a pi pj bound same =
      let p = a.first in
      let q = a.second in
      elim (a.order) [
        | inl before ↦ omega (arith, p.value, q.value, p.fits, q.fits)
        | inr after ↦ omega (arith, p.value, q.value, p.fits, q.fits)
      ]

  module _ (arch : Arch) (k : Kernel) (registered : k.registered ≡ signature arch)
      (small : IsU32 w.key) (fits : (i : ℕ) → IsUsize (seats i).desc) where
    -- With the areas registered with the signature of the architecture and the key of the word a u32:
    -- of the calls of `fetch_add` on one word by any number of threads of one processor that the
    -- kernel switches between after any line, two that have returned `Ok` and add more than 0 have
    -- returned different values, as long as all calls together add no more than 2^64.
    pub moves-distinct :
        (ms : List Move) (m : Mem) (n : ℕ) (a : Area) (t : System)
        → moves k (clients arch k jobs) ms (begin k (clients arch k jobs) m n a) ≡ some t
        → (i j : ℕ) → i ≢ j
        → HasReturned arch k jobs t i
        → HasReturned arch k jobs t j
        → (v u : ℕ) → sum_of (attempt_of arch k jobs t i) ≡ ok v
        → sum_of (attempt_of arch k jobs t j) ≡ ok u
        → 0 < counts i
        → 0 < counts j
        → total counts t.log ≤ 2 ^ 64
        → v ≢ u
    moves-distinct ms m n a t ran i j ne ri rj v u gi gj pi pj bound =
        let ready = Tickets.adders-IsReady w counts seats arch k registered small fits in
        let seq = reached-Sequential arch k jobs registered ready ms m n a t ran in
        let oi = returned-outcome arch k jobs registered ready ms m n a t ran i ri in
        let oj = returned-outcome arch k jobs registered ready ms m n a t ran j rj in
        Apart-ne (placed-Apart i j v u seq ne oi oj gi gj) pi pj bound
