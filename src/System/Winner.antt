-- ===== src/System/Winner.antt =====
-- `compare_exchange` of src/thread.rs called by many threads of one processor on one word, from one value
-- to others, as a lock is taken or a slot is claimed.
use mathlib.Core.Path.{subst}
use rseq_rs.Base.{
  ℕ, ◌≡◌, ◌≢◌, ◌⊎◌, refl, sym, ap, ◌∙◌, inl, inr, true, some, List, ◌∷◌, ◌==◌, Bool-cases, IsU32,
  IsUsize, eq_of_==,
}
use rseq_rs.Abi.{Area}
use rseq_rs.Attempt.{Attempt}
use rseq_rs.Machine.{Mem}
use rseq_rs.Machine.Memory.{write-here}
use rseq_rs.Kernel.{Kernel}
use rseq_rs.Cs.{Arch}
use rseq_rs.Thread.{Kind, Word, Result, ok, result_of}
use rseq_rs.Thread.Promise
use rseq_rs.Thread.Promise.{index}
use rseq_rs.Thread.Lift.{signature}
use rseq_rs.Thread.Operation.{compare_exchange}
use rseq_rs.System.{Entry, System, Move, moves, begin, outcome_of, LookedUp}
use rseq_rs.System.Replays.{nothing, given_up, takes}
use rseq_rs.System.Operations.{
  Seat, Job, Sequential, IsReady, clients, HasReturned, attempt_of, reached-Sequential,
  returned-outcome,
}

module _ {kind : Kind} (w : Word kind) (expect : ℕ) (news : ℕ → ℕ) (seats : ℕ → Seat) where
  -- Call `i` tries to bring the word from `expect` to `news i`.
  abbrev pub claimers : ℕ → Job
  claimers i = record {
    seat = seats i;
    kind = kind;
    operation = compare_exchange w expect (news i);
  }

  -- Either the call wins and the word is the new one, or the words stay.
  abbrev Fate : ℕ → Mem → Mem × Result → Type 0
  Fate new m p = ((m w.word ≡ expect) × (p.0 w.word ≡ new)) ⊎ ((p.0 ≡ m) × ((v : ℕ) → p.1 ≢ ok v))

  fate : (new : ℕ) (m : Mem) (a : Area) → Fate new m (Promise.compare_exchange w expect new m a)
  fate new m a = elim (Bool-cases (index kind a == w.key)) [
    | inr elsewhere ↦ rw elsewhere (inr (refl, λ v e. absurd (cc)))
    | inl here ↦ rw here (elim (Bool-cases (m w.word == expect)) [
      | inl same ↦ rw same (inl (eq_of_== (m w.word) expect same, write-here m w.word new))
      | inr differs ↦ rw differs (inr (refl, λ v e. absurd (cc)))
    ])
  ]

  -- What the last call of the log was promised, when it is call `i`.
  newest-ok :
      (log : List Entry) (m : Mem) (e : Entry) (i : ℕ) {o : Attempt} (v : ℕ)
      → result_of e.outcome ≡ (Promise.compare_exchange w expect (news e.who) m e.area).1
      → (e.who == i) ≡ true
      → outcome_of i (e ∷ log) ≡ some o
      → result_of o ≡ ok v
      → (Promise.compare_exchange w expect (news e.who) m e.area).1 ≡ ok v
  newest-ok log m e i {o = o} v out own found gives =
      let same : some e.outcome ≡ some o = subst (LookedUp e log i o) own found in
      let same_outcome : e.outcome ≡ o = cc in sym out ∙ (ap result_of same_outcome ∙ gives)

  was_expected :
      (new v : ℕ) (m : Mem) (a : Area)
      → (Promise.compare_exchange w expect new m a).1 ≡ ok v
      → m w.word ≡ expect
  was_expected new v m a gives = elim (fate new m a) [
    | inl (was, now) ↦ was
    | inr (stays, loses) ↦ absurd (loses v gives)
  ]

  module _ (differ : (i : ℕ) → news i ≢ expect) where
    -- Once a call has won, the word is no longer the expected one.
    won :
        {m₀ m : Mem} {log : List Entry} (i : ℕ) {o : Attempt} (v : ℕ)
        → Sequential claimers m₀ log m
        → outcome_of i log ≡ some o
        → result_of o ≡ ok v
        → m w.word ≢ expect
    won i v nothing found gives = absurd (cc)
    won i v (given_up n r same) found gives = rw same (won i v r found gives)
    won i {o = o} v (takes {log = log} {m = m} {e = e} r first words out) found gives =
        elim (fate (news e.who) m e.area) [
          | inl (was, now) ↦
              λ back. differ e.who (sym now ∙ (sym (ap (λ m. m w.word) words) ∙ back))
          | inr (stays, loses) ↦ elim (Bool-cases (e.who == i)) [
            | inl own ↦ absurd (loses v (newest-ok log m e i v out own found gives))
            | inr other ↦
                rw (words, stays) (won i v r (subst (LookedUp e log i o) other found) gives)
          ]
        ]

    winner :
        {m₀ m : Mem} {log : List Entry} (i j : ℕ) {o p : Attempt} (v u : ℕ)
        → Sequential claimers m₀ log m
        → outcome_of i log ≡ some o
        → outcome_of j log ≡ some p
        → result_of o ≡ ok v
        → result_of p ≡ ok u
        → i ≡ j
    winner i j v u nothing fi fj gi gj = absurd (cc)
    winner i j v u (given_up n r same) fi fj gi gj = winner i j v u r fi fj gi gj
    winner i j {o = o} {p = p} v u (takes {log = log} {m = m} {e = e} r first words out) fi fj gi
          gj =
        elim (Bool-cases (e.who == i)) [
          | inl own ↦ elim (Bool-cases (e.who == j)) [
            | inl own_too ↦ sym (eq_of_== e.who i own) ∙ eq_of_== e.who j own_too
            | inr other ↦ absurd (
                won j u r (subst (LookedUp e log j p) other fj) gj
                  (was_expected (news e.who) v m e.area (newest-ok log m e i v out own fi gi)))
          ]
          | inr other ↦ elim (Bool-cases (e.who == j)) [
            | inl own ↦ absurd (
                won i v r (subst (LookedUp e log i o) other fi) gi
                  (was_expected (news e.who) u m e.area (newest-ok log m e j u out own fj gj)))
            | inr other_too ↦
                winner i j v u r (subst (LookedUp e log i o) other fi)
                  (subst (LookedUp e log j p) other_too fj) gi gj
          ]
        ]

  module _ (arch : Arch) (k : Kernel) (registered : k.registered ≡ signature arch)
      (small : IsU32 w.key) (fits : (i : ℕ) → IsUsize (seats i).desc)
      (differ : (i : ℕ) → news i ≢ expect) where
    -- With the areas registered with the signature of the architecture, the key of the word a u32, and
    -- values to store that all differ from the expected one: of the calls of `compare_exchange` on one
    -- word, from one expected value, by any number of threads of one processor that the kernel
    -- switches between after any line, at most one gives `Ok`: when one has returned `Ok`, no other
    -- that has returned has.
    pub moves-winner :
        (ms : List Move) (m : Mem) (n : ℕ) (a : Area) (t : System)
        → moves k (clients arch k claimers) ms (begin k (clients arch k claimers) m n a) ≡ some t
        → (i j : ℕ) → i ≢ j
        → HasReturned arch k claimers t i
        → HasReturned arch k claimers t j
        → (v u : ℕ) → result_of (attempt_of arch k claimers t i) ≡ ok v
        → result_of (attempt_of arch k claimers t j) ≢ ok u
    moves-winner ms m n a t ran i j ne ri rj v u gi gj =
        let ready : (i : ℕ) → IsReady (claimers i) =
          λ i. record { fits = fits i; small = small; paired = refl } in
        let seq = reached-Sequential arch k claimers registered ready ms m n a t ran in
        let oi = returned-outcome arch k claimers registered ready ms m n a t ran i ri in
        let oj = returned-outcome arch k claimers registered ready ms m n a t ran j rj in
        ne (winner differ i j v u seq oi oj gi gj)
