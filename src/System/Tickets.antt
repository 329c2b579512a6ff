-- ===== src/System/Tickets.antt =====
-- `fetch_add` of src/thread.rs called by many threads of one processor on one word.
use mathlib.Core.Path.{subst}
use rseq_rs.Base.{
  ℕ, ◌+◌, ◌≤◌, ◌≡◌, Bool, refl, sym, ap, ◌∙◌, inl, inr, true, some, List, ◌∷◌, ◌==◌, if◌then◌else◌,
  arith, Bool-cases, IsU32, IsUsize, eq_of_==,
}
use rseq_rs.Abi.{Area}
use rseq_rs.Attempt.{Attempt}
use rseq_rs.Machine.{Mem, usize, write}
use rseq_rs.Machine.Memory.{write-here}
use rseq_rs.Thread.{Kind, Word, Result, ok, err, abort, sum_of}
use rseq_rs.Thread.Promise
use rseq_rs.Thread.Promise.{index}
use rseq_rs.Thread.Count.{added, ◌≈◌}
use rseq_rs.Thread.Operation.{fetch_add}
use rseq_rs.Cs.{Arch}
use rseq_rs.Kernel.{Kernel}
use rseq_rs.Thread.Lift.{signature}
use rseq_rs.System.{Client, Entry, System, Move, moves, begin, outcome_of, LookedUp}
use rseq_rs.System.Added.{total, Sequential-added}
use rseq_rs.System.Replays.{nothing, given_up, takes}
use rseq_rs.System.Operations.{Seat, Job, Sequential, IsReady, clients, reached-Sequential}

module _ {kind : Kind} (w : Word kind) (counts : ℕ → ℕ) (seats : ℕ → Seat) where
  -- Call `i` adds `counts i` to the word.
  abbrev pub adders : ℕ → Job
  adders i = record { seat = seats i; kind = kind; operation = fetch_add w (counts i) }

  word-adds :
      (i : ℕ) (m : Mem)
      → write m w.word (usize (m w.word + counts i)) w.word ≈ (m w.word + counts i)
  word-adds i m = rw (write-here m w.word (usize (m w.word + counts i))) (omega arith)

  pub Sequential-total :
      {m₀ m : Mem} {log : List Entry}
      → Sequential adders m₀ log m
      → m w.word ≈ (m₀ w.word + total counts log)
  Sequential-total = Sequential-added (λ m. m w.word) (λ i. w) counts seats word-adds

  -- The result of the test of the index.
  abbrev Chosen : Mem × Result → Mem → ℕ → Bool → Type 0
  Chosen act m v b = (if b then act else (m, err abort)).1 ≡ ok v

  promised-old :
      (count v : ℕ) (m : Mem) (a : Area) → (Promise.fetch_add w count m a).1 ≡ ok v → v ≡ m w.word
  promised-old count v m a gives =
      let act : Mem × Result = (write m w.word (usize (m w.word + count)), ok (m w.word)) in
      elim (Bool-cases (index kind a == w.key)) [
        | inl here ↦ let same : ok (m w.word) ≡ ok v = subst (Chosen act m v) here gives in cc
        | inr elsewhere ↦
            let gone : err abort ≡ ok v = subst (Chosen act m v) elsewhere gives in absurd (cc)
      ]

  -- Where in what the log has added the value `v` lies that call `i` returned.
  pub record Placed (m₀ : Mem) (log : List Entry) (i v : ℕ) : Type 0 where
    pub place : ℕ
    pub value : v ≈ (m₀ w.word + place)
    pub fits : place + counts i ≤ total counts log

  -- The last call of the log has added on top.
  pub placed-newest :
      {m₀ m : Mem} {log : List Entry} {e : Entry} (i : ℕ) {o : Attempt} (v : ℕ)
      → Sequential adders m₀ log m
      → sum_of e.outcome ≡ (Promise.fetch_add w (counts e.who) m e.area).1
      → (e.who == i) ≡ true
      → outcome_of i (e ∷ log) ≡ some o
      → sum_of o ≡ ok v
      → (p : Placed m₀ (e ∷ log) i v) × (p.place ≡ total counts log)
  placed-newest {m = m} {log = log} {e = e} i {o = o} v r out own found gives =
      let same : some e.outcome ≡ some o = subst (LookedUp e log i o) own found in
      let same_outcome : e.outcome ≡ o = cc in
      let got : sum_of e.outcome ≡ ok v = ap sum_of same_outcome ∙ gives in
      let old = promised-old (counts e.who) v m e.area (sym out ∙ got) in
      let count : counts e.who ≡ counts i = ap counts (eq_of_== e.who i own) in
      let more : added (sum_of e.outcome) (counts e.who) ≡ counts e.who =
        ap (λ r. added r (counts e.who)) got in
      (
        record {
          place = total counts log;
          value = rw old (Sequential-total r);
          fits = omega (arith, count, more);
        },
        refl,
      )

  abbrev pub placed-later :
      {m₀ : Mem} {log : List Entry} {i v : ℕ} (e : Entry)
      → Placed m₀ log i v
      → Placed m₀ (e ∷ log) i v
  placed-later e p = record { place = p.place; value = p.value; fits = omega (arith, p.fits) }

  pub placed :
      {m₀ m : Mem} {log : List Entry} (i : ℕ) {o : Attempt} (v : ℕ)
      → Sequential adders m₀ log m
      → outcome_of i log ≡ some o
      → sum_of o ≡ ok v
      → Placed m₀ log i v
  placed i v nothing found gives = absurd (cc)
  placed i v (given_up n r same) found gives = placed i v r found gives
  placed {m₀ = m₀} i {o = o} v (takes {log = log} {e = e} r first words out) found gives =
      elim (Bool-cases (e.who == i)) [
        | inl own ↦ (placed-newest i v r out own found gives).0
        | inr other ↦ placed-later e (placed i v r (subst (LookedUp e log i o) other found) gives)
      ]

  module _ (arch : Arch) (k : Kernel) (registered : k.registered ≡ signature arch)
      (small : IsU32 w.key) (fits : (i : ℕ) → IsUsize (seats i).desc) where
    pub adders-IsReady : (i : ℕ) → IsReady (adders i)
    adders-IsReady i = record { fits = fits i; small = small; paired = refl }

    abbrev pub add_clients : ℕ → Client
    add_clients = clients arch k adders

    -- With the areas registered with the signature of the architecture and the key of the word a u32:
    -- while any number of threads of one processor call `fetch_add` on one word and the kernel
    -- switches between them after any line, no addition is lost or done twice: at every moment the
    -- word is, up to multiples of 2^64, its first value plus the counts of the calls that have passed
    -- their commit label and give `Ok`.
    pub moves-total :
        (ms : List Move) (m : Mem) (i : ℕ) (a : Area) (t : System)
        → moves k add_clients ms (begin k add_clients m i a) ≡ some t
        → t.words w.word ≈ (m w.word + total counts t.log)
    moves-total ms m i a t ran =
        Sequential-total (reached-Sequential arch k adders registered adders-IsReady ms m i a t ran)
