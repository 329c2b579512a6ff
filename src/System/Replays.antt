-- ===== src/System/Replays.antt =====
-- What it means that a log explains the words: the calls in it, done one after another, each at one
-- instant, give them.
use rseq_rs.Base.{ℕ, ◌≡◌, ap, ◌∙◌, none, List, [], ◌∷◌}
use rseq_rs.Abi.{Area}
use rseq_rs.Attempt.{Attempt}
use rseq_rs.Machine.{Mem}
use rseq_rs.System.{Entry, outcome_of}

-- From the words `m₀` the calls of the log lead to the words `m`. A call is done once, at the instant of
-- its entry, as `promise` says, and its outcome, seen by `view`, is the promised one; attempts that were
-- given up do no more than `scratch`.
pub data Replays {R : Type 0} (view : ℕ → Attempt → R) (promise : ℕ → Mem → Area → Mem × R)
    (scratch : ℕ → Mem → Mem → Type 0) (m₀ : Mem) : List Entry → Mem → Type 0 where
  nothing : Replays view promise scratch m₀ [] m₀
  given_up :
      {log : List Entry} {m m' : Mem} (i : ℕ)
      → Replays view promise scratch m₀ log m
      → scratch i m m'
      → Replays view promise scratch m₀ log m'
  takes :
      {log : List Entry} {m m' : Mem} {e : Entry}
      → Replays view promise scratch m₀ log m
      → outcome_of e.who log ≡ none
      → m' ≡ (promise e.who m e.area).0
      → view e.who e.outcome ≡ (promise e.who m e.area).1
      → Replays view promise scratch m₀ (e ∷ log) m'

-- Another view of the outcomes, an equal promise, and a wider set of scratch stores.
pub Replays-map :
    {R S : Type 0} {view : ℕ → Attempt → R} (f : ℕ → R → S) {promise : ℕ → Mem → Area → Mem × R}
    {promise' : ℕ → Mem → Area → Mem × S} {scratch scratch' : ℕ → Mem → Mem → Type 0}
    → ((i : ℕ) (m : Mem) (a : Area)
        → ((promise i m a).0 ≡ (promise' i m a).0) × (f i (promise i m a).1 ≡ (promise' i m a).1))
    → ((i : ℕ) (m m' : Mem) → scratch i m m' → scratch' i m m')
    → {m₀ m : Mem} {log : List Entry} → Replays view promise scratch m₀ log m
    → Replays (λ i o. f i (view i o)) promise' scratch' m₀ log m
Replays-map f same wider nothing = nothing
Replays-map f same wider (given_up {m = m} {m' = m'} i r s) =
    given_up i (Replays-map f same wider r) (wider i m m' s)
Replays-map f same wider (takes {m = m} {e = e} r fresh words out) =
    let (p, q) = same e.who m e.area in
    takes (Replays-map f same wider r) fresh (words ∙ p) (ap (f e.who) out ∙ q)
