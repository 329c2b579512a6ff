-- ===== src/Freelist/Turns.antt =====
-- One turn of `cas` of benches/freelist.rs.
use rseq_rs.Base.{ℕ, ◌≡◌, refl, none, some, ◌>>=◌, List, ◌∷◌}
use rseq_rs.Cs.{Target, World, Call}
use rseq_rs.Words.{Words, get}
use rseq_rs.Thread as Ops
use rseq_rs.Thread.{Kind, cpu_kind, Word, Thread, Result, cpu_id}
use rseq_rs.Counter.{waited}
use rseq_rs.Freelist.{cas, settle_cas}

module _ (target : Target) (t : Thread) (ws : Words) (expect new : ℕ) (c : Call) (cs : List Call)
    (s : World) where
  pub cas-nothing :
      (cpu_id s.area >>= get {k = cpu_kind} ws) ≡ none
      → cas target t ws expect new (c ∷ cs) s ≡ cas target t ws expect new cs (waited c s)
  unfolding cas
  cas-nothing nothing = rw (cas, nothing) refl

  pub cas-call :
      (w : Word cpu_kind)
      → (cpu_id s.area >>= get {k = cpu_kind} ws) ≡ some w
      → (s' : World) (r : Result) → Ops.compare_exchange target c t w expect new s ≡ some (s', r)
      → cas target t ws expect new (c ∷ cs) s
        ≡ settle_cas (cas target t ws expect new cs) cs (some (s', r))
  unfolding cas
  cas-call w found s' r ran = rw (cas, found, ran) refl
