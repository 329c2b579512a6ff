-- ===== src/Freelist/InBounds.antt =====
-- The loop of benches/freelist.rs that pops never leaves the vector of nodes.
use mathlib.Core.Path.{subst}
use rseq_rs.Base.{
  ℕ, zero, suc, ◌+◌, ◌^◌, ◌≤◌, ◌<◌, ◌≡◌, refl, sym, some, ◌>>=◌, List, inl, inr, ◌==◌, ltb_of_lt,
  arith, Bool-cases, Option-cases, IsU32,
}
use rseq_rs.Abi.{Area}
use rseq_rs.Machine.{Mem, usize}
use rseq_rs.Cs.{Arch, linux, World, Call}
use rseq_rs.Words.{Words, get}
use rseq_rs.Words.Slots.{picked, get-slot}
use rseq_rs.Thread.{cpu_kind, Word, Thread, Result, ok, err, abort, miss, cpu_id}
use rseq_rs.Thread.Promise
use rseq_rs.Thread.Promise.{Untouched, index}
use rseq_rs.Thread.FetchAdd.{fetch_add-TakesEffect}
use rseq_rs.Thread.CompareExchange.{compare_exchange-TakesEffect}
use rseq_rs.Counter as Counters
use rseq_rs.Counter.{Outcome, waited, add}
use rseq_rs.Counter.Loop as Loops
use rseq_rs.Freelist as Free
use rseq_rs.Freelist.{
  Nodes, next_at, empty, Swapped, Popped, returned, going, panicked, killed, cas, settle_cas,
  settle_pop, pop, take_head,
}
use rseq_rs.Freelist.Turns.{cas-nothing, cas-call}
use rseq_rs.Freelist.Bounded.{
  IsBounded, write-IsBounded, Schedule, ended, turn, Fine, after-IsBounded, Linearized-Fine,
}
use rseq_rs.Freelist.Chain.{slot}

module _ (arch : Arch) (t : Thread) (ws : Words) (l : Nodes) (small : IsU32 ws.cpus)
    (fits : l.len ≤ 2 ^ 64) where
  -- What a read of the head by `add` of 0 leaves.
  abbrev IsRead : Outcome → Type 0
  IsRead (Counters.returned s head cs) =
      Schedule ws l arch cs × IsBounded ws l s.mem × (head < l.len)
  IsRead (Counters.going s) = IsBounded ws l s.mem
  IsRead Counters.killed = ⊥

  abbrev IsTried : Swapped → Type 0
  IsTried (Free.Swapped.returned s r cs) = Schedule ws l arch cs × IsBounded ws l s.mem
  IsTried (Free.Swapped.going s) = IsBounded ws l s.mem
  IsTried Free.Swapped.killed = ⊥

  -- A node of the vector, or 0, has been popped, or none yet; every head and every link is in bounds; nothing
  -- has panicked or killed the process.
  abbrev pub InBounds : Popped → Type 0
  InBounds (Free.Popped.returned s node cs) =
      Schedule ws l arch cs × IsBounded ws l s.mem × (node < l.len)
  InBounds (Free.Popped.going s) = IsBounded ws l s.mem
  InBounds Free.Popped.panicked = ⊥
  InBounds Free.Popped.killed = ⊥

  add-Fine :
      (w : Word cpu_kind) (key : ℕ)
      → key < ws.cpus
      → w.word ≡ slot ws key
      → (m : Mem) (a : Area) → IsBounded ws l m
      → Fine ws l (Promise.fetch_add w 0 m a)
  add-Fine w key within place m a old = elim (Bool-cases (index cpu_kind a == w.key)) [
    | inr elsewhere ↦ rw elsewhere (old, refl)
    | inl here ↦
        let head : m w.word < l.len = subst (λ a. m a < l.len) (sym place) (old.heads key within) in
        let same : usize (m w.word + 0) < l.len = omega (arith, head, fits) in
        rw here (write-IsBounded ws l m w.word (usize (m w.word + 0)) same old, head)
  ]

  cas-Fine :
      (w : Word cpu_kind) (key : ℕ)
      → key < ws.cpus
      → w.word ≡ slot ws key
      → (expect new : ℕ) → new < l.len
      → (m : Mem) (a : Area) → IsBounded ws l m
      → Fine ws l (Promise.compare_exchange w expect new m a)
  cas-Fine w key within place expect new below m a old =
      let head : m w.word < l.len = subst (λ a. m a < l.len) (sym place) (old.heads key within) in
      elim (Bool-cases (index cpu_kind a == w.key)) [
        | inr elsewhere ↦ rw elsewhere (old, refl)
        | inl here ↦ rw here (elim (Bool-cases (m w.word == expect)) [
          | inl same ↦ rw same (write-IsBounded ws l m w.word new below old, head)
          | inr differs ↦ rw differs (old, refl)
        ])
      ]

  settle-IsRead :
      (again : World → Outcome) (cs : List Call) (s' : World) (r : Result)
      → Schedule ws l arch cs
      → Fine ws l (s'.mem, r)
      → (IsBounded ws l s'.mem → IsRead (again s'))
      → IsRead (Counters.settle again cs (some (s', r)))
  settle-IsRead again cs s' (ok head) rest (words, below) next = (rest, words, below)
  settle-IsRead again cs s' (err e) rest (words, _) next = next words

  add-IsRead :
      {cs : List Call}
      → Schedule ws l arch cs
      → (s : World) → IsBounded ws l s.mem
      → IsRead (add (linux arch) t ws 0 cs s)
  unfolding add
  add-IsRead ended s old = old
  add-IsRead (turn {c = c} {cs = cs} up keeps rest) s old =
      elim (Option-cases (cpu_id s.area >>= get {k = cpu_kind} ws)) [
        | inl nothing ↦
            subst IsRead (sym (Loops.add-nothing arch t ws 0 small c cs s nothing))
              (add-IsRead rest (waited c s) (after-IsBounded ws l keeps s.mem old))
        | inr (w, found) ↦
            let (key, there) = picked ws (cpu_id s.area) w found in
            let (within, place, keyed) = get-slot ws key small w there in
            let in_range : IsU32 w.key = omega (arith, within, small, keyed) in
            let effect = fetch_add-TakesEffect arch c t w 0 s up in_range in
            let fine = Linearized-Fine ws l (add-Fine w key within place) keeps effect.linear old in
            subst IsRead
              (sym (
                Loops.add-call arch t ws 0 small c cs s w found effect.world effect.result
                  effect.returns))
              (settle-IsRead (add (linux arch) t ws 0 cs) cs effect.world effect.result rest fine
                (add-IsRead rest effect.world))
      ]

  settle-IsTried :
      (again : World → Swapped) (cs : List Call) (s' : World) (r : Result)
      → Schedule ws l arch cs
      → Fine ws l (s'.mem, r)
      → (IsBounded ws l s'.mem → IsTried (again s'))
      → IsTried (settle_cas again cs (some (s', r)))
  settle-IsTried again cs s' (ok old) rest (words, _) next = (rest, words)
  settle-IsTried again cs s' (err (miss v)) rest (words, _) next = (rest, words)
  settle-IsTried again cs s' (err abort) rest (words, _) next = next words

  cas-IsTried :
      (expect new : ℕ)
      → new < l.len
      → {cs : List Call} → Schedule ws l arch cs
      → (s : World) → IsBounded ws l s.mem
      → IsTried (cas (linux arch) t ws expect new cs s)
  unfolding cas
  cas-IsTried expect new below ended s old = old
  cas-IsTried expect new below (turn {c = c} {cs = cs} up keeps rest) s old =
      elim (Option-cases (cpu_id s.area >>= get {k = cpu_kind} ws)) [
        | inl nothing ↦
            subst IsTried (sym (cas-nothing (linux arch) t ws expect new c cs s nothing)) (
              cas-IsTried expect new below rest (waited c s) (after-IsBounded ws l keeps s.mem old))
        | inr (w, found) ↦
            let (key, there) = picked ws (cpu_id s.area) w found in
            let (within, place, keyed) = get-slot ws key small w there in
            let in_range : IsU32 w.key = omega (arith, within, small, keyed) in
            let effect = compare_exchange-TakesEffect arch c t w expect new s up in_range in
            let fine =
              Linearized-Fine ws l (cas-Fine w key within place expect new below) keeps
                effect.linear old in
            subst IsTried
              (sym (
                cas-call (linux arch) t ws expect new c cs s w found effect.world effect.result
                  effect.returns))
              (settle-IsTried (cas (linux arch) t ws expect new cs) cs effect.world effect.result
                rest fine (cas-IsTried expect new below rest effect.world))
      ]

  -- From the next turn on.
  abbrev GoesOn : (List Call → World → Popped) → Type 0
  GoesOn again =
      (cs : List Call)
      → Schedule ws l arch cs
      → (s : World) → IsBounded ws l s.mem
      → InBounds (again cs s)

  settle-InBounds :
      (again : List Call → World → Popped) (head : ℕ)
      → head < l.len
      → GoesOn again
      → (o : Swapped) → IsTried o
      → InBounds (settle_pop again head o)
  settle-InBounds again head below next (Free.Swapped.returned s (ok old) cs) (rest, words) =
      (rest, words, below)
  settle-InBounds again head below next (Free.Swapped.returned s (err e) cs) (rest, words) =
      next cs rest s words
  settle-InBounds again head below next (Free.Swapped.going s) words = words
  settle-InBounds again head below next Free.Swapped.killed gone = gone

  take_head-InBounds :
      (again : List Call → World → Popped)
      → GoesOn again
      → (o : Outcome) → IsRead o
      → InBounds (take_head (linux arch) t ws l again o)
  take_head-InBounds again next Counters.killed gone = gone
  take_head-InBounds again next (Counters.going s) words = words
  take_head-InBounds again next (Counters.returned s head cs) (rest, words, below) =
      elim (Bool-cases (head == empty)) [
        | inl nothing ↦ rw nothing (rest, words, omega (arith, below))
        | inr real ↦
            rw (real, ltb_of_lt head l.len below)
              (settle-InBounds again head below next
                (cas (linux arch) t ws head (s.mem (next_at l head)) cs s)
                (cas-IsTried head (s.mem (next_at l head)) (words.links head below) rest s words))
      ]

  -- For a count of CPUs that is a u32, a vector of at most 2^64 nodes, and calls with the area registered,
  -- through any interruptions and migrations in which the other threads keep every head and every link
  -- inside the vector, whatever else they do to the stacks: the loop that pops keeps them inside it as well,
  -- what it returns is inside it, and it neither panics nor is killed.
  pub pop-InBounds :
      (turns : ℕ) (cs : List Call)
      → Schedule ws l arch cs
      → (s : World) → IsBounded ws l s.mem
      → InBounds (pop (linux arch) t ws l turns cs s)
  unfolding pop
  pop-InBounds zero cs calls s words = words
  pop-InBounds (suc n) cs calls s words =
      take_head-InBounds (pop (linux arch) t ws l n) (pop-InBounds n) (add (linux arch) t ws 0 cs s)
        (add-IsRead calls s words)
