-- ===== src/Counter/Loop.antt =====
-- The retry loop of benches/counter.rs counts exactly once, and ends.
use mathlib.Core.Path.{subst}
use rseq_rs.Base.{
  ℕ, ◌+◌, ◌<◌, ◌≡◌, refl, sym, ap, ◌∙◌, true, none, some, ◌>>=◌, List, [], ◌∷◌, inl, inr, ◌==◌,
  arith, Option-cases, IsU32,
}
use rseq_rs.Machine.{Mem, write, usize}
use rseq_rs.Cs.{Arch, linux, World, Call}
use rseq_rs.Region.{base}
use rseq_rs.Words.{Words, get}
use rseq_rs.Words.Slots.{picked, get-slot, get-some_iff}
use rseq_rs.Thread as Ops
use rseq_rs.Thread.{Kind, cpu_kind, Word, Thread, Result, ok, err, cpu_id}
use rseq_rs.Thread.Promise
use rseq_rs.Thread.Promise.{Untouched, index}
use rseq_rs.Section.Linearized.{Linearized}
use rseq_rs.Thread.Agree.{undisturbed-Linearized}
use rseq_rs.Thread.Reads.{on_index}
use rseq_rs.Thread.Lift.{IsSetUp}
use rseq_rs.Thread.FetchAdd.{fetch_add-TakesEffect}
use rseq_rs.Thread.Count.{added, ◌≈◌, Adds, after-Adds, fetch_add-Adds}
use rseq_rs.Counter.{Outcome, returned, going, killed, waited, settle, add, total}
use rseq_rs.Counter.Total.{sum-add}

-- Calls in which the area is registered and the other threads add `n` to the measure.
pub data Schedule (f : Mem → ℕ) (arch : Arch) : List Call → ℕ → Type 0 where
  ended : Schedule f arch [] 0
  turn :
      {c : Call} {cs : List Call} {n : ℕ} (d : ℕ)
      → IsSetUp arch c
      → Adds f c.events d
      → Schedule f arch cs n
      → Schedule f arch (c ∷ cs) (d + n)

-- From `before`, while the others add `n`: the loop that has returned has added `count`, in the calls that
-- were made; the loop that is going has added nothing; nothing kills it.
abbrev pub Counted : (f : Mem → ℕ) (arch : Arch) (count before n : ℕ) → Outcome → Type 0
Counted f arch count before n (returned s prev cs) =
    (left : ℕ) × Schedule f arch cs left × (f s.mem + left ≈ before + n + count)
Counted f arch count before n (going s) = f s.mem ≈ before + n
Counted f arch count before n killed = ⊥

module _ (f : Mem → ℕ) (arch : Arch) (count : ℕ) where
  Counted-later :
      (o : Outcome) (before between d n : ℕ)
      → between ≈ (before + d)
      → Counted f arch count between n o
      → Counted f arch count before (d + n) o
  Counted-later (returned s prev cs) before between d n e (left, rest, grown) =
      (left, rest, omega (arith, e, grown))
  Counted-later (going s) before between d n e grown = omega (arith, e, grown)
  Counted-later killed before between d n e grown = elim grown [ ]

  Counted-settle :
      (again : World → Outcome) (cs : List Call) (s' : World) (r : Result) (before d n : ℕ)
      → Schedule f arch cs n
      → f s'.mem ≈ (before + (d + added r count))
      → Counted f arch count (f s'.mem) n (again s')
      → Counted f arch count before (d + n) (settle again cs (some (s', r)))
  Counted-settle again cs s' (ok prev) before d n rest grown next = (n, rest, omega (arith, grown))
  Counted-settle again cs s' (err e) before d n rest grown next =
      Counted-later (again s') before (f s'.mem) d n (omega (arith, grown)) next

module _ (arch : Arch) (t : Thread) (ws : Words) (count : ℕ) (small : IsU32 ws.cpus) where
  pub slot-adds :
      (key : ℕ) (w : Word cpu_kind)
      → get ws key ≡ some w
      → (m : Mem) → total ws (write m w.word (usize (m w.word + count))) ≈ (total ws m + count)
  slot-adds key w found m =
      let (within, place, _) = get-slot ws key small w found in
      subst (λ a. total ws (write m a (usize (m a + count))) ≈ (total ws m + count)) (sym place)
        (sum-add (base ws.region) ws.cpus key count m within)

  module _ (c : Call) (cs : List Call) (s : World) where
    pub add-nothing :
        (cpu_id s.area >>= get {k = cpu_kind} ws) ≡ none
        → add (linux arch) t ws count (c ∷ cs) s ≡ add (linux arch) t ws count cs (waited c s)
    unfolding add
    add-nothing nothing = rw (add, nothing) refl

    pub add-call :
        (w : Word cpu_kind)
        → (cpu_id s.area >>= get {k = cpu_kind} ws) ≡ some w
        → (s' : World) (r : Result) → Ops.fetch_add (linux arch) c t w count s ≡ some (s', r)
        → add (linux arch) t ws count (c ∷ cs) s
          ≡ settle (add (linux arch) t ws count cs) cs (some (s', r))
    unfolding add
    add-call w found s' r ran = rw (add, found, ran) refl

  -- For a count of CPUs that is a u32, and calls with the area registered, through any
  -- interruptions and migrations in which the other threads add to the words: the loop is never
  -- killed, and the sum of the words grows by what the others add, and by `count` exactly once if
  -- the loop has returned and not at all if it is still going, up to multiples of 2^64.
  pub add-Counted :
      {cs : List Call} {n : ℕ}
      → Schedule (total ws) arch cs n
      → (s : World)
      → Counted (total ws) arch count (total ws s.mem) n (add (linux arch) t ws count cs s)
  unfolding add
  add-Counted ended s = omega arith
  add-Counted (turn {c = c} {cs = cs} {n = n} d up adds rest) s =
      let counted = Counted (total ws) arch count (total ws s.mem) (d + n) in
      elim (Option-cases (cpu_id s.area >>= get {k = cpu_kind} ws)) [
        | inl nothing ↦ subst counted (sym (add-nothing c cs s nothing)) (
            Counted-later (total ws) arch count (add (linux arch) t ws count cs (waited c s))
              (total ws s.mem) (total ws (waited c s).mem) d n (after-Adds (total ws) adds s.mem)
              (add-Counted rest (waited c s)))
        | inr (w, found) ↦
            let (key, slot) = picked ws (cpu_id s.area) w found in
            let (within, _, keyed) = get-slot ws key small w slot in
            let in_range : IsU32 w.key = omega (arith, within, small, keyed) in
            let effect = fetch_add-TakesEffect arch c t w count s up in_range in
            let grown =
              fetch_add-Adds (total ws) arch c t w count s up in_range (slot-adds key w slot) adds
                effect.world effect.result effect.returns in
            subst counted (sym (add-call c cs s w found effect.world effect.result effect.returns))
              (Counted-settle (total ws) arch count (add (linux arch) t ws count cs) cs effect.world
                effect.result (total ws s.mem) d n rest grown (add-Counted rest effect.world))
      ]

  -- For a count of CPUs that is a u32: a turn of the loop with the area registered, on a CPU that
  -- has a word, which nothing interrupts, ends the loop.
  pub add-returns :
      (c : Call) (cs : List Call) (s : World) (cpu : ℕ)
      → IsSetUp arch c
      → c.events ≡ []
      → cpu_id s.area ≡ some cpu
      → cpu < ws.cpus
      → (s' : World) × (prev : ℕ) × (add (linux arch) t ws count (c ∷ cs) s ≡ returned s' prev cs)
  add-returns c cs s cpu up quiet here within =
      let (w, there, keyed) = (get-some_iff {k = cpu_kind} ws cpu small).1 within in
      let in_range : IsU32 w.key = omega (arith, within, small, keyed) in
      let effect = fetch_add-TakesEffect arch c t w count s up in_range in
      let at_once = undisturbed-Linearized (
        subst
          (λ es.
            Linearized (Promise.fetch_add w count) Untouched effect.world.mem effect.result es s.mem
              s.area)
          quiet effect.linear) in
      let own : (index cpu_kind s.area == w.key) ≡ true =
        rw keyed (on_index s.area cpu (omega (arith, within, small)) here) in
      let outcome : effect.result ≡ ok (s.mem w.word) =
        ap (λ (p : Mem × Result). p.1) at_once ∙ rw own refl in
      (
        effect.world,
        s.mem w.word,
        add-call c cs s w (ap (λ o. o >>= get {k = cpu_kind} ws) here ∙ there) effect.world
            (ok (s.mem w.word)) (effect.returns ∙ ap (λ r. some (effect.world, r)) outcome),
      )
