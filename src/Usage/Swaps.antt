-- ===== src/Usage/Swaps.antt =====
-- The example in the documentation of src/lib.rs does what it shows.
use rseq_rs.Base.{
  ℕ, ◌≡◌, ◌<◌, refl, ap, ◌∙◌, true, ◌==◌, some, ◌>>=◌, List, ◌∷◌, [], inl, inr, Option, Bool-cases,
  eq_of_==, arith, IsU32, if◌then◌else◌,
}
use mathlib.Core.Path.{subst}
use rseq_rs.Machine.{Mem, write}
use rseq_rs.Registration.{Syscall, System}
use rseq_rs.Rseq.{Rseq, Local, area, bind, words}
use rseq_rs.Rseq.Handle.{bind-cpu, words-cover}
use rseq_rs.Words.{Words, get}
use rseq_rs.Cs.{Arch, linux, World, Call}
use rseq_rs.Thread as Ops
use rseq_rs.Thread.{Kind, cpu_kind, Word, Thread, Result, ok, err, miss, cpu_id}
use rseq_rs.Thread.Operation.{compare_exchange, perform, promised}
use rseq_rs.Thread.AreaKept.{perform-quiet}
use rseq_rs.Thread.Promise.{index}
use rseq_rs.Thread.Lift.{IsSetUp}
use rseq_rs.Thread.Reads.{on_index}
use rseq_rs.Usage.{broke, settle, try_it}

-- What the documentation of `compare_exchange` says of 0 and 7.
abbrev pub swapped : (word : ℕ) → Mem → Mem × Result
swapped word m = if m word == 0 then (write m word 7, ok 0) else (m, err (miss (m word)))

module _ (arch : Arch) (t : Thread) (ws : Words) (c : Call) (cs : List Call) (s : World) where
  try_it-call :
      (w : Word cpu_kind)
      → (cpu_id s.area >>= get ws) ≡ some w
      → (s' : World) (r : Result) → Ops.compare_exchange (linux arch) c t w 0 7 s ≡ some (s', r)
      → try_it (linux arch) t ws (c ∷ cs) s ≡ settle (try_it (linux arch) t ws cs) cs (some (s', r))
  unfolding try_it
  try_it-call w found s' r ran = rw (try_it, found, ran) refl

  quiet-swapped :
      (w : Word cpu_kind)
      → IsSetUp arch c
      → c.events ≡ []
      → IsU32 w.key
      → (index cpu_kind s.area == w.key) ≡ true
      → (cpu_id s.area >>= get ws) ≡ some w
      → (s' : World) × (try_it (linux arch) t ws (c ∷ cs) s ≡ broke s' (swapped w.word s.mem).1 cs)
        × (s'.mem ≡ (swapped w.word s.mem).0)
  unfolding perform
  quiet-swapped w up quiet small own found =
      let (s', ran, stored, _) =
        perform-quiet arch c t (compare_exchange w 0 7) s up small refl quiet in
      let ended = try_it-call w found s' in
      elim (Bool-cases (s.mem w.word == 0)) [
        | inl zero ↦
            let done : promised (compare_exchange w 0 7) s.mem s.area
                ≡ (write s.mem w.word 7, ok 0) =
              rw (own, zero, eq_of_== (s.mem w.word) 0 zero) refl in
            rw zero (
              s',
              ended (ok 0) (ran ∙ ap (λ (p : Mem × Result). some (s', p.1)) done),
              stored ∙ ap (λ (p : Mem × Result). p.0) done,
            )
        | inr other ↦
            let done : promised (compare_exchange w 0 7) s.mem s.area
                ≡ (s.mem, err (miss (s.mem w.word))) =
              rw (own, other) refl in
            rw other (
              s',
              ended (err (miss (s.mem w.word)))
                  (ran ∙ ap (λ (p : Mem × Result). some (s', p.1)) done),
              stored ∙ ap (λ (p : Mem × Result). p.0) done,
            )
      ]

-- For a count of CPUs that is a u32, a thread that `bind` has given, words that the handle has mapped, and a
-- thread on a CPU that the handle counts: a turn of the example with the area registered, which nothing
-- interrupts, leaves the loop; the word of the CPU is then 7 if it was 0, and no other word has changed, and
-- otherwise the result is a miss with what the word holds, and no word has changed.
pub try_it-swaps :
    {K : Type 0} (rseq : Syscall K) (sig : ℕ) (possible : Option ℕ) (sys : System) (mmap : ℕ → ℕ)
    (arch : Arch) (r : Rseq) (local : Local K) (t : Thread) (ws : Words) (c : Call) (cs : List Call)
    (s : World)
    → IsU32 r.cpus
    → (bind rseq sig possible sys r local).1 ≡ some t
    → words mmap r ≡ some ws
    → (area rseq sig possible sys r local).1 ≡ some (t.area, s.area)
    → s.area.cpu_id < r.cpus
    → IsSetUp arch c
    → c.events ≡ []
    → (w : Word cpu_kind) × (get ws s.area.cpu_id ≡ some w)
      × (s' : World) × (try_it (linux arch) t ws (c ∷ cs) s ≡ broke s' (swapped w.word s.mem).1 cs)
      × (s'.mem ≡ (swapped w.word s.mem).0)
try_it-swaps rseq sig possible sys mmap arch r local t ws c cs s small bound mapped held within up
      quiet =
    let (a, stands, known) = bind-cpu rseq sig possible sys r local t bound in
    let same : a ≡ s.area = cc in
    let here : cpu_id s.area ≡ some s.area.cpu_id =
      subst (λ a. cpu_id a ≡ some a.cpu_id) same known in
    let cpu = s.area.cpu_id in
    let (w, there, keyed) = words-cover {k = cpu_kind} mmap r ws small mapped cpu within in
    let u32 : IsU32 cpu = omega (arith, within, small) in
    let own : (index cpu_kind s.area == w.key) ≡ true = rw keyed (on_index s.area cpu u32 here) in
    let (s', ended, stored) =
      quiet-swapped arch t ws c cs s w up quiet (omega (arith, u32, keyed)) own
        (ap (λ o. o >>= get {k = cpu_kind} ws) here ∙ there) in
    (w, there, s', ended, stored)
