-- ===== src/Membarrier/Together.antt =====
-- Fences by the threads of one process at the same time (src/membarrier.rs), on the kernel that membarrier(2)
-- documents.
use mathlib.Core.Path.{subst}
use rseq_rs.Base.{
  ℕ, ◌≡◌, ◌≤◌, refl, sym, ap, ◌∙◌, true, none, some, List, [], ◌∷◌, ◌==◌, ◌⊎◌, inl, inr, Bool-cases,
}
use rseq_rs.Membarrier.{Command, expedited, Rc, State, register_now, ready}
use rseq_rs.Membarrier.Threads.{
  At, asks, calls, marks, swaps, registers, calls_again, ended, Threads, step, turn, interleave,
  turns_of,
}
use rseq_rs.Membarrier.Steps.{left, interleave-ends}
use rseq_rs.Membarrier.Fork.{IsMembarrier}

module _ {K : Type 0} {syscall : Command → K → K × Rc} (os : IsMembarrier syscall) where
  -- Where `READY` says true the process is registered.
  abbrev pub Agrees : State K → Type 0
  Agrees s = (s.ready ≡ none) ⊎ ((s.ready ≡ some true) × (os.registered s.kernel ≡ true))

  -- A thread that no call has been refused to.
  abbrev pub Unrefused : State K → At → Type 0
  Unrefused s asks = s ≡ s
  Unrefused s calls = (s.ready ≡ some true) × (os.registered s.kernel ≡ true)
  Unrefused s marks = s ≡ s
  Unrefused s (ended b) = b ≡ true
  Unrefused s swaps = ⊥
  Unrefused s registers = ⊥
  Unrefused s calls_again = ⊥

  -- What a thread that waits keeps through a step of another.
  abbrev Stays : State K → State K → Type 0
  Stays s s' =
      (s.ready ≡ some true) × (os.registered s.kernel ≡ true)
      → (s'.ready ≡ some true) × (os.registered s'.kernel ≡ true)

  Unrefused-Stays : (a : At) (s s' : State K) → Stays s s' → Unrefused s a → Unrefused s' a
  Unrefused-Stays asks s s' stays h = refl
  Unrefused-Stays calls s s' stays h = stays h
  Unrefused-Stays marks s s' stays h = refl
  Unrefused-Stays (ended b) s s' stays h = h
  Unrefused-Stays swaps s s' stays h = h
  Unrefused-Stays registers s s' stays h = h
  Unrefused-Stays calls_again s s' stays h = h

  -- What a step does to the statics, and to the thread itself.
  record Fine (s s' : State K) (a : At) : Type 0 where
    agrees : Agrees s'
    unrefused : Unrefused s' a
    stays : Stays s s'

  step-Fine :
      (flags cpu : ℕ) (a : At) (s : State K)
      → Agrees s
      → Unrefused s a
      → let (s', a') = step syscall (expedited flags cpu) a s in Fine s s' a'
  unfolding step ready register_now
  step-Fine flags cpu asks s (inl unready) h =
      let reg = os.registers_it s.kernel in
      rw (unready, os.registers s.kernel)
        (record { agrees = inr (refl, reg); unrefused = (refl, reg); stays = λ h'. (refl, reg) })
  step-Fine flags cpu asks s (inr (is_ready, reg)) h =
      rw is_ready
        (record { agrees = inr (refl, reg); unrefused = (refl, reg); stays = λ h'. (refl, reg) })
  step-Fine flags cpu calls s agrees (is_ready, reg) =
      let still = os.keeps s.kernel flags cpu ∙ reg in
      rw (os.fences s.kernel flags cpu reg) (record {
        agrees = inr (is_ready, still);
        unrefused = refl;
        stays = λ h'. (is_ready, still);
      })
  step-Fine flags cpu marks s agrees h = record {
    agrees = agrees;
    unrefused = refl;
    stays = λ h'. h';
  }
  step-Fine flags cpu (ended b) s agrees h = record {
    agrees = agrees;
    unrefused = h;
    stays = λ h'. h';
  }
  step-Fine flags cpu swaps s agrees h = absurd h
  step-Fine flags cpu registers s agrees h = absurd h
  step-Fine flags cpu calls_again s agrees h = absurd h

  module _ (flags cpu : ℕ → ℕ) where
    abbrev pub fence_of : ℕ → Command
    fence_of i = expedited (flags i) (cpu i)

    turn-Unrefused :
        (j : ℕ) (t : Threads K)
        → Agrees t.shared
        → ((i : ℕ) → Unrefused t.shared (t.at i))
        → (i : ℕ) → Unrefused (turn syscall fence_of j t).shared ((turn syscall fence_of j t).at i)
    turn-Unrefused j t agrees all i =
        let fine = step-Fine (flags j) (cpu j) (t.at j) t.shared agrees (all j) in
        elim (Bool-cases (j == i)) [
          | inl own ↦ rw own fine.unrefused
          | inr other ↦ rw other (
              Unrefused-Stays (t.at i) t.shared (turn syscall fence_of j t).shared fine.stays
                (all i))
        ]

    interleave-Unrefused :
        (is : List ℕ) (t : Threads K)
        → Agrees t.shared
        → ((i : ℕ) → Unrefused t.shared (t.at i))
        → (i : ℕ) → let t' = interleave syscall fence_of is t in Unrefused t'.shared (t'.at i)
    unfolding interleave
    interleave-Unrefused [] t agrees all i = all i
    interleave-Unrefused (j ∷ is) t agrees all i =
        let fine = step-Fine (flags j) (cpu j) (t.at j) t.shared agrees (all j) in
        interleave-Unrefused is (turn syscall fence_of j t) fine.agrees
          (turn-Unrefused j t agrees all) i

    -- On a kernel that treats membarrier(2) as documented, in a process that is registered if `READY`
    -- is true: any number of threads that start a fence, on any CPUs, and interleave in any order: each
    -- that has had five turns has ended with true.
    pub interleave-fences :
        (t : Threads K)
        → Agrees t.shared
        → ((i : ℕ) → t.at i ≡ asks)
        → (is : List ℕ) (i : ℕ) → 5 ≤ turns_of i is
        → (interleave syscall fence_of is t).at i ≡ ended true
    interleave-fences t agrees starts is i enough =
        let t' = interleave syscall fence_of is t in
        let (b, over) =
          interleave-ends syscall fence_of is t i
            (subst (λ a. left a ≤ turns_of i is) (sym (starts i)) enough) in
        let unrefused =
          interleave-Unrefused is t agrees (λ j. subst (Unrefused t.shared) (sym (starts j)) refl)
            i in
        over ∙ ap ended (subst (Unrefused t'.shared) over unrefused)
