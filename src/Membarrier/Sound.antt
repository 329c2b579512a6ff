-- ===== src/Membarrier/Sound.antt =====
-- What an interleaved fence (src/membarrier.rs) that has succeeded has done.
use mathlib.Core.Path.{subst}
use rseq_rs.Base.{
  ℕ, ◌≡◌, refl, sym, ap, Bool, true, false, List, [], ◌∷◌, ◌==◌, ◌⊎◌, inl, inr, Bool-cases,
  eq_of_==, if◌then◌else◌,
}
use rseq_rs.Membarrier.{Command, Rc, zero_rc, errno, eperm, is_zero, register_now, ready, State}
use rseq_rs.Membarrier.Threads.{
  At, asks, calls, marks, swaps, registers, calls_again, ended, answered, Threads, step, turn,
  interleave,
}

-- A thread whose command has not been answered with 0.
abbrev is_pending : At → Bool
is_pending marks = false
is_pending (ended b) = if b then false else true
is_pending a = true

-- A thread that is about to call the kernel with its command.
abbrev pub IsCalling : At → Type 0
IsCalling a = (a ≡ calls) ⊎ (a ≡ calls_again)

if-pending :
    (b : Bool) (a : At) → is_pending a ≡ true → is_pending (if b then a else ended false) ≡ true
if-pending true a h = h
if-pending false a h = refl

answered-pending : (rc : Rc) → (is_pending (answered rc) ≡ true) ⊎ (rc ≡ zero_rc)
answered-pending zero_rc = inr refl
answered-pending (errno n) = inl (if-pending (n == eperm) swaps refl)

ended-pending : (rc : Rc) → (is_pending (ended (is_zero rc)) ≡ true) ⊎ (rc ≡ zero_rc)
ended-pending zero_rc = inr refl
ended-pending (errno n) = inl refl

module _ {K : Type 0} (syscall : Command → K → K × Rc) where
  step-pending :
      (cmd : Command) (a : At) (s : State K)
      → is_pending a ≡ true
      → (is_pending (step syscall cmd a s).1 ≡ true)
        ⊎ (IsCalling a × ((syscall cmd s.kernel).1 ≡ zero_rc))
  unfolding step
  step-pending cmd asks s h = inl (if-pending (ready syscall s).1 calls refl)
  step-pending cmd calls s h = elim (answered-pending (syscall cmd s.kernel).1) [
    | inl still ↦ inl still
    | inr zero ↦ inr (inl refl, zero)
  ]
  step-pending cmd marks s h = absurd (cc)
  step-pending cmd swaps s h = inl (if-pending s.used registers refl)
  step-pending cmd registers s h = inl (if-pending (register_now syscall s).1 calls_again refl)
  step-pending cmd calls_again s h = elim (ended-pending (syscall cmd s.kernel).1) [
    | inl still ↦ inl still
    | inr zero ↦ inr (inr refl, zero)
  ]
  step-pending cmd (ended b) s h = inl h

  module _ (cmds : ℕ → Command) (i : ℕ) where
    -- In one of its turns thread `i` calls the kernel with its command, which the kernel answers with 0.
    pub data HasFenced : List ℕ → Threads K → Type 0 where
      now :
          {is : List ℕ} {t : Threads K}
          → IsCalling (t.at i)
          → (syscall (cmds i) t.shared.kernel).1 ≡ zero_rc
          → HasFenced (i ∷ is) t
      later :
          {j : ℕ} {is : List ℕ} {t : Threads K}
          → HasFenced is (turn syscall cmds j t)
          → HasFenced (j ∷ is) t

    pending-HasFenced :
        (is : List ℕ) (t : Threads K)
        → is_pending (t.at i) ≡ true
        → (interleave syscall cmds is t).at i ≡ ended true
        → HasFenced is t
    unfolding interleave
    pending-HasFenced [] t pending over = let not_over = ap is_pending over in absurd (cc)
    pending-HasFenced (j ∷ is) t pending over =
        let rest = pending-HasFenced is (turn syscall cmds j t) in
        elim (Bool-cases (j == i)) [
          | inr other ↦ later (rest (rw other pending) over)
          | inl own ↦
              let same = eq_of_== j i own in
              elim (step-pending (cmds i) (t.at i) t.shared pending) [
                | inr (calling, zero) ↦
                    subst (λ j. HasFenced (j ∷ is) t) (sym same) (now calling zero)
                | inl still ↦
                    let still' : is_pending (step syscall (cmds j) (t.at j) t.shared).1 ≡ true =
                      subst (λ j. is_pending (step syscall (cmds j) (t.at j) t.shared).1 ≡ true)
                        (sym same) still in
                    later (rest (rw own still') over)
              ]
        ]

    -- Whatever the kernel answers and however the threads interleave: if a thread that starts a fence has
    -- ended with true, it has in one of these turns called the kernel with its fence, and the kernel has
    -- answered with 0.
    pub interleave-HasFenced :
        (is : List ℕ) (t : Threads K)
        → t.at i ≡ asks
        → (interleave syscall cmds is t).at i ≡ ended true
        → HasFenced is t
    interleave-HasFenced is t starts over = pending-HasFenced is t (ap is_pending starts) over
