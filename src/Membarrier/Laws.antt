-- ===== src/Membarrier/Laws.antt =====
-- What src/membarrier.rs keeps, whatever the kernel answers.
use rseq_rs.Base.{
  ℕ, ◌^◌, ◌<◌, ◌≡◌, refl, ap, Bool, true, false, inl, inr, ◌==◌, ltb, lt_of_ltb, if◌then◌else◌,
  Bool-cases,
}
use rseq_rs.Membarrier.{
  Command, expedited, Rc, zero_rc, errno, eperm, flag_cpu, is_zero, State, register_now, ready, run,
  fence, again, retry, again_if, after_call, run_if,
}

module _ {K : Type 0} (syscall : Command → K → K × Rc) where
  -- `k'` is what the kernel becomes by a call of `cmd` that it answers with 0.
  abbrev pub Answered : Command → K → Type 0
  Answered cmd k' = (k : K) × (syscall cmd k ≡ (k', zero_rc))

  abbrev IsSound : Command → State K × Bool → Type 0
  IsSound cmd p = p.1 ≡ true → Answered cmd p.0.kernel

  guard-IsSound :
      (cmd : Command) (b : Bool) (p : State K × Bool) (s : State K)
      → IsSound cmd p
      → IsSound cmd (if b then p else (s, false))
  guard-IsSound cmd true p s sound = sound
  guard-IsSound cmd false p s sound = λ h. absurd (cc)

  zero_of_is_zero : (rc : Rc) → is_zero rc ≡ true → rc ≡ zero_rc
  zero_of_is_zero zero_rc h = refl
  zero_of_is_zero (errno n) h = absurd (cc)

  again-IsSound : (cmd : Command) (s : State K) → IsSound cmd (again syscall cmd s)
  again-IsSound cmd s h =
      let (k, rc) = syscall cmd s.kernel in (s.kernel, ap (λ r. (k, r)) (zero_of_is_zero rc h))

  again_if-IsSound : (cmd : Command) (p : State K × Bool) → IsSound cmd (again_if syscall cmd p)
  again_if-IsSound cmd (s, b) = guard-IsSound cmd b (again syscall cmd s) s (again-IsSound cmd s)

  after_call-IsSound :
      (cmd : Command) (s : State K) (rc : Rc)
      → (rc ≡ zero_rc → Answered cmd s.kernel)
      → IsSound cmd (after_call syscall cmd s rc)
  after_call-IsSound cmd s zero_rc answered = λ h. answered refl
  after_call-IsSound cmd s (errno n) answered =
      let renewed = register_now syscall (record s { used = false }) in
      guard-IsSound cmd (n == eperm) (retry syscall cmd s) s
        (guard-IsSound cmd s.used (again_if syscall cmd renewed) s (again_if-IsSound cmd renewed))

  run_if-IsSound : (cmd : Command) (p : State K × Bool) → IsSound cmd (run_if syscall cmd p)
  run_if-IsSound cmd (s, false) = λ h. absurd (cc)
  run_if-IsSound cmd (s, true) =
      let (k, rc) = syscall cmd s.kernel in
      after_call-IsSound cmd (record s { kernel = k }) rc
        (λ zero. (s.kernel, ap (λ r. (k, r)) zero))

  -- Whatever the kernel answers: a fence of a CPU gives true only if the CPU's number fits a c_int
  -- and the last call of the kernel was the fence of this CPU, which it answered with 0.
  pub fence_sound :
      (cpu : ℕ) (s : State K)
      → (fence syscall cpu s).1 ≡ true
      → (cpu < 2 ^ 31) × Answered (expedited flag_cpu cpu) (fence syscall cpu s).0.kernel
  unfolding fence run
  fence_sound cpu s = elim (Bool-cases (ltb cpu (2 ^ 31))) [
    | inl small ↦ rw small (λ h.
        (lt_of_ltb cpu (2 ^ 31) small, run_if-IsSound (expedited flag_cpu cpu) (ready syscall s) h))
    | inr large ↦ rw large (λ h. absurd (cc))
  ]
