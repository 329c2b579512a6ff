-- ===== src/Membarrier/Steps.antt =====
-- Interleaved fences (src/membarrier.rs): alone a thread does what `run` does, and every fence ends.
use mathlib.Core.Path.{subst}
use rseq_rs.Base.{
  ℕ, zero, suc, ◌≡◌, ◌≤◌, refl, sym, ap, ◌∙◌, Bool, true, false, List, [], ◌∷◌, ◌==◌, ◌+◌, arith,
  inl, inr, Bool-cases, eq_of_==, ==-self, if◌then◌else◌,
}
use rseq_rs.Membarrier.{
  Command, Rc, zero_rc, errno, eperm, State, register_now, ready, run, again, again_if, after_call,
  run_if,
}
use rseq_rs.Membarrier.Threads.{
  At, asks, calls, marks, swaps, registers, calls_again, ended, answered, Threads, step, alone,
  turn, interleave, turns_of, repeat,
}

module _ {K : Type 0} (syscall : Command → K → K × Rc) (cmd : Command) where
  -- A thread that has its result.
  abbrev over : State K × Bool → State K × At
  over (s, b) = (s, ended b)

  stays_over : (n : ℕ) (s : State K) (b : Bool) → alone syscall n cmd (s, ended b) ≡ (s, ended b)
  unfolding alone step
  stays_over zero s b = refl
  stays_over (suc n) s b = stays_over n s b

  after_register :
      (n : ℕ) (s : State K) (ok : Bool)
      → alone syscall (suc n) cmd (s, if ok then calls_again else ended false)
        ≡ over (again_if syscall cmd (s, ok))
  unfolding alone step
  after_register n s true = stays_over n (again syscall cmd s).0 (again syscall cmd s).1
  after_register n s false = stays_over n s false

  after_swap :
      (n : ℕ) (s : State K) (u : Bool)
      → alone syscall (suc (suc n)) cmd (s, if u then registers else ended false)
        ≡ over (if u then again_if syscall cmd (register_now syscall s) else (s, false))
  unfolding alone step
  after_swap n s true = after_register n (register_now syscall s).0 (register_now syscall s).1
  after_swap n s false = stays_over n s false

  after_answer :
      (n : ℕ) (s : State K) (rc : Rc)
      → alone syscall (suc (suc (suc n))) cmd (s, answered rc) ≡ over (after_call syscall cmd s rc)
  unfolding alone step
  after_answer n s zero_rc = stays_over (suc (suc n)) (record s { used = true }) true
  after_answer n s (errno m) = elim (Bool-cases (m == eperm)) [
    | inr other ↦ rw other (stays_over (suc (suc (suc n))) s false)
    | inl forked ↦ rw forked (elim (Bool-cases s.used) [
      | inl used ↦ rw used (after_swap n (record s { used = false }) true)
      | inr unused ↦ rw unused (after_swap n (record s { used = false }) false)
    ])
  ]

  after_ready :
      (n : ℕ) (s : State K) (ok : Bool)
      → alone syscall (suc (suc (suc (suc n)))) cmd (s, if ok then calls else ended false)
        ≡ over (run_if syscall cmd (s, ok))
  unfolding alone step
  after_ready n s true =
      let (k, rc) = syscall cmd s.kernel in after_answer n (record s { kernel = k }) rc
  after_ready n s false = stays_over (suc (suc (suc (suc n)))) s false

  alone-run : (s : State K) → alone syscall 5 cmd (s, asks) ≡ over (run syscall cmd s)
  unfolding alone step run
  alone-run s = after_ready 0 (ready syscall s).0 (ready syscall s).1

-- The static and the kernel, and where a thread is.
abbrev pub view : {K : Type 0} → ℕ → Threads K → State K × At
view i t = (t.shared, t.at i)

module _ {K : Type 0} (syscall : Command → K → K × Rc) (cmds : ℕ → Command) (i : ℕ) where
  interleave-repeat :
      (n : ℕ) (t : Threads K)
      → view i (interleave syscall cmds (repeat n i) t) ≡ alone syscall n (cmds i) (view i t)
  unfolding interleave alone repeat
  interleave-repeat zero t = refl
  interleave-repeat (suc n) t =
      let (s, a) = step syscall (cmds i) (t.at i) t.shared in
      let same : view i (turn syscall cmds i t) ≡ (s, a) = rw (==-self i) refl in
      interleave-repeat n (turn syscall cmds i t) ∙ ap (alone syscall n (cmds i)) same

  -- Whatever the kernel answers: five turns in a row of a thread that starts are a call of `run`.
  pub interleave-run :
      (t : Threads K)
      → t.at i ≡ asks
      → let (s, b) = run syscall (cmds i) t.shared in
        view i (interleave syscall cmds (repeat 5 i) t) ≡ (s, ended b)
  interleave-run t starts =
      interleave-repeat 5 t
      ∙ (ap (λ a. alone syscall 5 (cmds i) (t.shared, a)) starts
          ∙ alone-run syscall (cmds i) t.shared)

-- A bound on the steps that a thread has left.
abbrev pub left : At → ℕ
left asks = 5
left calls = 4
left swaps = 3
left registers = 2
left calls_again = 1
left marks = 1
left (ended b) = 0

left_if : (b : Bool) (a : At) → left (if b then a else ended false) ≤ left a
left_if true a = omega arith
left_if false a = omega arith

left-answered : (rc : Rc) → left (answered rc) ≤ 3
left-answered zero_rc = omega arith
left-answered (errno n) = left_if (n == eperm) swaps

module _ {K : Type 0} (syscall : Command → K → K × Rc) where
  left-step :
      (cmd : Command) (a : At) (s : State K) (n : ℕ)
      → left a ≤ suc n
      → left (step syscall cmd a s).1 ≤ n
  unfolding step
  left-step cmd asks s n h = let h' = left_if (ready syscall s).1 calls in omega (arith, h, h')
  left-step cmd calls s n h =
      let h' = left-answered (syscall cmd s.kernel).1 in omega (arith, h, h')
  left-step cmd marks s n h = omega arith
  left-step cmd swaps s n h = let h' = left_if s.used registers in omega (arith, h, h')
  left-step cmd registers s n h =
      let h' = left_if (register_now syscall s).1 calls_again in omega (arith, h, h')
  left-step cmd calls_again s n h = omega arith
  left-step cmd (ended b) s n h = omega arith

  over_of_left : (a : At) → left a ≤ 0 → (b : Bool) × (a ≡ ended b)
  over_of_left (ended b) h = (b, refl)
  over_of_left asks h = absurd (omega (arith, h))
  over_of_left calls h = absurd (omega (arith, h))
  over_of_left marks h = absurd (omega (arith, h))
  over_of_left swaps h = absurd (omega (arith, h))
  over_of_left registers h = absurd (omega (arith, h))
  over_of_left calls_again h = absurd (omega (arith, h))

  -- Whatever the kernel answers and however the threads interleave: a thread that has had its turn as
  -- often as it has steps left has a result.
  pub interleave-ends :
      (cmds : ℕ → Command) (is : List ℕ) (t : Threads K) (i : ℕ)
      → left (t.at i) ≤ turns_of i is
      → (b : Bool) × ((interleave syscall cmds is t).at i ≡ ended b)
  unfolding interleave turns_of
  interleave-ends cmds [] t i h = over_of_left (t.at i) h
  interleave-ends cmds (j ∷ is) t i h =
      interleave-ends cmds is (turn syscall cmds j t) i (elim (Bool-cases (j == i)) [
        | inr other ↦
            let h' : left (t.at i) ≤ turns_of i is =
              let none_more =
                subst (λ b. left (t.at i) ≤ (if b then 1 else 0) + turns_of i is) other h in
              omega (arith, none_more) in
            rw other h'
        | inl own ↦
            let h' : left (t.at i) ≤ suc (turns_of i is) =
              let one = subst (λ b. left (t.at i) ≤ (if b then 1 else 0) + turns_of i is) own h in
              omega (arith, one) in
            let moved =
              left-step (cmds j) (t.at j) t.shared (turns_of i is)
                (subst (λ k. left (t.at k) ≤ suc (turns_of i is)) (sym (eq_of_== j i own)) h') in
            rw own moved
      ])
