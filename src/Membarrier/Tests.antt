-- ===== src/Membarrier/Tests.antt =====
-- A kernel for src/membarrier.rs whose state is whether the process is registered, and the theorems on it.
use rseq_rs.Base.{
  List, [], ◌∷◌, ◌==◌, ◌≤◌, if◌then◌else◌, inl, arith, ℕ, ◌≡◌, refl, Bool, true, false, none, some,
}
use rseq_rs.Membarrier.{
  Command, register, expedited, Rc, zero_rc, errno, eperm, flag_cpu, State, run, fence,
  register_now, ready,
}
use rseq_rs.Membarrier.Threads.{Threads, asks, ended, step, interleave, turns_of}
use rseq_rs.Membarrier.Sound.{HasFenced, interleave-HasFenced}
use rseq_rs.Membarrier.Together.{interleave-fences}
use rseq_rs.Membarrier.Fork.{IsMembarrier, IsFence, run-IsFence, forked, fork-fence}

abbrev syscall : Command → Bool → Bool × Rc
syscall register registered = (true, zero_rc)
syscall (expedited flags cpu) true = (true, zero_rc)
syscall (expedited flags cpu) false = (false, errno eperm)

refused :
    (registered : Bool) (flags cpu : ℕ)
    → registered ≡ false
    → (syscall (expedited flags cpu) registered).1 ≡ errno eperm
refused true flags cpu h = absurd (cc)
refused false flags cpu h = refl

fenced :
    (registered : Bool) (flags cpu : ℕ)
    → registered ≡ true
    → (syscall (expedited flags cpu) registered).1 ≡ zero_rc
fenced true flags cpu h = refl
fenced false flags cpu h = absurd (cc)

kept :
    (registered : Bool) (flags cpu : ℕ) → (syscall (expedited flags cpu) registered).0 ≡ registered
kept true flags cpu = refl
kept false flags cpu = refl

abbrev os : IsMembarrier syscall
os = record {
  registered = λ b. b;
  registers = λ b. refl;
  registers_it = λ b. refl;
  fences = fenced;
  refuses = refused;
  keeps = kept;
}

abbrev parent : State Bool
parent = record { ready = some true; used = true; kernel = true }

abbrev fresh : State Bool
fresh = record { ready = none; used = false; kernel = false }

fences_it : (fence syscall 3 fresh).1 ≡ true
unfolding fence run ready register_now
fences_it = refl

run-IsFence_example :
    IsFence os false true (run syscall (expedited flag_cpu 3) (forked false parent))
run-IsFence_example = run-IsFence syscall os flag_cpu 3 (forked false parent) refl

fork-fence_example :
    let first = run syscall (expedited 0 0) parent in
    let second = run syscall (expedited 0 0) (forked false first.0) in
    let third = run syscall (expedited 0 0) (forked false second.0) in
    (first.1 ≡ true) × (second.1 ≡ true) × (third.1 ≡ false)
fork-fence_example = fork-fence syscall os 0 0 parent refl false false refl refl refl

-- Thread 0 fences CPU 3, the others CPU 4.
abbrev cpu_of : ℕ → ℕ
cpu_of i = if i == 0 then 3 else 4

abbrev fences_on : ℕ → Command
fences_on i = expedited flag_cpu (cpu_of i)

abbrev at_start : State Bool → Threads Bool
at_start s = record { shared = s; at = λ i. asks }

-- The threads 0 and 1 in turn.
abbrev by_turns : List ℕ
by_turns = 0 ∷ 1 ∷ 0 ∷ 1 ∷ 0 ∷ 1 ∷ 0 ∷ 1 ∷ 0 ∷ 1 ∷ []

five_turns : 5 ≤ turns_of 1 by_turns
unfolding turns_of
five_turns = omega arith

interleave-fences_example :
    (interleave syscall fences_on by_turns (at_start fresh)).at 1 ≡ ended true
interleave-fences_example =
    interleave-fences os (λ i. flag_cpu) cpu_of (at_start fresh) (inl refl) (λ i. refl) by_turns 1
      five_turns

both_end : (interleave syscall fences_on by_turns (at_start fresh)).at 1 ≡ ended true
unfolding interleave step ready register_now
both_end = refl

interleave-HasFenced_example : HasFenced syscall fences_on 1 by_turns (at_start fresh)
interleave-HasFenced_example =
    interleave-HasFenced syscall fences_on 1 by_turns (at_start fresh) refl both_end

-- In the child of a process that has fenced, both threads are refused; the first to swap `USED` registers the
-- child and ends with true, the second ends with false.
forked_pair :
    let t = interleave syscall fences_on by_turns (at_start (forked false parent)) in
    (t.at 0 ≡ ended true) × (t.at 1 ≡ ended false) × (t.shared.kernel ≡ true)
unfolding interleave step ready register_now
forked_pair = (refl, refl, refl)
