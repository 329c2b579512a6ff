-- ===== src/Registration/Bind.antt =====
-- The life of the crate's own area of src/registration.rs: bound once, unregistered by `drop`.
use mathlib.Core.Path.{subst}
use rseq_rs.Base.{ℕ, ◌≡◌, refl, sym, ap, ◌⊎◌, ◌∙◌, Bool, true, false, not, inl, inr, Bool-cases}
use rseq_rs.Abi.{Area, area_size, flag_unregister}
use rseq_rs.Registration.{Syscall, is_sentinel, register, drop}

-- `rseq(2)`: a registration that succeeds has the kernel write the CPU into the area; an area that is
-- registered already, by the kernel's record, is refused and left alone; unregistering clears both.
pub record IsRseq {K : Type 0} (rseq : Syscall K) (sig : ℕ) : Type 0 where
  pub registered : K → Bool
  pub writes :
      (s : Area × K)
      → (rseq area_size 0 sig s).1 ≡ true
      → (is_sentinel (rseq area_size 0 sig s).0.0.cpu_id ≡ false)
        × (registered (rseq area_size 0 sig s).0.1 ≡ true)
  pub refuses : (s : Area × K) → (rseq area_size 0 sig s).1 ≡ false → (rseq area_size 0 sig s).0 ≡ s
  pub clears :
      (s : Area × K)
      → registered s.1 ≡ true
      → (is_sentinel (rseq area_size flag_unregister sig s).0.0.cpu_id ≡ true)
        × (registered (rseq area_size flag_unregister sig s).0.1 ≡ false)

module _ {K : Type 0} (rseq : Syscall K) (sig : ℕ) (os : IsRseq rseq sig) where
  -- The area holds a CPU if and only if the kernel knows it.
  abbrev pub IsConsistent : Area × K → Type 0
  IsConsistent s = os.registered s.1 ≡ not (is_sentinel s.0.cpu_id)

  register-bound : (s : Area × K) → is_sentinel s.0.cpu_id ≡ false → register rseq sig s ≡ (s, true)
  unfolding register
  register-bound s bound = rw bound refl

  register-unbound :
      (s : Area × K) → is_sentinel s.0.cpu_id ≡ true → register rseq sig s ≡ rseq area_size 0 sig s
  unfolding register
  register-unbound s unbound = rw unbound refl

  -- What `o` is to `s`, if it is the state after a call that binds, and its result.
  pub record IsBound (s : Area × K) (o : (Area × K) × Bool) : Type 0 where
    pub consistent : IsConsistent o.0
    pub bound : o.1 ≡ not (is_sentinel o.0.0.cpu_id)
    pub again : register rseq sig o.0 ≡ o
    pub kept : (o.1 ≡ true) ⊎ (o.0 ≡ s)

  syscall-IsBound :
      (s : Area × K)
      → IsConsistent s
      → is_sentinel s.0.cpu_id ≡ true
      → IsBound s (rseq area_size 0 sig s)
  syscall-IsBound s consistent unbound = elim (Bool-cases (rseq area_size 0 sig s).1) [
    | inl done ↦
        let (real, known) = os.writes s done in
        record {
          consistent = rw (real, known) refl;
          bound = done ∙ rw real refl;
          again =
              register-bound (rseq area_size 0 sig s).0 real
              ∙ ap (λ b. ((rseq area_size 0 sig s).0, b)) (sym done);
          kept = inl done;
        }
    | inr refused ↦
        let same = os.refuses s refused in
        record {
          consistent = subst IsConsistent (sym same) consistent;
          bound = refused ∙ rw (same, unbound) refl;
          again = ap (register rseq sig) same ∙ register-unbound s unbound;
          kept = inr same;
        }
  ]

  -- On a kernel that treats rseq(2) as documented: binding keeps the area consistent with the
  -- kernel's record, and succeeds if and only if the area then holds a CPU. Binding again then
  -- changes nothing and has the same result, and a call that fails changes nothing.
  pub register-IsBound : (s : Area × K) → IsConsistent s → IsBound s (register rseq sig s)
  register-IsBound s consistent = elim (Bool-cases (is_sentinel s.0.cpu_id)) [
    | inr bound ↦ subst (IsBound s) (sym (register-bound s bound)) (record {
      consistent = consistent;
      bound = rw bound refl;
      again = register-bound s bound;
      kept = inl refl;
    })
    | inl unbound ↦
        subst (IsBound s) (sym (register-unbound s unbound)) (syscall-IsBound s consistent unbound)
  ]

  -- On a kernel that treats rseq(2) as documented, from an area consistent with its record: a
  -- success of `register` is undone by `drop`: the area holds no CPU, and the kernel has forgotten
  -- it.
  pub drop-register :
      (s : Area × K)
      → IsConsistent s
      → (register rseq sig s).1 ≡ true
      → let s' = drop rseq sig (register rseq sig s).0 in
        (is_sentinel s'.0.cpu_id ≡ true) × (os.registered s'.1 ≡ false)
  unfolding drop
  drop-register s consistent done =
      let b = register-IsBound s consistent in
      os.clears (register rseq sig s).0 (b.consistent ∙ sym b.bound ∙ done)
