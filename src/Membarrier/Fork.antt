-- ===== src/Membarrier/Fork.antt =====
-- src/membarrier.rs on the kernel that membarrier(2) documents, and across `fork`.
use mathlib.Core.Path.{subst}
use rseq_rs.Base.{ℕ, ◌≡◌, refl, sym, ◌∙◌, Bool, true, false, ◌||◌, none, some, inl, inr, Bool-cases}
use rseq_rs.Membarrier.{
  Command, register, expedited, Rc, zero_rc, errno, eperm, State, register_now, ready, run,
}

-- The documented behaviour: a process registers, the fence of one that has not is EPERM.
pub record IsMembarrier {K : Type 0} (syscall : Command → K → K × Rc) : Type 0 where
  pub registered : K → Bool
  pub registers : (k : K) → (syscall register k).1 ≡ zero_rc
  pub registers_it : (k : K) → registered (syscall register k).0 ≡ true
  pub fences :
      (k : K) (flags cpu : ℕ) → registered k ≡ true → (syscall (expedited flags cpu) k).1 ≡ zero_rc
  pub refuses :
      (k : K) (flags cpu : ℕ)
      → registered k ≡ false
      → (syscall (expedited flags cpu) k).1 ≡ errno eperm
  pub keeps :
      (k : K) (flags cpu : ℕ) → registered (syscall (expedited flags cpu) k).0 ≡ registered k

module _ {K : Type 0} {syscall : Command → K → K × Rc} (os : IsMembarrier syscall) where
  -- What a fence does once `READY` says true.
  pub record IsFence (before used : Bool) (o : State K × Bool) : Type 0 where
    pub result : o.1 ≡ (before || used)
    pub used_after : o.0.used ≡ before
    pub registered_after : os.registered o.0.kernel ≡ (before || used)
    pub ready_after : o.0.ready ≡ some true

module _ {K : Type 0} (syscall : Command → K → K × Rc) (os : IsMembarrier syscall) (flags cpu : ℕ)
    (s : State K) where
  run-registered :
      s.ready ≡ some true
      → os.registered s.kernel ≡ true
      → IsFence os true s.used (run syscall (expedited flags cpu) s)
  unfolding run ready
  run-registered is_ready reg =
      rw (is_ready, os.fences s.kernel flags cpu reg)
        (record {
          result = refl;
          used_after = refl;
          registered_after = os.keeps s.kernel flags cpu ∙ reg;
          ready_after = refl;
        })

  run-unused :
      s.ready ≡ some true
      → os.registered s.kernel ≡ false
      → s.used ≡ false
      → IsFence os false false (run syscall (expedited flags cpu) s)
  unfolding run ready
  run-unused is_ready unreg unused =
      rw (is_ready, os.refuses s.kernel flags cpu unreg, unused)
        (record {
          result = refl;
          used_after = refl;
          registered_after = os.keeps s.kernel flags cpu ∙ unreg;
          ready_after = refl;
        })

  run-renewed :
      s.ready ≡ some true
      → os.registered s.kernel ≡ false
      → s.used ≡ true
      → IsFence os false true (run syscall (expedited flags cpu) s)
  unfolding run ready register_now
  run-renewed is_ready unreg used =
      let refused = (syscall (expedited flags cpu) s.kernel).0 in
      let renewed = (syscall register refused).0 in
      let reg = os.registers_it refused in
      rw
        (
          is_ready,
          os.refuses s.kernel flags cpu unreg,
          used,
          os.registers refused,
          os.fences renewed flags cpu reg,
        )
        (record {
          result = refl;
          used_after = refl;
          registered_after = os.keeps renewed flags cpu ∙ reg;
          ready_after = refl;
        })

  -- On a kernel that treats membarrier(2) as documented: once `READY` is true, a fence succeeds if
  -- and only if the process is registered or `USED` is true, it leaves the process registered if
  -- and only if it succeeds, and it leaves `USED` true if and only if the process was registered
  -- before it.
  pub run-IsFence :
      s.ready ≡ some true
      → IsFence os (os.registered s.kernel) s.used (run syscall (expedited flags cpu) s)
  run-IsFence is_ready =
      let fence_with = λ (u : Bool). IsFence os false u (run syscall (expedited flags cpu) s) in
      elim (Bool-cases (os.registered s.kernel)) [
        | inl reg ↦ rw reg (run-registered is_ready reg)
        | inr unreg ↦ rw unreg (elim (Bool-cases s.used) [
          | inl used ↦ subst fence_with (sym used) (run-renewed is_ready unreg used)
          | inr unused ↦ subst fence_with (sym unused) (run-unused is_ready unreg unused)
        ])
      ]

  -- On a kernel that treats membarrier(2) as documented: the first fence of a process registers it
  -- and succeeds.
  pub run-first : s.ready ≡ none → IsFence os true s.used (run syscall (expedited flags cpu) s)
  unfolding run ready register_now
  run-first unready =
      let renewed = (syscall register s.kernel).0 in
      let reg = os.registers_it s.kernel in
      rw (unready, os.registers s.kernel, os.fences renewed flags cpu reg)
        (record {
          result = refl;
          used_after = refl;
          registered_after = os.keeps renewed flags cpu ∙ reg;
          ready_after = refl;
        })

-- `fork`: the statics are copied, the new process is not registered.
abbrev pub forked : {K : Type 0} → K → State K → State K
forked child s = record s { kernel = child }

module _ {K : Type 0} (syscall : Command → K → K × Rc) (os : IsMembarrier syscall) (flags cpu : ℕ)
    (s : State K) (used : s.ready ≡ some true) (child grandchild : K) where
  -- On a kernel that treats membarrier(2) as documented: once `READY` is true and the process
  -- registered, its fence succeeds, and `fork` then makes a child whose first fence succeeds; but a
  -- child of that child, made before it fences again, fails in its first fence.
  pub fork-fence :
      os.registered s.kernel ≡ true
      → os.registered child ≡ false
      → os.registered grandchild ≡ false
      → let first = run syscall (expedited flags cpu) s in
        let second = run syscall (expedited flags cpu) (forked child first.0) in
        let third = run syscall (expedited flags cpu) (forked grandchild second.0) in
        (first.1 ≡ true) × (second.1 ≡ true) × (third.1 ≡ false)
  fork-fence reg unreg unreg' =
      let first = run-IsFence syscall os flags cpu s used in
      let s₁ = forked child (run syscall (expedited flags cpu) s).0 in
      let second = run-IsFence syscall os flags cpu s₁ first.ready_after in
      let s₂ = forked grandchild (run syscall (expedited flags cpu) s₁).0 in
      let third = run-IsFence syscall os flags cpu s₂ second.ready_after in
      let used₁ = first.used_after ∙ reg in
      let used₂ = second.used_after ∙ unreg in
      (
        first.result ∙ rw reg refl,
        second.result ∙ rw (unreg, used₁) refl,
        third.result ∙ rw (unreg', used₂) refl,
      )
