-- ===== src/Blocks/X86_64.antt =====
-- src/x86_64.rs: each block is a restartable sequence that does what its specification says.
use rseq_rs.Base.{ℕ, ◌≡◌, refl, Bool-cases, inl, inr, arith, ◌==◌, IsUsize}
use rseq_rs.Abi.{sig_x86_64}
use rseq_rs.Machine.{step, steps, find_label, attempt, Reg}
use rseq_rs.Kernel.{Kernel, finish, sig_at}
use rseq_rs.Section.Check.{is_restartable}
use rseq_rs.Section.Interrupt.{IsSection}
use rseq_rs.Blocks.Spec
use rseq_rs.Blocks.Spec.{on_index}
use rseq_rs.Blocks.Literal.{Computes, IsSection-of}
use rseq_rs.X86_64

module _ (desc off : ℕ) where
  compare_exchange-Computes :
      Computes desc (X86_64.compare_exchange off) (Spec.compare_exchange off)
  unfolding finish attempt Spec.compare_exchange find_label
  compare_exchange-Computes z r m a = elim (Bool-cases (on_index off r a)) [
    | inr elsewhere ↦ rw elsewhere (refl, refl)
    | inl here ↦ rw here (elim (Bool-cases (m (r Reg.word) == r Reg.expect)) [
      | inl same ↦ rw same (refl, refl)
      | inr differs ↦ rw differs (refl, refl)
    ])
  ]

  fetch_add-Computes : Computes desc (X86_64.fetch_add off) (Spec.fetch_add off)
  unfolding finish attempt Spec.fetch_add find_label
  fetch_add-Computes z r m a = elim (Bool-cases (on_index off r a)) [
    | inr elsewhere ↦ rw elsewhere (refl, refl)
    | inl here ↦ rw here (refl, refl)
  ]

  store_if-Computes : Computes desc (X86_64.store_if off) (Spec.store_if off)
  unfolding finish attempt Spec.store_if find_label
  store_if-Computes z r m a = elim (Bool-cases (on_index off r a)) [
    | inr elsewhere ↦ rw elsewhere (refl, refl)
    | inl here ↦ rw here (elim (Bool-cases (m (r Reg.word) == r Reg.expect)) [
      | inl same ↦ rw same (refl, refl)
      | inr differs ↦ rw differs (refl, refl)
    ])
  ]

  compare_exchange_if-Computes :
      Computes desc (X86_64.compare_exchange_if off) (Spec.compare_exchange_if off)
  unfolding finish attempt Spec.compare_exchange_if find_label
  compare_exchange_if-Computes z r m a = elim (Bool-cases (on_index off r a)) [
    | inr elsewhere ↦ rw elsewhere (refl, refl)
    | inl here ↦ rw here (elim (Bool-cases (m (r Reg.word) == r Reg.expect)) [
      | inl same ↦ rw same (elim (Bool-cases (m (r Reg.other) == r Reg.other_expect)) [
        | inl same_too ↦ rw same_too (refl, refl)
        | inr differs ↦ rw differs (refl, refl)
      ])
      | inr differs ↦ rw differs (refl, refl)
    ])
  ]

  load_if_ne-Computes : Computes desc (X86_64.load_if_ne off) (Spec.load_if_ne off)
  unfolding finish attempt Spec.load_if_ne find_label
  load_if_ne-Computes z r m a = elim (Bool-cases (on_index off r a)) [
    | inr elsewhere ↦ rw elsewhere (refl, refl)
    | inl here ↦ rw here (elim (Bool-cases (m (r Reg.word) == r Reg.expect_not)) [
      | inl same ↦ rw same (refl, refl)
      | inr differs ↦ rw differs (refl, refl)
    ])
  ]

  fetch_add_at-Computes : Computes desc (X86_64.fetch_add_at off) (Spec.fetch_add_at off)
  unfolding finish attempt Spec.fetch_add_at find_label
  fetch_add_at-Computes z r m a = elim (Bool-cases (on_index off r a)) [
    | inr elsewhere ↦ rw elsewhere (refl, refl)
    | inl here ↦ rw here (refl, refl)
  ]

module _ (k : Kernel) (desc off : ℕ) (registered : k.registered ≡ sig_x86_64)
    (fits : IsUsize desc) where
  pub compare_exchange-IsSection :
      IsSection k desc (X86_64.compare_exchange off) (Spec.compare_exchange off)
  unfolding is_restartable step steps find_label sig_at
  compare_exchange-IsSection =
      IsSection-of k desc (X86_64.compare_exchange off) (Spec.compare_exchange off) refl
        (rw registered refl) (λ z r m a. refl) (omega arith) (λ z r m a. (refl, refl))
        (compare_exchange-Computes desc off)

  pub fetch_add-IsSection : IsSection k desc (X86_64.fetch_add off) (Spec.fetch_add off)
  unfolding is_restartable step steps find_label sig_at
  fetch_add-IsSection =
      IsSection-of k desc (X86_64.fetch_add off) (Spec.fetch_add off) refl (rw registered refl)
        (λ z r m a. refl) (omega arith) (λ z r m a. (refl, refl)) (fetch_add-Computes desc off)

  pub store_if-IsSection : IsSection k desc (X86_64.store_if off) (Spec.store_if off)
  unfolding is_restartable step steps find_label sig_at
  store_if-IsSection =
      IsSection-of k desc (X86_64.store_if off) (Spec.store_if off) refl (rw registered refl)
        (λ z r m a. refl) (omega arith) (λ z r m a. (refl, refl)) (store_if-Computes desc off)

  pub compare_exchange_if-IsSection :
      IsSection k desc (X86_64.compare_exchange_if off) (Spec.compare_exchange_if off)
  unfolding is_restartable step steps find_label sig_at
  compare_exchange_if-IsSection =
      IsSection-of k desc (X86_64.compare_exchange_if off) (Spec.compare_exchange_if off) refl
        (rw registered refl) (λ z r m a. refl) (omega arith) (λ z r m a. (refl, refl))
        (compare_exchange_if-Computes desc off)

  pub load_if_ne-IsSection : IsSection k desc (X86_64.load_if_ne off) (Spec.load_if_ne off)
  unfolding is_restartable step steps find_label sig_at
  load_if_ne-IsSection =
      IsSection-of k desc (X86_64.load_if_ne off) (Spec.load_if_ne off) refl (rw registered refl)
        (λ z r m a. refl) (omega arith) (λ z r m a. (refl, refl)) (load_if_ne-Computes desc off)

  pub fetch_add_at-IsSection : IsSection k desc (X86_64.fetch_add_at off) (Spec.fetch_add_at off)
  unfolding is_restartable step steps find_label sig_at
  fetch_add_at-IsSection =
      IsSection-of k desc (X86_64.fetch_add_at off) (Spec.fetch_add_at off) refl
        (rw registered refl) (λ z r m a. refl) (omega arith) (λ z r m a. (refl, refl))
        (fetch_add_at-Computes desc off)
