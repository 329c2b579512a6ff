-- ===== src/Processors/Stores.antt =====
-- What `compare_exchange`, `compare_exchange_if` and `fetch_add` store: nothing on another index, and nothing
-- but their own word.
use rseq_rs.Base.{ℕ, ◌≡◌, ◌≢◌, refl, sym, false, ◌==◌, Bool-cases, inl, inr}
use rseq_rs.Abi.{Area}
use rseq_rs.Machine.{Reg, Mem}
use rseq_rs.Machine.Memory.{write-elsewhere}
use rseq_rs.Blocks.Spec

module _ (at : ℕ) (r : Reg → ℕ) where
  pub compare_exchange-off :
      (m : Mem) (a : Area) → Spec.on_index at r a ≡ false → (Spec.compare_exchange at r m a).0 ≡ m
  unfolding Spec.compare_exchange
  compare_exchange-off m a other = rw other refl

  pub compare_exchange-elsewhere :
      (m : Mem) (a : Area) (x : ℕ) → x ≢ r Reg.word → (Spec.compare_exchange at r m a).0 x ≡ m x
  unfolding Spec.compare_exchange
  compare_exchange-elsewhere m a x ne = elim (Bool-cases (Spec.on_index at r a)) [
    | inr other ↦ rw other refl
    | inl here ↦ rw here (elim (Bool-cases (m (r Reg.word) == r Reg.expect)) [
      | inr differs ↦ rw differs refl
      | inl same ↦ rw same (write-elsewhere m (r Reg.word) x (r Reg.new) (λ e. ne (sym e)))
    ])
  ]

  pub compare_exchange_if-off :
      (m : Mem) (a : Area)
      → Spec.on_index at r a ≡ false
      → (Spec.compare_exchange_if at r m a).0 ≡ m
  unfolding Spec.compare_exchange_if
  compare_exchange_if-off m a other = rw other refl

  pub compare_exchange_if-elsewhere :
      (m : Mem) (a : Area) (x : ℕ) → x ≢ r Reg.word → (Spec.compare_exchange_if at r m a).0 x ≡ m x
  unfolding Spec.compare_exchange_if
  compare_exchange_if-elsewhere m a x ne = elim (Bool-cases (Spec.on_index at r a)) [
    | inr other ↦ rw other refl
    | inl here ↦ rw here (elim (Bool-cases (m (r Reg.word) == r Reg.expect)) [
      | inr differs ↦ rw differs refl
      | inl same ↦ rw same (elim (Bool-cases (m (r Reg.other) == r Reg.other_expect)) [
        | inr differs ↦ rw differs refl
        | inl same_too ↦
            rw same_too (write-elsewhere m (r Reg.word) x (r Reg.new) (λ e. ne (sym e)))
      ])
    ])
  ]

  pub fetch_add-off :
      (m : Mem) (a : Area) → Spec.on_index at r a ≡ false → (Spec.fetch_add at r m a).0 ≡ m
  unfolding Spec.fetch_add
  fetch_add-off m a other = rw other refl

  pub fetch_add-elsewhere :
      (m : Mem) (a : Area) (x : ℕ) → x ≢ r Reg.word → (Spec.fetch_add at r m a).0 x ≡ m x
  unfolding Spec.fetch_add
  fetch_add-elsewhere m a x ne = elim (Bool-cases (Spec.on_index at r a)) [
    | inr other ↦ rw other refl
    | inl here ↦ rw here (write-elsewhere m (r Reg.word) x _ (λ e. ne (sym e)))
  ]
