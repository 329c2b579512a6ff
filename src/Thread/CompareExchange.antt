-- ===== src/Thread/CompareExchange.antt =====
-- `compare_exchange`, `compare_exchange_if` of src/thread.rs on the two architectures, under any interruptions.
use mathlib.Core.Path.{subst}
use rseq_rs.Base.{ℕ, ◌≡◌, refl, sym, ap, false, ◌==◌, ==-self, inl, inr, Bool-cases, IsU32}
use rseq_rs.Abi.{Area}
use rseq_rs.Machine.{Mem, Reg}
use rseq_rs.Section.Check.{stores_side}
use rseq_rs.Section.Interrupt.{IsSection}
use rseq_rs.Blocks.Spec
use rseq_rs.Blocks.X86_64
use rseq_rs.Blocks.Aarch64
use rseq_rs.Cs
use rseq_rs.Cs.{Arch, x86_64, aarch64, Target, linux, World, Call}
use rseq_rs.Thread as Ops
use rseq_rs.Thread.{
  Kind, cpu_kind, cid_kind, off, Word, Thread, Result, result_of, sum_of, with_result,
}
use rseq_rs.Thread.Promise
use rseq_rs.Thread.Promise.{index, Untouched, SideStored}
use rseq_rs.Thread.Lift.{IsSetUp, TakesEffect, lift, index-test, no-Scratch, dispatch}
use rseq_rs.Section.Linearized.{inputs}

pub compare_exchange-IsSection :
    (c : Call) (arch : Arch)
    → IsSetUp arch c
    → (at : ℕ)
    → IsSection c.kernel c.desc (Cs.compare_exchange_block arch at) (Spec.compare_exchange at)
compare_exchange-IsSection c x86_64 u at =
    X86_64.compare_exchange-IsSection c.kernel c.desc at u.registered u.fits
compare_exchange-IsSection c aarch64 u at =
    Aarch64.compare_exchange-IsSection c.kernel c.desc at u.registered u.fits

pub compare_exchange-scratch :
    (arch : Arch) (at : ℕ) → stores_side (Cs.compare_exchange_block arch at).code ≡ false
compare_exchange-scratch x86_64 at = refl
compare_exchange-scratch aarch64 at = refl

module _ (arch : Arch) (c : Call) (t : Thread) {k : Kind} (w : Word k) (expect new : ℕ)
    (s : World) where
  abbrev compare_exchange-regs : Reg → ℕ
  compare_exchange-regs = Cs.compare_exchange_operands c t.area w.word w.key expect new

  pub compare_exchange-same :
      IsU32 w.key
      → (m : Mem) (a : Area)
      → ((Spec.compare_exchange (off k) (inputs compare_exchange-regs) m a).0
          ≡ (Promise.compare_exchange w expect new m a).0)
        × (result_of (Spec.compare_exchange (off k) (inputs compare_exchange-regs) m a).1
            ≡ (Promise.compare_exchange w expect new m a).1)
  unfolding Spec.compare_exchange
  compare_exchange-same small m a =
      rw (index-test k a w.key (c.garbage Reg.id) small) (elim (Bool-cases (index k a == w.key)) [
        | inr elsewhere ↦ rw elsewhere (refl, refl)
        | inl here ↦ rw here (elim (Bool-cases (m w.word == expect)) [
          | inl same ↦ rw same (refl, refl)
          | inr differs ↦ rw differs (refl, refl)
        ])
      ])

  -- On either architecture, with the area registered, the key of the word a u32, and whatever
  -- interrupts the call: it returns, and it compares the word with `expect` and stores `new` at one
  -- instant at which the index of the thread is the key, or misses with the value seen, or gives up
  -- at an instant at which the index is another; attempts that were given up leave no trace.
  pub compare_exchange-TakesEffect :
      IsSetUp arch c
      → IsU32 w.key
      → TakesEffect c
          (Promise.compare_exchange w expect new)
          (Untouched)
          s
          (Ops.compare_exchange (linux arch) c t w expect new s)
  unfolding Ops.compare_exchange Cs.compare_exchange
  compare_exchange-TakesEffect up small =
      let regs = compare_exchange-regs in
      let run = λ (at : ℕ).
        with_result result_of
          (Cs.compare_exchange (linux arch) c at t.area w.word w.key expect new s) in
      let chosen : Ops.compare_exchange (linux arch) c t w expect new s ≡ run (off k) =
        ap (with_result result_of) (
          dispatch (λ at. Cs.compare_exchange (linux arch) c at t.area w.word w.key expect new s)
            k) in
      subst (TakesEffect c (Promise.compare_exchange w expect new) (Untouched) s) (sym chosen) (
        lift c (compare_exchange-IsSection c arch up (off k)) regs s result_of
          (Promise.compare_exchange w expect new) (Untouched) (compare_exchange-same small)
          (no-Scratch (Cs.compare_exchange_block arch (off k))
            (compare_exchange-scratch arch (off k)) regs))

pub compare_exchange_if-IsSection :
    (c : Call) (arch : Arch)
    → IsSetUp arch c
    → (at : ℕ)
    → IsSection c.kernel c.desc (Cs.compare_exchange_if_block arch at) (Spec.compare_exchange_if at)
compare_exchange_if-IsSection c x86_64 u at =
    X86_64.compare_exchange_if-IsSection c.kernel c.desc at u.registered u.fits
compare_exchange_if-IsSection c aarch64 u at =
    Aarch64.compare_exchange_if-IsSection c.kernel c.desc at u.registered u.fits

pub compare_exchange_if-scratch :
    (arch : Arch) (at : ℕ) → stores_side (Cs.compare_exchange_if_block arch at).code ≡ false
compare_exchange_if-scratch x86_64 at = refl
compare_exchange_if-scratch aarch64 at = refl

module _ (arch : Arch) (c : Call) (t : Thread) {k : Kind} (w : Word k) (expect new : ℕ) (o : Word k)
    (other_expect : ℕ) (s : World) where
  abbrev compare_exchange_if-regs : Reg → ℕ
  compare_exchange_if-regs =
      Cs.compare_exchange_if_operands c t.area w.word w.key expect new o.word other_expect

  pub compare_exchange_if-same :
      IsU32 w.key
      → (m : Mem) (a : Area)
      → ((Spec.compare_exchange_if (off k) (inputs compare_exchange_if-regs) m a).0
          ≡ (Promise.compare_exchange_if w expect new o other_expect m a).0)
        × (result_of (Spec.compare_exchange_if (off k) (inputs compare_exchange_if-regs) m a).1
            ≡ (Promise.compare_exchange_if w expect new o other_expect m a).1)
  unfolding Spec.compare_exchange_if
  compare_exchange_if-same small m a =
      rw (index-test k a w.key (c.garbage Reg.id) small) (elim (Bool-cases (index k a == w.key)) [
        | inr elsewhere ↦ rw elsewhere (refl, refl)
        | inl here ↦ rw here (elim (Bool-cases (m w.word == expect)) [
          | inl same ↦ rw same (elim (Bool-cases (m o.word == other_expect)) [
            | inl same_too ↦ rw same_too (refl, refl)
            | inr differs ↦ rw differs (refl, refl)
          ])
          | inr differs ↦ rw differs (refl, refl)
        ])
      ])

  -- On either architecture, with the area registered, for two words of the same key, which is a
  -- u32, and whatever interrupts the call: it returns, and at one instant it compares both words
  -- and stores `new` to the first, or misses with the value that differed, the first word's before
  -- the other's, or gives up on another index; attempts that were given up leave no trace.
  pub compare_exchange_if-TakesEffect :
      IsSetUp arch c
      → IsU32 w.key
      → o.key ≡ w.key
      → TakesEffect c
          (Promise.compare_exchange_if w expect new o other_expect)
          (Untouched)
          s
          (Ops.compare_exchange_if (linux arch) c t w expect new o other_expect s)
  unfolding Ops.compare_exchange_if Cs.compare_exchange_if
  compare_exchange_if-TakesEffect up small eq =
      let regs = compare_exchange_if-regs in
      let run = λ (at : ℕ). with_result result_of (
        Cs.compare_exchange_if (linux arch) c at t.area w.word w.key expect new o.word other_expect
          s) in
      let chosen : Ops.compare_exchange_if (linux arch) c t w expect new o other_expect s
          ≡ run (off k) =
        rw (eq, ==-self w.key)
          (ap (with_result result_of) (
            dispatch
              (λ at.
                Cs.compare_exchange_if (linux arch) c at t.area w.word w.key expect new o.word
                  other_expect s)
              k)) in
      subst (TakesEffect c (Promise.compare_exchange_if w expect new o other_expect) (Untouched) s)
        (sym chosen)
        (lift c (compare_exchange_if-IsSection c arch up (off k)) regs s result_of
          (Promise.compare_exchange_if w expect new o other_expect) (Untouched)
          (compare_exchange_if-same small)
          (no-Scratch (Cs.compare_exchange_if_block arch (off k))
            (compare_exchange_if-scratch arch (off k)) regs))
