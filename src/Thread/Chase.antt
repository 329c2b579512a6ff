-- ===== src/Thread/Chase.antt =====
-- `load_if_ne`, `fetch_add_at` of src/thread.rs on the two architectures, under any interruptions.
use mathlib.Core.Path.{subst}
use rseq_rs.Base.{ℕ, ◌≡◌, refl, sym, ap, false, ◌==◌, inl, inr, Bool-cases, IsU32}
use rseq_rs.Abi.{Area}
use rseq_rs.Machine.{Mem, Reg}
use rseq_rs.Section.Check.{stores_side}
use rseq_rs.Section.Interrupt.{IsSection}
use rseq_rs.Blocks.Spec
use rseq_rs.Blocks.X86_64
use rseq_rs.Blocks.Aarch64
use rseq_rs.Cs
use rseq_rs.Cs.{Arch, x86_64, aarch64, Target, linux, World, Call}
use rseq_rs.Thread as Ops
use rseq_rs.Thread.{
  Kind, cpu_kind, cid_kind, off, Word, Thread, Result, result_of, sum_of, with_result,
}
use rseq_rs.Thread.Promise
use rseq_rs.Thread.Promise.{index, Untouched, SideStored}
use rseq_rs.Thread.Lift.{IsSetUp, TakesEffect, lift, index-test, no-Scratch, dispatch}
use rseq_rs.Section.Linearized.{inputs}

pub load_if_ne-IsSection :
    (c : Call) (arch : Arch)
    → IsSetUp arch c
    → (at : ℕ) → IsSection c.kernel c.desc (Cs.load_if_ne_block arch at) (Spec.load_if_ne at)
load_if_ne-IsSection c x86_64 u at =
    X86_64.load_if_ne-IsSection c.kernel c.desc at u.registered u.fits
load_if_ne-IsSection c aarch64 u at =
    Aarch64.load_if_ne-IsSection c.kernel c.desc at u.registered u.fits

pub load_if_ne-scratch :
    (arch : Arch) (at : ℕ) → stores_side (Cs.load_if_ne_block arch at).code ≡ false
load_if_ne-scratch x86_64 at = refl
load_if_ne-scratch aarch64 at = refl

module _ (arch : Arch) (c : Call) (t : Thread) {k : Kind} (w : Word k) (expect_not offset : ℕ)
    (s : World) where
  abbrev load_if_ne-regs : Reg → ℕ
  load_if_ne-regs = Cs.load_if_ne_operands c t.area w.word w.key expect_not offset

  pub load_if_ne-same :
      IsU32 w.key
      → (m : Mem) (a : Area)
      → ((Spec.load_if_ne (off k) (inputs load_if_ne-regs) m a).0
          ≡ (Promise.load_if_ne w expect_not offset m a).0)
        × (result_of (Spec.load_if_ne (off k) (inputs load_if_ne-regs) m a).1
            ≡ (Promise.load_if_ne w expect_not offset m a).1)
  unfolding Spec.load_if_ne
  load_if_ne-same small m a =
      rw (index-test k a w.key (c.garbage Reg.id) small) (elim (Bool-cases (index k a == w.key)) [
        | inr elsewhere ↦ rw elsewhere (refl, refl)
        | inl here ↦ rw here (elim (Bool-cases (m w.word == expect_not)) [
          | inl same ↦ rw same (refl, refl)
          | inr differs ↦ rw differs (refl, refl)
        ])
      ])

  -- On either architecture, with the area registered, the key of the word a u32, and whatever
  -- interrupts the call: it returns, and at one instant it replaces a word that is not `expect_not`
  -- by the word at its value plus the offset, and returns the old value, or misses, or gives up on
  -- another index; attempts that were given up leave no trace.
  pub load_if_ne-TakesEffect :
      IsSetUp arch c
      → IsU32 w.key
      → TakesEffect c
          (Promise.load_if_ne w expect_not offset)
          (Untouched)
          s
          (Ops.load_if_ne (linux arch) c t w expect_not offset s)
  unfolding Ops.load_if_ne Cs.load_if_ne
  load_if_ne-TakesEffect up small =
      let regs = load_if_ne-regs in
      let run = λ (at : ℕ).
        with_result result_of
          (Cs.load_if_ne (linux arch) c at t.area w.word w.key expect_not offset s) in
      let chosen : Ops.load_if_ne (linux arch) c t w expect_not offset s ≡ run (off k) =
        ap (with_result result_of) (
          dispatch (λ at. Cs.load_if_ne (linux arch) c at t.area w.word w.key expect_not offset s)
            k) in
      subst (TakesEffect c (Promise.load_if_ne w expect_not offset) (Untouched) s) (sym chosen) (
        lift c (load_if_ne-IsSection c arch up (off k)) regs s result_of
          (Promise.load_if_ne w expect_not offset) (Untouched) (load_if_ne-same small)
          (no-Scratch (Cs.load_if_ne_block arch (off k)) (load_if_ne-scratch arch (off k)) regs))

pub fetch_add_at-IsSection :
    (c : Call) (arch : Arch)
    → IsSetUp arch c
    → (at : ℕ) → IsSection c.kernel c.desc (Cs.fetch_add_at_block arch at) (Spec.fetch_add_at at)
fetch_add_at-IsSection c x86_64 u at =
    X86_64.fetch_add_at-IsSection c.kernel c.desc at u.registered u.fits
fetch_add_at-IsSection c aarch64 u at =
    Aarch64.fetch_add_at-IsSection c.kernel c.desc at u.registered u.fits

pub fetch_add_at-scratch :
    (arch : Arch) (at : ℕ) → stores_side (Cs.fetch_add_at_block arch at).code ≡ false
fetch_add_at-scratch x86_64 at = refl
fetch_add_at-scratch aarch64 at = refl

module _ (arch : Arch) (c : Call) (t : Thread) {k : Kind} (w : Word k) (offset count : ℕ)
    (s : World) where
  abbrev fetch_add_at-regs : Reg → ℕ
  fetch_add_at-regs = Cs.fetch_add_at_operands c t.area w.word w.key offset count

  pub fetch_add_at-same :
      IsU32 w.key
      → (m : Mem) (a : Area)
      → ((Spec.fetch_add_at (off k) (inputs fetch_add_at-regs) m a).0
          ≡ (Promise.fetch_add_at w offset count m a).0)
        × (sum_of (Spec.fetch_add_at (off k) (inputs fetch_add_at-regs) m a).1
            ≡ (Promise.fetch_add_at w offset count m a).1)
  unfolding Spec.fetch_add_at
  fetch_add_at-same small m a =
      rw (index-test k a w.key (c.garbage Reg.id) small) (elim (Bool-cases (index k a == w.key)) [
        | inr elsewhere ↦ rw elsewhere (refl, refl)
        | inl here ↦ rw here (refl, refl)
      ])

  -- On either architecture, with the area registered, the key of the word a u32, and whatever
  -- interrupts the call: it returns, and at one instant it adds `count`, wrapping at 2^64, to the
  -- word whose address stands at the pointer plus the offset, and returns the value before, or
  -- gives up on another index; attempts that were given up leave no trace.
  pub fetch_add_at-TakesEffect :
      IsSetUp arch c
      → IsU32 w.key
      → TakesEffect c
          (Promise.fetch_add_at w offset count)
          (Untouched)
          s
          (Ops.fetch_add_at (linux arch) c t w offset count s)
  unfolding Ops.fetch_add_at Cs.fetch_add_at
  fetch_add_at-TakesEffect up small =
      let regs = fetch_add_at-regs in
      let run = λ (at : ℕ).
        with_result sum_of (Cs.fetch_add_at (linux arch) c at t.area w.word w.key offset count s) in
      let chosen : Ops.fetch_add_at (linux arch) c t w offset count s ≡ run (off k) =
        ap (with_result sum_of) (
          dispatch (λ at. Cs.fetch_add_at (linux arch) c at t.area w.word w.key offset count s)
            k) in
      subst (TakesEffect c (Promise.fetch_add_at w offset count) (Untouched) s) (sym chosen) (
        lift c (fetch_add_at-IsSection c arch up (off k)) regs s sum_of
          (Promise.fetch_add_at w offset count) (Untouched) (fetch_add_at-same small)
          (no-Scratch (Cs.fetch_add_at_block arch (off k)) (fetch_add_at-scratch arch (off k))
            regs))
