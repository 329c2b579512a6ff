-- ===== src/Thread/FetchAdd.antt =====
-- `fetch_add` of src/thread.rs on the two architectures, under any interruptions.
use mathlib.Core.Path.{subst}
use rseq_rs.Base.{ℕ, ◌≡◌, refl, sym, ap, false, ◌==◌, inl, inr, Bool-cases, IsU32}
use rseq_rs.Abi.{Area}
use rseq_rs.Machine.{Mem, Reg}
use rseq_rs.Section.Check.{stores_side}
use rseq_rs.Section.Interrupt.{IsSection}
use rseq_rs.Blocks.Spec
use rseq_rs.Blocks.X86_64
use rseq_rs.Blocks.Aarch64
use rseq_rs.Cs
use rseq_rs.Cs.{Arch, x86_64, aarch64, Target, linux, World, Call}
use rseq_rs.Thread as Ops
use rseq_rs.Thread.{
  Kind, cpu_kind, cid_kind, off, Word, Thread, Result, result_of, sum_of, with_result,
}
use rseq_rs.Thread.Promise
use rseq_rs.Thread.Promise.{index, Untouched, SideStored}
use rseq_rs.Thread.Lift.{IsSetUp, TakesEffect, lift, index-test, no-Scratch, dispatch}
use rseq_rs.Section.Linearized.{inputs}

pub fetch_add-IsSection :
    (c : Call) (arch : Arch)
    → IsSetUp arch c
    → (at : ℕ) → IsSection c.kernel c.desc (Cs.fetch_add_block arch at) (Spec.fetch_add at)
fetch_add-IsSection c x86_64 u at =
    X86_64.fetch_add-IsSection c.kernel c.desc at u.registered u.fits
fetch_add-IsSection c aarch64 u at =
    Aarch64.fetch_add-IsSection c.kernel c.desc at u.registered u.fits

pub fetch_add-scratch :
    (arch : Arch) (at : ℕ) → stores_side (Cs.fetch_add_block arch at).code ≡ false
fetch_add-scratch x86_64 at = refl
fetch_add-scratch aarch64 at = refl

module _ (arch : Arch) (c : Call) (t : Thread) {k : Kind} (w : Word k) (count : ℕ) (s : World) where
  abbrev fetch_add-regs : Reg → ℕ
  fetch_add-regs = Cs.fetch_add_operands c t.area w.word w.key count

  pub fetch_add-same :
      IsU32 w.key
      → (m : Mem) (a : Area)
      → ((Spec.fetch_add (off k) (inputs fetch_add-regs) m a).0 ≡ (Promise.fetch_add w count m a).0)
        × (sum_of (Spec.fetch_add (off k) (inputs fetch_add-regs) m a).1
            ≡ (Promise.fetch_add w count m a).1)
  unfolding Spec.fetch_add
  fetch_add-same small m a =
      rw (index-test k a w.key (c.garbage Reg.id) small) (elim (Bool-cases (index k a == w.key)) [
        | inr elsewhere ↦ rw elsewhere (refl, refl)
        | inl here ↦ rw here (refl, refl)
      ])

  -- On either architecture, with the area registered, the key of the word a u32, and whatever
  -- interrupts the call: it returns, and at one instant it adds `count` to the word, wrapping at
  -- 2^64, and returns the value before, or gives up on another index; attempts that were given up
  -- leave no trace.
  pub fetch_add-TakesEffect :
      IsSetUp arch c
      → IsU32 w.key
      → TakesEffect c
          (Promise.fetch_add w count)
          (Untouched)
          s
          (Ops.fetch_add (linux arch) c t w count s)
  unfolding Ops.fetch_add Cs.fetch_add
  fetch_add-TakesEffect up small =
      let regs = fetch_add-regs in
      let run = λ (at : ℕ).
        with_result sum_of (Cs.fetch_add (linux arch) c at t.area w.word w.key count s) in
      let chosen : Ops.fetch_add (linux arch) c t w count s ≡ run (off k) =
        ap (with_result sum_of)
          (dispatch (λ at. Cs.fetch_add (linux arch) c at t.area w.word w.key count s) k) in
      subst (TakesEffect c (Promise.fetch_add w count) (Untouched) s) (sym chosen) (
        lift c (fetch_add-IsSection c arch up (off k)) regs s sum_of (Promise.fetch_add w count)
          (Untouched) (fetch_add-same small)
          (no-Scratch (Cs.fetch_add_block arch (off k)) (fetch_add-scratch arch (off k)) regs))
