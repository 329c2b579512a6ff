-- ===== src/Thread/StoreIf.antt =====
-- `store_if` of src/thread.rs on the two architectures, under any interruptions.
use mathlib.Core.Path.{subst}
use rseq_rs.Base.{ℕ, ◌≡◌, refl, sym, ap, ◌∙◌, ◌==◌, ==-self, inl, inr, Bool-cases, IsU32}
use rseq_rs.Abi.{Area}
use rseq_rs.Machine.{Mem, Reg}
use rseq_rs.Section.Exec.{Scratch}
use rseq_rs.Section.Interrupt.{IsSection}
use rseq_rs.Blocks.Spec
use rseq_rs.Blocks.X86_64
use rseq_rs.Blocks.Aarch64
use rseq_rs.Cs
use rseq_rs.Cs.{Arch, x86_64, aarch64, Target, linux, World, Call}
use rseq_rs.Thread as Ops
use rseq_rs.Thread.{
  Kind, cpu_kind, cid_kind, off, Word, Thread, Result, result_of, sum_of, with_result,
}
use rseq_rs.Thread.Promise
use rseq_rs.Thread.Promise.{index, Untouched, SideStored}
use rseq_rs.Thread.Lift.{IsSetUp, TakesEffect, lift, index-test, dispatch}
use rseq_rs.Section.Linearized.{inputs}
use rseq_rs.Machine.{Block}

pub store_if-IsSection :
    (c : Call) (arch : Arch)
    → IsSetUp arch c
    → (at : ℕ) → IsSection c.kernel c.desc (Cs.store_if_block arch at) (Spec.store_if at)
store_if-IsSection c x86_64 u at = X86_64.store_if-IsSection c.kernel c.desc at u.registered u.fits
store_if-IsSection c aarch64 u at =
    Aarch64.store_if-IsSection c.kernel c.desc at u.registered u.fits

pub side-Scratch :
    {k : Kind} (blk : Block) (regs : Reg → ℕ) (side : Word k) (side_new : ℕ)
    → regs Reg.side ≡ side.word
    → regs Reg.side_new ≡ side_new
    → (m m' : Mem) → Scratch blk regs m m'
    → SideStored side side_new m m'
side-Scratch blk regs side side_new e f m m' (inl p) = inl p
side-Scratch blk regs side side_new e f m m' (inr (stored, p)) = inr (p ∙ rw (e, f) refl)

module _ (arch : Arch) (c : Call) (t : Thread) {k : Kind} (w : Word k) (expect new : ℕ)
    (side : Word k) (side_new : ℕ) (s : World) where
  abbrev store_if-regs : Reg → ℕ
  store_if-regs = Cs.store_if_operands c t.area w.word w.key expect new side.word side_new

  pub store_if-same :
      IsU32 w.key
      → (m : Mem) (a : Area)
      → ((Spec.store_if (off k) (inputs store_if-regs) m a).0
          ≡ (Promise.store_if w expect new side side_new m a).0)
        × (result_of (Spec.store_if (off k) (inputs store_if-regs) m a).1
            ≡ (Promise.store_if w expect new side side_new m a).1)
  unfolding Spec.store_if
  store_if-same small m a =
      rw (index-test k a w.key (c.garbage Reg.id) small) (elim (Bool-cases (index k a == w.key)) [
        | inr elsewhere ↦ rw elsewhere (refl, refl)
        | inl here ↦ rw here (elim (Bool-cases (m w.word == expect)) [
          | inl same ↦ rw same (refl, refl)
          | inr differs ↦ rw differs (refl, refl)
        ])
      ])

  -- On either architecture, with the area registered, for two words of the same key, which is a
  -- u32, and whatever interrupts the call: it returns, and at one instant it compares the word with
  -- `expect` and stores to `side` and then to the word, or misses, or gives up on another index;
  -- attempts that were given up leave at most the store to `side`.
  pub store_if-TakesEffect :
      IsSetUp arch c
      → IsU32 w.key
      → side.key ≡ w.key
      → TakesEffect c
          (Promise.store_if w expect new side side_new)
          (SideStored side side_new)
          s
          (Ops.store_if (linux arch) c t w expect new side side_new s)
  unfolding Ops.store_if Cs.store_if
  store_if-TakesEffect up small eq =
      let regs = store_if-regs in
      let run = λ (at : ℕ).
        with_result result_of
          (Cs.store_if (linux arch) c at t.area w.word w.key expect new side.word side_new s) in
      let chosen : Ops.store_if (linux arch) c t w expect new side side_new s ≡ run (off k) =
        rw (eq, ==-self w.key)
          (ap (with_result result_of) (
            dispatch
              (λ at.
                Cs.store_if (linux arch) c at t.area w.word w.key expect new side.word side_new s)
              k)) in
      subst
        (TakesEffect c (Promise.store_if w expect new side side_new) (SideStored side side_new) s)
        (sym chosen)
        (lift c (store_if-IsSection c arch up (off k)) regs s result_of
          (Promise.store_if w expect new side side_new) (SideStored side side_new)
          (store_if-same small)
          (side-Scratch (Cs.store_if_block arch (off k)) regs side side_new refl refl))
