-- ===== src/Thread/Sections.antt =====
-- The block that each word operation of src/thread.rs enters, with its operands and what is read off its
-- outcome.
use rseq_rs.Base.{ℕ, ◌≡◌, refl, ap, ==-self, IsU32}
use rseq_rs.Abi.{Area}
use rseq_rs.Attempt.{Attempt}
use rseq_rs.Machine.{Reg, Mem, Block}
use rseq_rs.Section.Exec.{Scratch}
use rseq_rs.Section.Linearized.{Spec, inputs}
use rseq_rs.Section.Interrupt.{IsSection}
use rseq_rs.Blocks.Spec
use rseq_rs.Cs
use rseq_rs.Cs.{Arch, linux, World, Call, enter}
use rseq_rs.Thread as Ops
use rseq_rs.Thread.{Kind, off, Word, Thread, Result, result_of, sum_of, with_result}
use rseq_rs.Thread.Lift.{IsSetUp, no-Scratch, dispatch}
use rseq_rs.Thread.Operation.{
  Operation, compare_exchange, compare_exchange_if, fetch_add, load_if_ne, fetch_add_at, store_if,
  perform, promised, Leftover, word_of, IsPaired,
}
use rseq_rs.Thread.CompareExchange as CompareExchange
use rseq_rs.Thread.StoreIf as StoreIf
use rseq_rs.Thread.FetchAdd as FetchAdd
use rseq_rs.Thread.Chase as Chase

module _ {k : Kind} where
  abbrev pub block_of : Arch → Operation k → Block
  block_of arch (compare_exchange w expect new) = Cs.compare_exchange_block arch (off k)
  block_of arch (compare_exchange_if w expect new o other_expect) =
      Cs.compare_exchange_if_block arch (off k)
  block_of arch (fetch_add w count) = Cs.fetch_add_block arch (off k)
  block_of arch (load_if_ne w expect_not offset) = Cs.load_if_ne_block arch (off k)
  block_of arch (fetch_add_at w offset count) = Cs.fetch_add_at_block arch (off k)
  block_of arch (store_if w expect new side side_new) = Cs.store_if_block arch (off k)

  abbrev pub operands_of : Call → Thread → Operation k → Reg → ℕ
  operands_of c t (compare_exchange w expect new) =
      Cs.compare_exchange_operands c t.area w.word w.key expect new
  operands_of c t (compare_exchange_if w expect new o other_expect) =
      Cs.compare_exchange_if_operands c t.area w.word w.key expect new o.word other_expect
  operands_of c t (fetch_add w count) = Cs.fetch_add_operands c t.area w.word w.key count
  operands_of c t (load_if_ne w expect_not offset) =
      Cs.load_if_ne_operands c t.area w.word w.key expect_not offset
  operands_of c t (fetch_add_at w offset count) =
      Cs.fetch_add_at_operands c t.area w.word w.key offset count
  operands_of c t (store_if w expect new side side_new) =
      Cs.store_if_operands c t.area w.word w.key expect new side.word side_new

  abbrev pub spec_of : Operation k → Spec
  spec_of (compare_exchange w expect new) = Spec.compare_exchange (off k)
  spec_of (compare_exchange_if w expect new o other_expect) = Spec.compare_exchange_if (off k)
  spec_of (fetch_add w count) = Spec.fetch_add (off k)
  spec_of (load_if_ne w expect_not offset) = Spec.load_if_ne (off k)
  spec_of (fetch_add_at w offset count) = Spec.fetch_add_at (off k)
  spec_of (store_if w expect new side side_new) = Spec.store_if (off k)

  abbrev pub view_of : Operation k → Attempt → Result
  view_of (fetch_add w count) = sum_of
  view_of (fetch_add_at w offset count) = sum_of
  view_of o = result_of

  pub operation-IsSection :
      (c : Call) (arch : Arch) (o : Operation k)
      → IsSetUp arch c
      → IsSection c.kernel c.desc (block_of arch o) (spec_of o)
  operation-IsSection c arch (compare_exchange w expect new) up =
      CompareExchange.compare_exchange-IsSection c arch up (off k)
  operation-IsSection c arch (compare_exchange_if w expect new o other_expect) up =
      CompareExchange.compare_exchange_if-IsSection c arch up (off k)
  operation-IsSection c arch (fetch_add w count) up = FetchAdd.fetch_add-IsSection c arch up (off k)
  operation-IsSection c arch (load_if_ne w expect_not offset) up =
      Chase.load_if_ne-IsSection c arch up (off k)
  operation-IsSection c arch (fetch_add_at w offset count) up =
      Chase.fetch_add_at-IsSection c arch up (off k)
  operation-IsSection c arch (store_if w expect new side side_new) up =
      StoreIf.store_if-IsSection c arch up (off k)

  module _ (arch : Arch) (c : Call) (t : Thread) where
    pub operation-same :
        (o : Operation k)
        → IsU32 (word_of o).key
        → (m : Mem) (a : Area)
        → ((spec_of o (inputs (operands_of c t o)) m a).0 ≡ (promised o m a).0)
          × (view_of o (spec_of o (inputs (operands_of c t o)) m a).1 ≡ (promised o m a).1)
    operation-same (compare_exchange w expect new) small m a =
        CompareExchange.compare_exchange-same arch c t w expect new (record { mem = m; area = a })
          small m a
    operation-same (compare_exchange_if w expect new o other_expect) small m a =
        CompareExchange.compare_exchange_if-same arch c t w expect new o other_expect
          (record { mem = m; area = a }) small m a
    operation-same (fetch_add w count) small m a =
        FetchAdd.fetch_add-same arch c t w count (record { mem = m; area = a }) small m a
    operation-same (load_if_ne w expect_not offset) small m a =
        Chase.load_if_ne-same arch c t w expect_not offset (record { mem = m; area = a }) small m a
    operation-same (fetch_add_at w offset count) small m a =
        Chase.fetch_add_at-same arch c t w offset count (record { mem = m; area = a }) small m a
    operation-same (store_if w expect new side side_new) small m a =
        StoreIf.store_if-same arch c t w expect new side side_new (record { mem = m; area = a })
          small m a

    pub operation-Scratch :
        (o : Operation k) (m m' : Mem)
        → Scratch (block_of arch o) (inputs (operands_of c t o)) m m'
        → Leftover o m m'
    operation-Scratch (compare_exchange w expect new) =
        no-Scratch (Cs.compare_exchange_block arch (off k))
          (CompareExchange.compare_exchange-scratch arch (off k))
          (inputs (operands_of c t (compare_exchange w expect new)))
    operation-Scratch (compare_exchange_if w expect new o other_expect) =
        no-Scratch (Cs.compare_exchange_if_block arch (off k))
          (CompareExchange.compare_exchange_if-scratch arch (off k))
          (inputs (operands_of c t (compare_exchange_if w expect new o other_expect)))
    operation-Scratch (fetch_add w count) =
        no-Scratch (Cs.fetch_add_block arch (off k)) (FetchAdd.fetch_add-scratch arch (off k))
          (inputs (operands_of c t (fetch_add w count)))
    operation-Scratch (load_if_ne w expect_not offset) =
        no-Scratch (Cs.load_if_ne_block arch (off k)) (Chase.load_if_ne-scratch arch (off k))
          (inputs (operands_of c t (load_if_ne w expect_not offset)))
    operation-Scratch (fetch_add_at w offset count) =
        no-Scratch (Cs.fetch_add_at_block arch (off k)) (Chase.fetch_add_at-scratch arch (off k))
          (inputs (operands_of c t (fetch_add_at w offset count)))
    operation-Scratch (store_if w expect new side side_new) =
        StoreIf.side-Scratch (Cs.store_if_block arch (off k))
          (inputs (operands_of c t (store_if w expect new side side_new))) side side_new refl refl

    -- With two words of one key where there are two, an operation is its block with its operands.
    pub perform-enter :
        (o : Operation k) (s : World)
        → IsPaired o
        → perform (linux arch) c t o s
          ≡ with_result (view_of o) (enter c (block_of arch o) (operands_of c t o) s)
    unfolding perform Ops.compare_exchange Ops.compare_exchange_if Ops.fetch_add Ops.load_if_ne
        Ops.fetch_add_at Ops.store_if Cs.compare_exchange Cs.compare_exchange_if Cs.fetch_add
        Cs.load_if_ne Cs.fetch_add_at Cs.store_if
    perform-enter (compare_exchange w expect new) s paired =
        ap (with_result (view_of (compare_exchange w expect new))) (
          dispatch
            (λ at.
              enter c (Cs.compare_exchange_block arch at)
                (operands_of c t (compare_exchange w expect new)) s)
            k)
    perform-enter (compare_exchange_if w expect new o other_expect) s paired =
        rw (paired, ==-self w.key)
          (ap (with_result (view_of (compare_exchange_if w expect new o other_expect))) (
            dispatch
              (λ at.
                enter c (Cs.compare_exchange_if_block arch at)
                  (operands_of c t (compare_exchange_if w expect new o other_expect)) s)
              k))
    perform-enter (fetch_add w count) s paired = ap (with_result (view_of (fetch_add w count))) (
        dispatch
          (λ at. enter c (Cs.fetch_add_block arch at) (operands_of c t (fetch_add w count)) s) k)
    perform-enter (load_if_ne w expect_not offset) s paired =
        ap (with_result (view_of (load_if_ne w expect_not offset))) (
          dispatch
            (λ at.
              enter c (Cs.load_if_ne_block arch at)
                (operands_of c t (load_if_ne w expect_not offset)) s)
            k)
    perform-enter (fetch_add_at w offset count) s paired =
        ap (with_result (view_of (fetch_add_at w offset count))) (
          dispatch
            (λ at.
              enter c (Cs.fetch_add_at_block arch at)
                (operands_of c t (fetch_add_at w offset count)) s)
            k)
    perform-enter (store_if w expect new side side_new) s paired =
        rw (paired, ==-self w.key)
          (ap (with_result (view_of (store_if w expect new side side_new))) (
            dispatch
              (λ at.
                enter c (Cs.store_if_block arch at)
                  (operands_of c t (store_if w expect new side side_new)) s)
              k))
