-- ===== src/Thread/Operation.antt =====
-- The six word operations of src/thread.rs as one type, and one promise for all of them.
use rseq_rs.Base.{ℕ, ◌≡◌, Option, IsU32}
use rseq_rs.Abi.{Area}
use rseq_rs.Machine.{Mem}
use rseq_rs.Cs.{Arch, Target, linux, World, Call}
use rseq_rs.Thread as Ops
use rseq_rs.Thread.{Kind, Word, Thread, Result}
use rseq_rs.Thread.Promise
use rseq_rs.Thread.Promise.{Untouched, SideStored}
use rseq_rs.Thread.Lift.{IsSetUp, TakesEffect}
use rseq_rs.Thread.CompareExchange.{compare_exchange-TakesEffect, compare_exchange_if-TakesEffect}
use rseq_rs.Thread.StoreIf.{store_if-TakesEffect}
use rseq_rs.Thread.FetchAdd.{fetch_add-TakesEffect}
use rseq_rs.Thread.Chase.{load_if_ne-TakesEffect, fetch_add_at-TakesEffect}

pub data Operation (k : Kind) : Type 0 where
  compare_exchange : Word k → (expect new : ℕ) → Operation k
  compare_exchange_if : Word k → (expect new : ℕ) → Word k → (other_expect : ℕ) → Operation k
  fetch_add : Word k → (count : ℕ) → Operation k
  load_if_ne : Word k → (expect_not offset : ℕ) → Operation k
  fetch_add_at : Word k → (offset count : ℕ) → Operation k
  store_if : Word k → (expect new : ℕ) → Word k → (side_new : ℕ) → Operation k

module _ {k : Kind} where
  -- The call of the operation.
  unfoldable pub perform : Target → Call → Thread → Operation k → World → Option (World × Result)
  perform target c t (compare_exchange w expect new) = Ops.compare_exchange target c t w expect new
  perform target c t (compare_exchange_if w expect new o other_expect) =
      Ops.compare_exchange_if target c t w expect new o other_expect
  perform target c t (fetch_add w count) = Ops.fetch_add target c t w count
  perform target c t (load_if_ne w expect_not offset) =
      Ops.load_if_ne target c t w expect_not offset
  perform target c t (fetch_add_at w offset count) = Ops.fetch_add_at target c t w offset count
  perform target c t (store_if w expect new side side_new) =
      Ops.store_if target c t w expect new side side_new

  abbrev pub promised : Operation k → Mem → Area → Mem × Result
  promised (compare_exchange w expect new) = Promise.compare_exchange w expect new
  promised (compare_exchange_if w expect new o other_expect) =
      Promise.compare_exchange_if w expect new o other_expect
  promised (fetch_add w count) = Promise.fetch_add w count
  promised (load_if_ne w expect_not offset) = Promise.load_if_ne w expect_not offset
  promised (fetch_add_at w offset count) = Promise.fetch_add_at w offset count
  promised (store_if w expect new side side_new) = Promise.store_if w expect new side side_new

  abbrev pub Leftover : Operation k → Mem → Mem → Type 0
  Leftover (store_if w expect new side side_new) = SideStored side side_new
  Leftover o = Untouched

  abbrev pub word_of : Operation k → Word k
  word_of (compare_exchange w expect new) = w
  word_of (compare_exchange_if w expect new o other_expect) = w
  word_of (fetch_add w count) = w
  word_of (load_if_ne w expect_not offset) = w
  word_of (fetch_add_at w offset count) = w
  word_of (store_if w expect new side side_new) = w

  -- The second word, where there is one, has the key of the first.
  abbrev pub IsPaired : Operation k → Type 0
  IsPaired (compare_exchange_if w expect new o other_expect) = o.key ≡ w.key
  IsPaired (store_if w expect new side side_new) = side.key ≡ w.key
  IsPaired o = (word_of o).key ≡ (word_of o).key

  -- On either architecture, with the area registered, for a key that is a u32 and two words of one key
  -- where there are two, and whatever interrupts the call: every operation returns, and all that it
  -- does is what its documentation promises, at one instant, but for the store of `store_if` to `side`,
  -- which attempts that were given up may leave behind.
  pub perform-TakesEffect :
      (arch : Arch) (c : Call) (t : Thread) (o : Operation k) (s : World)
      → IsSetUp arch c
      → IsU32 (word_of o).key
      → IsPaired o
      → TakesEffect c (promised o) (Leftover o) s (perform (linux arch) c t o s)
  unfolding perform
  perform-TakesEffect arch c t (compare_exchange w expect new) s up small paired =
      compare_exchange-TakesEffect arch c t w expect new s up small
  perform-TakesEffect arch c t (compare_exchange_if w expect new o other_expect) s up small paired =
      compare_exchange_if-TakesEffect arch c t w expect new o other_expect s up small paired
  perform-TakesEffect arch c t (fetch_add w count) s up small paired =
      fetch_add-TakesEffect arch c t w count s up small
  perform-TakesEffect arch c t (load_if_ne w expect_not offset) s up small paired =
      load_if_ne-TakesEffect arch c t w expect_not offset s up small
  perform-TakesEffect arch c t (fetch_add_at w offset count) s up small paired =
      fetch_add_at-TakesEffect arch c t w offset count s up small
  perform-TakesEffect arch c t (store_if w expect new side side_new) s up small paired =
      store_if-TakesEffect arch c t w expect new side side_new s up small paired
