-- ===== src/Thread.antt =====
-- src/thread.rs: the indices, the thread handle, its reads of the area, and its word operations. Every
-- operation takes the world that it runs in, and returns it as it leaves it.
pub mod Promise
pub mod Lift
pub mod CompareExchange
pub mod StoreIf
pub mod FetchAdd
pub mod Chase
pub mod Reads
pub mod Count
pub mod Rely
pub mod Operation
pub mod Sections
pub mod AreaKept
pub mod Tells
pub mod Outcome
pub mod Agree
pub mod Fixture
mod Tests
use mathlib.Core.Option
use rseq_rs.Base.{ℕ, Bool, Option, none, some, ◌>>=◌, ◌==◌, ◌||◌, not, if◌then◌else◌}
use rseq_rs.Abi.{Area, cpu_uninit, cpu_reg_failed, cpu_id_off, mm_cid_off}
use rseq_rs.Attempt.{Attempt}
use rseq_rs.Cs
use rseq_rs.Cs.{Target, World, Call}

pub data Error : Type 0 where
  miss : ℕ → Error
  abort : Error

pub data Result : Type 0 where
  ok : ℕ → Result
  err : Error → Result

-- The two types that implement `Index`, and where the area holds each.
pub data Kind : Type 0 where
  cpu_kind cid_kind : Kind

abbrev pub off : Kind → ℕ
off cpu_kind = cpu_id_off
off cid_kind = mm_cid_off

-- `Word<'a, K>` (src/words.rs): the address of an atomic, and the index that it belongs to.
pub record Word (kind : Kind) : Type 0 where
  pub word : ℕ
  pub key : ℕ

-- `CpuId::new`
unfoldable pub cpu_id_new : ℕ → Option ℕ
cpu_id_new id = if (id == cpu_uninit) || (id == cpu_reg_failed) then none else some id

-- A `c_int`; `negative n` is -(n + 1).
pub data CInt : Type 0 where
  nonneg negative : ℕ → CInt

pub record Thread : Type 0 where
  pub area : ℕ
  pub node : Bool
  pub cid : Bool
  pub slice : Bool

-- `u32::try_from`
abbrev u32_of_c_int : CInt → Option ℕ
u32_of_c_int (nonneg n) = some n
u32_of_c_int (negative n) = none

-- `got` is what `sched_getcpu` returns.
unfoldable pub fallback_cpu : CInt → Option ℕ
fallback_cpu got = u32_of_c_int got >>= cpu_id_new

-- `rc` is what `getcpu` returns, and `node` what it writes.
unfoldable pub fallback_node : CInt → ℕ → Option ℕ
fallback_node (nonneg rc) node = if rc == 0 then some node else none
fallback_node (negative rc) node = none

abbrev or_else : Option ℕ → Option ℕ → Option ℕ
or_else none b = b
or_else (some a) b = some a

-- The reads of the area that the handle points to.
unfoldable pub cpu_id : Area → Option ℕ
cpu_id a = cpu_id_new a.cpu_id

unfoldable pub cpu_id_start : Area → Option ℕ
cpu_id_start a = cpu_id_new a.cpu_id_start

unfoldable pub cpu : Area → CInt → Option ℕ
cpu a got = or_else (cpu_id a) (fallback_cpu got)

unfoldable pub node_id : Thread → Area → Option ℕ
node_id t a = if not t.node then none else some a.node_id

unfoldable pub node : Thread → Area → CInt → ℕ → Option ℕ
node t a rc got = or_else (node_id t a) (fallback_node rc got)

unfoldable pub cid : Thread → Area → Option ℕ
cid t a = if not t.cid then none else some a.mm_cid

unfoldable pub slice_ctrl : Thread → Area → Option ℕ
slice_ctrl t a = if not t.slice then none else some a.slice_ctrl

unfoldable pub prepare_unload : Area → Area
prepare_unload a = record a { rseq_cs = 0 }

-- The `match` on an attempt, of the compares and of the adds.
abbrev pub result_of : Attempt → Result
result_of (Attempt.ok old) = ok old
result_of (Attempt.miss current) = err (miss current)
result_of Attempt.abort = err abort

abbrev pub sum_of : Attempt → Result
sum_of (Attempt.ok prev) = ok prev
sum_of (Attempt.miss _) = err abort
sum_of Attempt.abort = err abort

abbrev pub with_result : (Attempt → Result) → Option (World × Attempt) → Option (World × Result)
with_result f = Option.map (λ (p : World × Attempt). (p.0, f p.1))

module _ (target : Target) (c : Call) (t : Thread) {k : Kind} where
  -- The private functions choose the offset by the kind of the index.
  cas : Word k → (expect new : ℕ) → World → Option (World × Attempt)
  cas w expect new s =
      if off k == cpu_id_off
      then Cs.compare_exchange target c cpu_id_off t.area w.word w.key expect new s
      else Cs.compare_exchange target c mm_cid_off t.area w.word w.key expect new s

  cas_if :
      Word k → (expect new : ℕ) → Word k → (other_expect : ℕ) → World → Option (World × Attempt)
  cas_if w expect new o other_expect s =
      if off k == cpu_id_off
      then Cs.compare_exchange_if target c cpu_id_off t.area w.word w.key expect new o.word
          other_expect s
      else Cs.compare_exchange_if target c mm_cid_off t.area w.word w.key expect new o.word
          other_expect s

  add : Word k → (count : ℕ) → World → Option (World × Attempt)
  add w count s =
      if off k == cpu_id_off
      then Cs.fetch_add target c cpu_id_off t.area w.word w.key count s
      else Cs.fetch_add target c mm_cid_off t.area w.word w.key count s

  load_ne : Word k → (expect_not offset : ℕ) → World → Option (World × Attempt)
  load_ne w expect_not offset s =
      if off k == cpu_id_off
      then Cs.load_if_ne target c cpu_id_off t.area w.word w.key expect_not offset s
      else Cs.load_if_ne target c mm_cid_off t.area w.word w.key expect_not offset s

  add_at : Word k → (offset count : ℕ) → World → Option (World × Attempt)
  add_at w offset count s =
      if off k == cpu_id_off
      then Cs.fetch_add_at target c cpu_id_off t.area w.word w.key offset count s
      else Cs.fetch_add_at target c mm_cid_off t.area w.word w.key offset count s

  try_store : Word k → (expect new : ℕ) → Word k → (side_new : ℕ) → World → Option (World × Attempt)
  try_store w expect new side side_new s =
      if off k == cpu_id_off
      then Cs.store_if target c cpu_id_off t.area w.word w.key expect new side.word side_new s
      else Cs.store_if target c mm_cid_off t.area w.word w.key expect new side.word side_new s

  unfoldable pub compare_exchange : Word k → (expect new : ℕ) → World → Option (World × Result)
  unfolding cas
  compare_exchange w expect new s = with_result result_of (cas w expect new s)

  unfoldable pub compare_exchange_if :
      Word k → (expect new : ℕ) → Word k → (other_expect : ℕ) → World → Option (World × Result)
  unfolding cas_if
  compare_exchange_if w expect new o other_expect s =
      if not (o.key == w.key)
      then some (s, err abort)
      else with_result result_of (cas_if w expect new o other_expect s)

  unfoldable pub fetch_add : Word k → (count : ℕ) → World → Option (World × Result)
  unfolding add
  fetch_add w count s = with_result sum_of (add w count s)

  unfoldable pub load_if_ne : Word k → (expect_not offset : ℕ) → World → Option (World × Result)
  unfolding load_ne
  load_if_ne w expect_not offset s = with_result result_of (load_ne w expect_not offset s)

  unfoldable pub fetch_add_at : Word k → (offset count : ℕ) → World → Option (World × Result)
  unfolding add_at
  fetch_add_at w offset count s = with_result sum_of (add_at w offset count s)

  unfoldable pub store_if :
      Word k → (expect new : ℕ) → Word k → (side_new : ℕ) → World → Option (World × Result)
  unfolding try_store
  store_if w expect new side side_new s =
      if not (side.key == w.key)
      then some (s, err abort)
      else with_result result_of (try_store w expect new side side_new s)
