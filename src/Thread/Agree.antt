-- ===== src/Thread/Agree.antt =====
-- What a call of src/thread.rs does that nothing interrupts, on each target.
use mathlib.Core.Option
use mathlib.Core.Path.{subst}
use rseq_rs.Base.{◌≡◌, refl, sym, ap, ◌∙◌, ◌==◌, inl, inr, some, Option, Bool-cases, IsU32, []}
use rseq_rs.Abi.{Area}
use rseq_rs.Machine.{Mem}
use rseq_rs.Section.Linearized.{Linearized, now}
use rseq_rs.Cs
use rseq_rs.Cs.{Arch, x86_64, aarch64, linux, other, World, Call}
use rseq_rs.Thread as Ops
use rseq_rs.Thread.{
  Kind, cpu_kind, cid_kind, with_result, result_of, Word, Thread, Error, miss, abort, Result, ok,
  err,
}
use rseq_rs.Attempt.{Attempt}
use rseq_rs.Thread.Lift.{dispatch, IsSetUp}
use rseq_rs.Thread.Operation.{
  Operation, compare_exchange, compare_exchange_if, fetch_add, load_if_ne, fetch_add_at, store_if,
  perform, promised, Leftover, word_of, IsPaired, perform-TakesEffect,
}

-- The words and the result.
abbrev pub observe : Option (World × Result) → Option (Mem × Result)
observe = Option.map (λ (p : World × Result). (p.0.mem, p.1))

pub undisturbed-Linearized :
    {promise : Mem → Area → Mem × Result} {scratch : Mem → Mem → Type 0} {m' : Mem} {r : Result}
    {m : Mem} {a : Area}
    → Linearized promise scratch m' r [] m a
    → (m', r) ≡ promise m a
undisturbed-Linearized (now p q) = rw (p, q) refl

module _ {k : Kind} (arch : Arch) (c : Call) (t : Thread) (o : Operation k) (s : World)
    (up : IsSetUp arch c) (small : IsU32 (word_of o).key) (paired : IsPaired o) where
  -- With the area registered, the key a u32 and a second word, if any, of the same key: a call that
  -- nothing interrupts does what is promised, once and at once, in the words and the area that it
  -- finds.
  pub perform-undisturbed :
      c.events ≡ [] → observe (perform (linux arch) c t o s) ≡ some (promised o s.mem s.area)
  perform-undisturbed quiet =
      let effect = perform-TakesEffect arch c t o s up small paired in
      let back = effect.returns in
      rw back (
        ap some (
          undisturbed-Linearized (
            subst
              (λ es.
                Linearized (promised o) (Leftover o) effect.world.mem effect.result es s.mem s.area)
              quiet effect.linear)))

module _ {k : Kind} (c c' : Call) (t : Thread) (o : Operation k) (s : World) where
  -- With the area registered, the key a u32 and a second word, if any, of the same key: nothing
  -- interrupting, the blocks of src/x86_64.rs and of src/aarch64.rs leave the same words and give
  -- the same result.
  pub arches-agree :
      IsSetUp x86_64 c
      → IsSetUp aarch64 c'
      → IsU32 (word_of o).key
      → IsPaired o
      → c.events ≡ []
      → c'.events ≡ []
      → observe (perform (linux x86_64) c t o s) ≡ observe (perform (linux aarch64) c' t o s)
  arches-agree up up' small paired quiet quiet' =
      perform-undisturbed x86_64 c t o s up small paired quiet
      ∙ sym (perform-undisturbed aarch64 c' t o s up' small paired quiet')

-- For a target that has no block, every operation gives up and leaves the words and the area as they
-- were.
pub perform-unsupported :
    {k : Kind} (c : Call) (t : Thread) (o : Operation k) (s : World)
    → perform other c t o s ≡ some (s, err abort)
unfolding perform Ops.compare_exchange Ops.compare_exchange_if Ops.fetch_add Ops.load_if_ne
    Ops.fetch_add_at Ops.store_if Cs.compare_exchange Cs.compare_exchange_if Cs.fetch_add
    Cs.load_if_ne Cs.fetch_add_at Cs.store_if
perform-unsupported {k = cpu_kind} c t (compare_exchange w expect new) s = refl
perform-unsupported {k = cid_kind} c t (compare_exchange w expect new) s = refl
perform-unsupported {k = k} c t (compare_exchange_if w expect new o other_expect) s =
    elim (Bool-cases (o.key == w.key)) [
      | inl same ↦ rw same (ap (with_result result_of) (dispatch (λ at. some (s, Attempt.abort)) k))
      | inr differs ↦ rw differs refl
    ]
perform-unsupported {k = cpu_kind} c t (fetch_add w count) s = refl
perform-unsupported {k = cid_kind} c t (fetch_add w count) s = refl
perform-unsupported {k = cpu_kind} c t (load_if_ne w expect_not offset) s = refl
perform-unsupported {k = cid_kind} c t (load_if_ne w expect_not offset) s = refl
perform-unsupported {k = cpu_kind} c t (fetch_add_at w offset count) s = refl
perform-unsupported {k = cid_kind} c t (fetch_add_at w offset count) s = refl
perform-unsupported {k = k} c t (store_if w expect new side side_new) s =
    elim (Bool-cases (side.key == w.key)) [
      | inl same ↦ rw same (ap (with_result result_of) (dispatch (λ at. some (s, Attempt.abort)) k))
      | inr differs ↦ rw differs refl
    ]
