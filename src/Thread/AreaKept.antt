-- ===== src/Thread/AreaKept.antt =====
-- What the operations of src/thread.rs leave in the area of the thread.
use rseq_rs.Base.{
  IsU32, ℕ, zero, suc, ◌≡◌, refl, ap, ◌∙◌, sym, inl, inr, none, some, List, [], ◌∷◌, get_elem?,
  length, Option-cases,
}
use rseq_rs.Abi.{Area}
use rseq_rs.Machine.{Insn, label, Block, State, Mem, exec, step, steps, attempt}
use rseq_rs.Kernel.{Kernel, Event, tick, preempt, armed, interrupt, run, finish, call}
use rseq_rs.Section.Linearized.{area_after, Linearized}
use rseq_rs.Thread.Agree.{undisturbed-Linearized}
use rseq_rs.Thread.Lift.{IsSetUp}
use mathlib.Core.Path.{subst}
use rseq_rs.Cs.{Arch, linux, World, Call, enter}
use rseq_rs.Thread.{Kind, Thread, Result, with_result}
use rseq_rs.Thread.Operation.{
  Operation, perform, IsPaired, promised, Leftover, word_of, perform-TakesEffect,
}
use rseq_rs.Thread.Sections.{perform-enter, block_of, operands_of, view_of}

-- The area but for the descriptor.
abbrev pub without_cs : Area → Area
without_cs a = record a { rseq_cs = 0 }

infix 40 ◌∼◌
abbrev pub ◌∼◌ : Area → Area → Type 0
a ∼ b = without_cs a ≡ without_cs b

module _ (desc : ℕ) (blk : Block) where
  exec-area : (i : Insn) (s : State) → (exec desc blk i s).area ∼ s.area
  unfolding exec
  exec-area (label k) s = refl
  exec-area i s = refl

  step-area : (s : State) → (step desc blk s).area ∼ s.area
  unfolding step
  step-area s = elim (Option-cases (get_elem? blk.code s.ip)) [
    | inl over ↦ rw (step, over) refl
    | inr (i, there) ↦ rw (step, there) (exec-area i s)
  ]

  steps-area : (n : ℕ) (s : State) → (steps desc blk n s).area ∼ s.area
  unfolding steps
  steps-area zero s = refl
  steps-area (suc n) s = steps-area n (step desc blk s) ∙ step-area s

  -- What counts is what the kernel has written last.
  area_after-same : (es : List Event) (a b : Area) → a ∼ b → area_after es a ∼ area_after es b
  area_after-same [] a b same = same
  area_after-same (tick ∷ es) a b same = area_after-same es a b same
  area_after-same (preempt g new ∷ es) a b same = refl

  module _ (k : Kernel) where
    interrupt-area :
        (g : Mem → Mem) (a : Area) (s t : State) → interrupt k desc blk g a s ≡ some t → t.area ≡ a
    unfolding interrupt
    interrupt-area g a s t ran = elim (Option-cases (k.resume (armed desc blk s.area) s.ip)) [
      | inl killed ↦ let gone : interrupt k desc blk g a s ≡ none = rw killed refl in absurd (cc)
      | inr (ip, there) ↦
          let u : State = record { ip = ip; zf = s.zf; regs = s.regs; mem = g s.mem; area = a } in
          let back : interrupt k desc blk g a s ≡ some u = rw there refl in
          let same : u ≡ t = cc in ap (λ (x : State). x.area) (sym same)
    ]

    run-area :
        (es : List Event) (s t : State)
        → run k desc blk es s ≡ some t
        → t.area ∼ area_after es s.area
    unfolding run
    run-area [] s t ran = let same : s ≡ t = cc in ap (λ (x : State). without_cs x.area) (sym same)
    run-area (tick ∷ es) s t ran =
        run-area es (step desc blk s) t ran
        ∙ area_after-same es (step desc blk s).area s.area (step-area s)
    run-area (preempt g a ∷ es) s t ran = elim (Option-cases (interrupt k desc blk g a s)) [
      | inl killed ↦
          let gone : run k desc blk (preempt g a ∷ es) s ≡ none = rw (run, killed) refl in
          absurd (cc)
      | inr (u, there) ↦
          let rest : run k desc blk (preempt g a ∷ es) s ≡ run k desc blk es u =
            rw (run, there) refl in
          run-area es u t (sym rest ∙ ran)
          ∙ ap (λ a. without_cs (area_after es a)) (interrupt-area g a s u there)
    ]

    call-area :
        (es : List Event) (s t : State)
        → call k desc blk es s ≡ some t
        → t.area ∼ area_after es s.area
    unfolding call finish
    call-area es s t ran = elim (Option-cases (run k desc blk es s)) [
      | inl killed ↦ let gone : call k desc blk es s ≡ none = rw killed refl in absurd (cc)
      | inr (u, there) ↦
          let back : call k desc blk es s ≡ some (finish desc blk u) = rw there refl in
          let same : finish desc blk u ≡ t = cc in
          ap (λ (x : State). without_cs x.area) (sym same)
          ∙ (steps-area (length blk.code) u ∙ run-area es s u there)
    ]

module _ {k : Kind} (arch : Arch) (c : Call) (t : Thread) (o : Operation k) (s s' : World)
    (r : Result) where
  -- For a target with critical sections, and two words of one key where the operation takes two: whatever
  -- interrupts an operation, when it returns every field of the thread's area but `rseq_cs` is what the
  -- kernel wrote there last, and what it was before the call where the kernel wrote nothing.
  pub perform-area :
      IsPaired o
      → perform (linux arch) c t o s ≡ some (s', r)
      → s'.area ∼ area_after c.events s.area
  unfolding enter
  perform-area paired ran =
      let blk = block_of arch o in
      let begun : State = record {
        ip = 0;
        zf = c.zf;
        regs = operands_of c t o;
        mem = s.mem;
        area = s.area;
      } in
      let whole = perform-enter arch c t o s paired in
      elim (Option-cases (call c.kernel c.desc blk c.events begun)) [
        | inl killed ↦
            let gone : with_result (view_of o) (enter c blk (operands_of c t o) s) ≡ none =
              rw killed refl in
            absurd (cc)
        | inr (u, there) ↦
            let back : with_result (view_of o) (enter c blk (operands_of c t o) s)
                ≡ some (record { mem = u.mem; area = u.area }, view_of o (attempt blk u)) =
              rw there refl in
            let same : record { mem = u.mem; area = u.area } ≡ s' = cc in
            ap (λ (x : World). without_cs x.area) (sym same)
            ∙ call-area c.desc blk c.kernel c.events begun u there
      ]

module _ {k : Kind} (arch : Arch) (c : Call) (t : Thread) (o : Operation k) (s : World) where
  -- A call that nothing interrupts.
  pub perform-quiet :
      IsSetUp arch c
      → IsU32 (word_of o).key
      → IsPaired o
      → c.events ≡ []
      → let done = promised o s.mem s.area in
        (s' : World) × (perform (linux arch) c t o s ≡ some (s', done.1))
        × (s'.mem ≡ done.0)
        × (s'.area ∼ s.area)
  perform-quiet up small paired quiet =
      let effect = perform-TakesEffect arch c t o s up small paired in
      let at_once = undisturbed-Linearized (
        subst
          (λ es.
            Linearized (promised o) (Leftover o) effect.world.mem effect.result es s.mem s.area)
          quiet effect.linear) in
      let kept = perform-area arch c t o s effect.world effect.result paired effect.returns in
      (
        effect.world,
        effect.returns ∙ ap (λ (p : Mem × Result). some (effect.world, p.1)) at_once,
        ap (λ (p : Mem × Result). p.0) at_once,
        kept ∙ ap (λ es. without_cs (area_after es s.area)) quiet,
      )
