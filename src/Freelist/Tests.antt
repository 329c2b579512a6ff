-- ===== src/Freelist/Tests.antt =====
-- The stacks of benches/freelist.rs with two CPUs and eight nodes: node 5 is pushed where node 3 stands, by a
-- thread that is interrupted.
use rseq_rs.Base.{ℕ, no_more, and_then, ◌≡◌, refl, zero, suc, some, inl, List, [], ◌∷◌, arith}
use rseq_rs.Machine.{Mem, write}
use rseq_rs.Kernel.{Event, tick, preempt}
use rseq_rs.Cs.{x86_64, aarch64, linux, World}
use rseq_rs.Region as Regions
use rseq_rs.Region.{mapped}
use rseq_rs.Words as Slots
use rseq_rs.Words.{Words}
use rseq_rs.Thread as Ops
use rseq_rs.Thread.{cpu_id}
use rseq_rs.Thread.Fixture.{on_cpu, call, handle, set_up}
use rseq_rs.Freelist as Free
use rseq_rs.Freelist.{Nodes, next_at, returned, push, pop}
use rseq_rs.Freelist.Bounded as Bounded
use rseq_rs.Freelist.Bounded.{IsBounded, write-lt, write-IsBounded}
use rseq_rs.Freelist.InBounds.{InBounds, pop-InBounds}
use rseq_rs.Freelist.Pop.{pop-push}
use rseq_rs.Counter as Counters
use rseq_rs.Cs as Sections
use rseq_rs.Kernel as Kernels
use rseq_rs.Machine
use rseq_rs.Freelist.Chain.{Chain, done, link, slot, Apart, AreStacksWithout}
use rseq_rs.Thread.Rely.{none_left, by_tick, by_others}
use rseq_rs.Freelist.Push.{Schedule, ended, turn, Stacked, push-Stacked}

abbrev words : Words
words = record { region = mapped 0x1000 4096; cpus = 2 }

abbrev nodes : Nodes
nodes = record { next = 0x4000; len = 8 }

-- CPU 0 has no node, CPU 1 has node 3.
abbrev mem : Mem
mem = write (λ a. 0) 0x1008 3

abbrev on_one : World
on_one = record { mem = mem; area = on_cpu 1 }

apart : Apart words nodes
unfolding Regions.base
apart = inl (omega arith)

three : Chain nodes mem 3 (3 ∷ [])
three = link (omega arith) (omega arith) done

top_of_one : mem (slot words 1) ≡ 3
unfolding Regions.base
top_of_one = refl

-- Node 3, as the slot of CPU 1 leads to it.
own : Chain nodes mem (mem (slot words 1)) (3 ∷ [])
unfolding Regions.base
own = three

without_five : AreStacksWithout 5 words nodes mem
unfolding Regions.base
without_five zero h = ([], done, no_more)
without_five (suc zero) h = (3 ∷ [], three, and_then (omega arith) no_more)
without_five (suc (suc n)) h = absurd (omega (arith, h))

abbrev interrupted : List Event
interrupted = tick ∷ tick ∷ tick ∷ tick ∷ tick ∷ tick ∷ tick ∷ preempt (λ m. m) (on_cpu 1) ∷ []

schedule : Schedule words nodes 5 aarch64 (call aarch64 interrupted ∷ [])
schedule =
    turn (set_up aarch64 interrupted)
      (by_tick (
        by_tick (
          by_tick (
            by_tick (
              by_tick (
                by_tick
                  (by_tick (by_others (λ m stacks. stacks) (λ m stacks. stacks) none_left))))))))
      ended

push-Stacked_example :
    Stacked words nodes 5
      (push (linux aarch64) handle words nodes 5 (call aarch64 interrupted ∷ []) on_one)
push-Stacked_example =
    push-Stacked aarch64 handle words nodes 5 (omega arith) apart (omega arith) (omega arith)
      schedule on_one without_five

on_one_id : cpu_id on_one.area ≡ some 1
unfolding cpu_id Ops.cpu_id_new
on_one_id = refl

pop-push_example :
    (s₁ : World) × (s₂ : World) × (push
        (linux x86_64)
        handle
        words
        nodes
        5
        (call x86_64 [] ∷ call x86_64 [] ∷ call x86_64 [] ∷ [])
        on_one
      ≡ returned s₁ (call x86_64 [] ∷ call x86_64 [] ∷ []))
    × (pop (linux x86_64) handle words nodes 1 (call x86_64 [] ∷ call x86_64 [] ∷ []) s₁
        ≡ Free.returned s₂ 5 [])
    × Chain nodes s₂.mem (s₂.mem (slot words 1)) (3 ∷ [])
pop-push_example =
    pop-push x86_64 handle words nodes 5 (omega arith) apart (omega arith) (omega arith)
      (omega arith) (call x86_64 []) (call x86_64 []) (call x86_64 []) [] on_one 1 0
      (set_up x86_64 []) (set_up x86_64 []) (set_up x86_64 []) refl refl refl on_one_id
      (omega arith) (3 ∷ []) own (and_then (omega arith) no_more)

-- CPU 1 has the nodes 3 and 5.
abbrev two_nodes : World
two_nodes = record { mem = write mem 0x4018 5; area = on_cpu 1 }

-- Other threads of the CPU pop 3, pop 5, and push 3 back.
abbrev taken : Mem → Mem
taken m = write (write m 0x4018 0) 0x1008 3

abbrev aba : List Event
aba = preempt taken (on_cpu 1) ∷ []

abbrev five_on_top : World
five_on_top = record {
  mem = write (taken (write (write mem 0x4018 5) 0x1008 3)) 0x1008 5;
  area = record (on_cpu 1) { rseq_cs = 0x1000 };
}

-- The compare finds 3 again, and puts 5, which another thread holds, on the stack.
pop-taken :
    pop (linux x86_64) handle words nodes 1 (call x86_64 [] ∷ call x86_64 aba ∷ []) two_nodes
    ≡ Free.returned five_on_top 3 []
unfolding pop Free.cas Counters.add Ops.fetch_add Ops.compare_exchange Sections.fetch_add
    Sections.compare_exchange Sections.enter Kernels.call Machine.attempt Ops.cpu_id Ops.cpu_id_new
    Regions.base Slots.get Regions.word
pop-taken = refl

in_bounds : IsBounded words nodes two_nodes.mem
in_bounds =
    let all = λ (a : ℕ).
      write-lt mem 0x4018 a 5 8 (omega arith)
        (write-lt (λ b. 0) 0x1008 a 3 8 (omega arith) (omega arith)) in
    record { heads = λ key h. all (slot words key); links = λ node h. all (next_at nodes node) }

taken_keeps : (m : Mem) → IsBounded words nodes m → IsBounded words nodes (taken m)
taken_keeps m old =
    write-IsBounded words nodes (write m 0x4018 0) 0x1008 3 (omega arith)
      (write-IsBounded words nodes m 0x4018 0 (omega arith) old)

calls : Bounded.Schedule words nodes x86_64 (call x86_64 [] ∷ call x86_64 aba ∷ [])
calls =
    Bounded.turn (set_up x86_64 []) none_left
      (Bounded.turn (set_up x86_64 aba) (by_others taken_keeps taken_keeps none_left) Bounded.ended)

pop-InBounds_example :
    InBounds x86_64 handle words nodes
      (omega arith)
      (omega arith)
      (pop (linux x86_64) handle words nodes 1 (call x86_64 [] ∷ call x86_64 aba ∷ []) two_nodes)
pop-InBounds_example =
    pop-InBounds x86_64 handle words nodes (omega arith) (omega arith) 1
      (call x86_64 [] ∷ call x86_64 aba ∷ []) calls two_nodes in_bounds
