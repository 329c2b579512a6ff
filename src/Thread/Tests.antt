-- ===== src/Thread/Tests.antt =====
-- Runs of the operations of src/thread.rs, and the theorems applied to them.
use rseq_rs.Base.{◌-◌, ◌^◌, ◌≡◌, refl, true, Option, none, some, List, [], ◌∷◌, arith}
use rseq_rs.Abi.{cpu_uninit, sig_x86_64}
use rseq_rs.Machine.{State, Mem, Reg, write}
use rseq_rs.Machine
use rseq_rs.Kernel as Kernels
use rseq_rs.Kernel.{Kernel, Cs, in_cs, Event, tick, preempt}
use rseq_rs.Cs as Sections
use rseq_rs.Cs.{Arch, x86_64, aarch64, linux, other, World, Call}
use rseq_rs.Thread as Ops
use rseq_rs.Thread.{Kind, cpu_kind, cid_kind, Word, Thread, Result, ok, err, miss, abort}
use rseq_rs.Thread.{cpu, CInt, nonneg, prepare_unload}
use rseq_rs.Thread.Reads.{interrupt-prepare_unload}
use rseq_rs.X86_64
use rseq_rs.Thread.Fixture.{linux_kernel, on_cpu, call, handle, set_up}
use rseq_rs.Thread.Promise
use rseq_rs.Thread.Promise.{Untouched, SideStored}
use rseq_rs.Thread.Lift.{TakesEffect}
use rseq_rs.Thread.Operation.{Operation, compare_exchange, fetch_add, load_if_ne, store_if, perform}
use rseq_rs.Thread.CompareExchange.{compare_exchange-TakesEffect, compare_exchange_if-TakesEffect}
use rseq_rs.Thread.StoreIf.{store_if-TakesEffect}
use rseq_rs.Thread.FetchAdd.{fetch_add-TakesEffect}
use rseq_rs.Thread.Chase.{load_if_ne-TakesEffect, fetch_add_at-TakesEffect}
use rseq_rs.Thread.Outcome.{AtOnce, perform-Tells, perform-err}
use rseq_rs.Thread.Tells.{Tells}
use rseq_rs.Thread.Agree.{observe, arches-agree}

-- The words of the CPUs 0, 1, … stand at 0x100, 0x108, …, and word 2 holds 5.
abbrev words : Mem
words = write (write (λ a. 0) 0x110 5) 0x400 0x500

abbrev on_two : World
on_two = record { mem = words; area = on_cpu 2 }

abbrev word_two : Word cpu_kind
word_two = record { word = 0x110; key = 2 }

abbrev side_two : Word cpu_kind
side_two = record { word = 0x118; key = 2 }

abbrev cid_side : Word cid_kind
cid_side = record { word = 0x118; key = 2 }

abbrev cid_two : Word cid_kind
cid_two = record { word = 0x110; key = 2 }

-- Interrupted after six lines, when others have written 9 to word 2, with the index unchanged.
abbrev disturbed : List Event
disturbed = tick ∷ tick ∷ tick ∷ tick ∷ tick ∷ tick ∷ preempt (λ m. write m 0x110 9) (on_cpu 2) ∷ []

abbrev migrated : List Event
migrated = tick ∷ tick ∷ tick ∷ tick ∷ tick ∷ tick ∷ preempt (λ m. m) (on_cpu 3) ∷ []

-- Interrupted after the twelve lines up to the store to `side`, when others have written 9 to word 2.
abbrev late : List Event
late =
    tick
    ∷ tick
    ∷ tick
    ∷ tick
    ∷ tick
    ∷ tick
    ∷ tick
    ∷ tick
    ∷ tick
    ∷ tick
    ∷ tick
    ∷ tick
    ∷ preempt (λ m. write m 0x110 9) (on_cpu 2)
    ∷ []

abbrev result_in : Option (World × Result) → Option Result
result_in none = none
result_in (some (s, r)) = some r

abbrev words_in : Option (World × Result) → Mem
words_in none = λ a. 0
words_in (some (s, r)) = s.mem

module _ {k : Kind} (arch : Arch) (events : List Event) where
  try : Operation k → World → Option (World × Result)
  unfolding perform Ops.compare_exchange Ops.compare_exchange_if Ops.fetch_add Ops.load_if_ne
      Ops.fetch_add_at Ops.store_if Sections.compare_exchange Sections.compare_exchange_if
      Sections.fetch_add Sections.load_if_ne Sections.fetch_add_at Sections.store_if Sections.enter
      Kernels.call Machine.attempt
  try o s = perform (linux arch) (call arch events) handle o s

cas-runs :
    (result_in (try x86_64 [] (compare_exchange word_two 5 7) on_two) ≡ some (ok 5))
    × (result_in (try aarch64 [] (compare_exchange word_two 4 7) on_two) ≡ some (err (miss 5)))
    × (result_in (try x86_64 disturbed (compare_exchange word_two 5 7) on_two)
        ≡ some (err (miss 9)))
    × (result_in (try aarch64 migrated (compare_exchange cid_two 5 7) on_two) ≡ some (err abort))
unfolding try
cas-runs = (refl, refl, refl, refl)

add-runs :
    (result_in (try x86_64 disturbed (fetch_add word_two 3) on_two) ≡ some (ok 9))
    × (words_in (try x86_64 disturbed (fetch_add word_two 3) on_two) 0x110 ≡ 12)
    × (words_in (try aarch64 [] (fetch_add cid_two (2 ^ 64 - 5)) on_two) 0x110 ≡ 0)
unfolding try
add-runs = (refl, refl, refl)

-- `side` was stored, the thread was preempted, and the word had changed when it tried again: a `Miss`
-- with `side` written.
store_if-miss_with_side :
    let run = try x86_64 late (store_if word_two 5 7 side_two 1) on_two in
    (result_in run ≡ some (err (miss 9))) × (words 0x118 ≡ 0) × (words_in run 0x118 ≡ 1)
unfolding try
store_if-miss_with_side = (refl, refl, refl)

compare_exchange-TakesEffect_example :
    TakesEffect
      (call x86_64 disturbed)
      (Promise.compare_exchange word_two 5 7)
      Untouched
      on_two
      (Ops.compare_exchange (linux x86_64) (call x86_64 disturbed) handle word_two 5 7 on_two)
compare_exchange-TakesEffect_example =
    compare_exchange-TakesEffect x86_64 (call x86_64 disturbed) handle word_two 5 7 on_two
      (set_up x86_64 disturbed) (omega arith)

compare_exchange_if-TakesEffect_example :
    TakesEffect
      (call aarch64 disturbed)
      (Promise.compare_exchange_if cid_two 9 7 cid_side 0)
      Untouched
      on_two
      (Ops.compare_exchange_if
        (linux aarch64)
        (call aarch64 disturbed)
        handle
        cid_two
        9
        7
        cid_side
        0
        on_two)
compare_exchange_if-TakesEffect_example =
    compare_exchange_if-TakesEffect aarch64 (call aarch64 disturbed) handle cid_two 9 7 cid_side 0
      on_two (set_up aarch64 disturbed) (omega arith) refl

store_if-TakesEffect_example :
    TakesEffect
      (call x86_64 late)
      (Promise.store_if word_two 5 7 side_two 1)
      (SideStored side_two 1)
      on_two
      (Ops.store_if (linux x86_64) (call x86_64 late) handle word_two 5 7 side_two 1 on_two)
store_if-TakesEffect_example =
    store_if-TakesEffect x86_64 (call x86_64 late) handle word_two 5 7 side_two 1 on_two
      (set_up x86_64 late) (omega arith) refl

fetch_add-TakesEffect_example :
    TakesEffect
      (call aarch64 migrated)
      (Promise.fetch_add word_two 3)
      Untouched
      on_two
      (Ops.fetch_add (linux aarch64) (call aarch64 migrated) handle word_two 3 on_two)
fetch_add-TakesEffect_example =
    fetch_add-TakesEffect aarch64 (call aarch64 migrated) handle word_two 3 on_two
      (set_up aarch64 migrated) (omega arith)

load_if_ne-TakesEffect_example :
    TakesEffect
      (call x86_64 disturbed)
      (Promise.load_if_ne word_two 0 8)
      Untouched
      on_two
      (Ops.load_if_ne (linux x86_64) (call x86_64 disturbed) handle word_two 0 8 on_two)
load_if_ne-TakesEffect_example =
    load_if_ne-TakesEffect x86_64 (call x86_64 disturbed) handle word_two 0 8 on_two
      (set_up x86_64 disturbed) (omega arith)

fetch_add_at-TakesEffect_example :
    TakesEffect
      (call aarch64 disturbed)
      (Promise.fetch_add_at cid_two 8 1)
      Untouched
      on_two
      (Ops.fetch_add_at (linux aarch64) (call aarch64 disturbed) handle cid_two 8 1 on_two)
fetch_add_at-TakesEffect_example =
    fetch_add_at-TakesEffect aarch64 (call aarch64 disturbed) handle cid_two 8 1 on_two
      (set_up aarch64 disturbed) (omega arith)

-- The world that the missing compare of `cas-runs` leaves.
abbrev missed : World
missed = record { mem = write words 0x110 9; area = record (on_cpu 2) { rseq_cs = 0x1000 } }

cas-misses :
    perform (linux x86_64) (call x86_64 disturbed) handle (compare_exchange word_two 5 7) on_two
    ≡ some (missed, err (miss 9))
unfolding perform Ops.compare_exchange Sections.compare_exchange Sections.enter Kernels.call
    Machine.attempt
cas-misses = refl

perform-Tells_example :
    AtOnce Untouched
      (Tells (compare_exchange word_two 5 7))
      (err (miss 9))
      disturbed
      on_two.mem
      on_two.area
perform-Tells_example =
    perform-Tells x86_64 (call x86_64 disturbed) handle (compare_exchange word_two 5 7) on_two
      (set_up x86_64 disturbed) (omega arith) refl missed (err (miss 9)) cas-misses

perform-err_example : missed.mem ≡ write words 0x110 9
perform-err_example =
    perform-err x86_64 (call x86_64 disturbed) handle (compare_exchange word_two 5 7) on_two
      (set_up x86_64 disturbed) (omega arith) refl refl missed (miss 9) cas-misses

arches-agree_example :
    observe (perform (linux x86_64) (call x86_64 []) handle (load_if_ne word_two 0 8) on_two)
    ≡ observe (perform (linux aarch64) (call aarch64 []) handle (load_if_ne word_two 0 8) on_two)
arches-agree_example =
    arches-agree (call x86_64 []) (call aarch64 []) handle (load_if_ne word_two 0 8) on_two
      (set_up x86_64 []) (set_up aarch64 []) (omega arith) refl refl refl

-- The area is unregistered, and `sched_getcpu` gives 5.
falls_back : cpu (record (on_cpu 2) { cpu_id = cpu_uninit }) (nonneg 5) ≡ some 5
unfolding cpu Ops.cpu_id Ops.cpu_id_new Ops.fallback_cpu
falls_back = refl

-- At the store of the section of `compare_exchange`, armed.
abbrev inside : State
inside = record {
  ip = 12;
  zf = true;
  regs = λ r. 0;
  mem = words;
  area = record (on_cpu 2) { rseq_cs = 0x1000 };
}

interrupt-prepare_unload_example :
    Kernels.interrupt
      (linux_kernel sig_x86_64)
      0x1000
      (X86_64.compare_exchange 4)
      (λ m. m)
      (on_cpu 3)
      (record inside { area = prepare_unload inside.area })
    ≡ some (record inside { area = on_cpu 3 })
interrupt-prepare_unload_example =
    interrupt-prepare_unload (linux_kernel sig_x86_64) 0x1000 (X86_64.compare_exchange 4)
      (omega arith) (λ m. m) (on_cpu 3) inside
