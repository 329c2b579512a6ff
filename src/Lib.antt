-- ===== src/Lib.antt =====
-- rseq-rs: Linux restartable sequences for Rust.
--
-- A thread that has registered a `struct rseq` with the kernel (src/registration.rs, or glibc) can
-- run a critical section that the kernel restarts at its abort label when the thread is preempted,
-- migrated or signalled inside it. The crate has six such sections for each of two architectures
-- (src/x86_64.rs, src/aarch64.rs), and word operations on top of them (src/thread.rs) that act on a
-- word (src/words.rs, src/region.rs) only while the thread is on the index, a CPU or a concurrency
-- id, that the word was picked with. A process-wide handle (src/rseq.rs) finds or makes the
-- registration, and a membarrier (src/membarrier.rs) restarts the sections of other threads.
--
-- Parts:
--   * Base: shared names, Boolean tests on numbers, lists and options.
--   * Abi, Attempt: src/abi.rs and src/attempt.rs.
--   * Machine: the instructions of the `asm!` blocks and their effect on a state (position, zero
--     flag, registers, words, area), one line at a time. A word is a number below 2^64 at an
--     address; the memory is a function from addresses.
--   * X86_64, Aarch64: the blocks, line by line, as lists of instructions, with the labels that the
--     `rseq_cs` descriptor names.
--   * Kernel: what rseq(2) does with a thread that comes back from an interruption, as a record of
--     a function and its documented laws; a call of a block as a list of events, where a `tick` is
--     one line and a `preempt` is an interruption during which other threads change the words by
--     any function and the kernel writes any area. When the events are used up the call runs to its
--     end undisturbed.
--   * Section: blocks in general. A decidable check on the lines of a block (one store inside the
--     section, the last line of it; the operands are never overwritten; no jump back), and runs of
--     blocks that pass it. Section.Linearized says what it means that a call takes effect at one
--     instant between two events, and that attempts that were given up leave nothing but the stores
--     that `scratch` allows.
--   * Blocks: the twelve blocks as such sections, with Blocks.Spec for what each does undisturbed.
--   * Cs, Thread: the functions `cs::*` with their operands and the stubs of src/fallback.rs; the
--     handle `Thread`, its reads and its six operations, function by function. `Thread.cas` and the
--     others choose the offset by the kind of the index. A call of an operation takes the world
--     (words and area) and what the call cannot choose (kernel, address of the descriptor, unset
--     registers, events), and returns the world and the result, or `none` if the kernel kills the
--     process.
--   * Thread.Promise: the documentation of each operation as a function of one instant. Thread.Lift
--     goes from blocks to operations; Thread.Operation has the six operations as one type,
--     Thread.AreaKept the lemma that the machine writes no field of the area but `rseq_cs`;
--     Thread.Tells relates results to the words at one instant.
--   * System: any number of calls of the operations by the threads of one processor, which executes
--     one line of one call at a time while the kernel switches between them after any line
--     (System.Move). System.Phase says how far a call has come, System.Line and System.Phase what a
--     line and a switch do to it, System.Replays what it means that a log of the calls explains the
--     words. Thread.Sections gives the block and the operands of each operation. System.Tickets,
--     System.Apart and System.Winner have calls of one operation on one word.
--   * Processors: the same on several processors, each of which executes its own call, with
--     `compare_exchange`, `compare_exchange_if` and `fetch_add`. Processors.Reached is the relation
--     of the states that lines and switches lead to. Section.Direct says of a block that it loads
--     from its operands only and tests the index first; Section.IndexTest and Section.Foreign
--     follow what stores of other processors do to a call. Processors.Invariant holds at every
--     moment, Processors.Counter has `fetch_add` on the slots of Words.
--   * Region, Words: the mapping and the slots. Addresses and lengths are numbers, with the checks
--     and the wrapping of the source written out.
--   * Membarrier: the statics READY and USED and a state of the kernel, on which the system call
--     acts as a parameter; Membarrier.Threads has several threads inside `run` at once, as a list
--     of the threads in the order in which they make their steps.
--   * Registration, Rseq: the area of a thread with the kernel's record of it; the handle, with
--     what the process finds by `dlsym`, `getauxval` and the thread pointer as a record `System`.
--   * Cpus: the parser of the sysfs list of possible CPUs (src/cpus.rs) on lists of characters;
--     Cpus.Printed has the lists that sysfs prints. The handle takes its result as the parameter
--     `possible`.
--   * Counter: the retry loop of benches/counter.rs on a counter with one word for each CPU.
--     Thread.Count has the measure of the words and what the other threads add to it.
--   * Freelist: the loops of benches/freelist.rs that push a node with `store_if` and pop one with
--     `add` and `cas`, on stacks that run through a vector `next`. Freelist.Chain has the stacks in
--     memory, Freelist.Push and Freelist.Pop the loops, Freelist.Bounded and Freelist.InBounds the
--     bounds of the vector while other threads pop as well.
--   * Drain: the loop of benches/drain.rs that fences each CPU and swaps its word for 0. Fallback:
--     the stubs of src/fallback.rs for the registration.
--   * Usage: the example in the documentation of src/lib.rs, from the handle to the operation.
--
-- Bounds and fuel: no line of a block jumps back, so the fuel of a run is the number of its lines
-- (Kernel.finish, Section.Settle). Registers and words wrap at 2^64 where the instruction does, the
-- index is compared in 32 bits, and the key of a word is below 2^32. The retry loops of Counter,
-- and `push` and `cas` of Freelist, have one call for each turn, and an outcome of its own for
-- calls that are used up; `pop` also has a number of turns, since a turn of it makes as many calls
-- as `add` and `cas` take.
--
-- Not modelled: `store_if`, `load_if_ne` and `fetch_add_at` on several processors at the same time
-- (on one processor, and one call under arbitrary interruptions, they are); the memory model (lines
-- are atomic and in program order); the C library and the kernel beyond the stated laws; `Debug`,
-- `Display` and `Hash`; of the benchmarks the loops on atomics and on thread-local cells that they
-- are compared with, the cached words, the workers and the measurements; the tests.
pub mod Base
pub mod Abi
pub mod Attempt
pub mod Machine
pub mod X86_64
pub mod Aarch64
pub mod Kernel
pub mod Section
pub mod Blocks
pub mod Cs
pub mod Thread
pub mod Region
pub mod System
pub mod Processors
pub mod Words
pub mod Counter
pub mod Freelist
pub mod Cpus
pub mod Membarrier
pub mod Registration
pub mod Rseq
pub mod Fallback
pub mod Drain
pub mod Usage
