-- ===== src/Freelist.antt =====
-- benches/freelist.rs: the stack of nodes of each CPU, and the loops that push and pop a node.
pub mod Chain
pub mod Own
pub mod Turns
pub mod Push
pub mod Pop
pub mod Bounded
pub mod InBounds
mod Tests
use rseq_rs.Base.{
  ℕ, zero, suc, ◌==◌, ◌+◌, ◌*◌, ◌>>=◌, Option, none, some, List, [], ◌∷◌, ltb, if◌then◌else◌,
}
use rseq_rs.Cs.{Target, World, Call}
use rseq_rs.Region.{word_size}
use rseq_rs.Words.{Words, get}
use rseq_rs.Thread as Ops
use rseq_rs.Thread.{Kind, cpu_kind, Word, Thread, Result, ok, err, abort, cpu_id}
use rseq_rs.Counter as Counters
use rseq_rs.Counter.{waited, add, Outcome}

abbrev pub empty : ℕ
empty = 0

-- `List`: the address and the length of the vector `next`.
pub record Nodes : Type 0 where
  pub next : ℕ
  pub len : ℕ

-- The address of `next[node]`.
abbrev pub next_at : Nodes → ℕ → ℕ
next_at l node = l.next + node * word_size

-- The loop has returned, with the calls that were not made; or is still going when the calls are used up;
-- or an index was out of bounds; or the process was killed.
pub data Pushed : Type 0 where
  returned : World → List Call → Pushed
  going : World → Pushed
  panicked : Pushed
  killed : Pushed

abbrev pub settle : (World → Pushed) → List Call → Option (World × Result) → Pushed
settle again cs none = killed
settle again cs (some (s, ok old)) = returned s cs
settle again cs (some (s, err e)) = again s

module _ (target : Target) (t : Thread) (ws : Words) (l : Nodes) (node : ℕ) where
  -- What a turn does on the word of its CPU: `head` is loaded outside the section.
  abbrev pub store_head : Call → Word cpu_kind → World → Option (World × Result)
  store_head c w s =
      Ops.store_if target c t w (s.mem w.word) node (record { word = next_at l node; key = w.key })
        (s.mem w.word) s

  -- `push_rseq`, one call for each turn.
  unfoldable pub push : List Call → World → Pushed
  push [] s = going s
  push (c ∷ cs) s =
      let again = push cs in
      elim (cpu_id s.area >>= get ws) [
        | none ↦ again (waited c s)
        | some w ↦ if ltb node l.len then settle again cs (store_head c w s) else panicked
      ]

-- `cas` has returned, with the calls that were not made; or is still going; or the process was killed.
pub data Swapped : Type 0 where
  returned : World → Result → List Call → Swapped
  going : World → Swapped
  killed : Swapped

-- The `match` of `cas`: an abort goes round again.
abbrev pub settle_cas : (World → Swapped) → List Call → Option (World × Result) → Swapped
settle_cas again cs none = killed
settle_cas again cs (some (s, err abort)) = again s
settle_cas again cs (some (s, r)) = returned s r cs

module _ (target : Target) (t : Thread) (ws : Words) where
  -- `cas`, one call for each turn.
  unfoldable pub cas : (expect new : ℕ) → List Call → World → Swapped
  cas expect new [] s = going s
  cas expect new (c ∷ cs) s =
      let again = cas expect new cs in
      elim (cpu_id s.area >>= get ws) [
        | none ↦ again (waited c s)
        | some w ↦
            settle_cas again cs (Ops.compare_exchange target c t {k = cpu_kind} w expect new s)
      ]

-- `pop_rseq` has returned a node, or 0 from an empty stack; or it is still going when the turns or the calls
-- are used up; or an index was out of bounds; or the process was killed.
pub data Popped : Type 0 where
  returned : World → (node : ℕ) → List Call → Popped
  going : World → Popped
  panicked : Popped
  killed : Popped

-- The `match` of `pop_rseq` on the result of `cas`.
abbrev pub settle_pop : (List Call → World → Popped) → (head : ℕ) → Swapped → Popped
settle_pop again head killed = killed
settle_pop again head (going s) = going s
settle_pop again head (returned s (ok old) cs) = returned s head cs
settle_pop again head (returned s (err e) cs) = again cs s

module _ (target : Target) (t : Thread) (ws : Words) (l : Nodes) where
  -- What `pop_rseq` does with the head that `add(thread, words, 0)` gave: `next[head]` is loaded outside
  -- any section.
  abbrev pub take_head : (List Call → World → Popped) → Outcome → Popped
  take_head again Counters.killed = killed
  take_head again (Counters.going s) = going s
  take_head again (Counters.returned s head cs) =
      if head == empty
      then returned s empty cs
      else if ltb head l.len
      then settle_pop again head (cas target t ws head (s.mem (next_at l head)) cs s)
      else panicked

  -- `pop_rseq`, by the number of turns.
  unfoldable pub pop : (turns : ℕ) → List Call → World → Popped
  pop zero cs s = going s
  pop (suc n) cs s = let again = pop n in take_head again (add target t ws 0 cs s)
