-- ===== src/Usage.antt =====
-- The example in the documentation of src/lib.rs: bind the thread, pick the word of its CPU, and compare and
-- swap it until it is no longer given up.
pub mod Swaps
mod Tests
use rseq_rs.Base.{ℕ, ◌>>=◌, Option, none, some, List, [], ◌∷◌}
use rseq_rs.Cs.{Target, World, Call}
use rseq_rs.Words.{Words, get}
use rseq_rs.Thread as Ops
use rseq_rs.Thread.{Kind, cpu_kind, Word, Thread, Result, ok, err, abort, cpu_id}

-- The loop is left with a result, and with the calls that were not made; or there is no CPU or no word; or it
-- is still going when the calls are used up; or the process was killed.
pub data Tried : Type 0 where
  broke : World → Result → List Call → Tried
  nothing : World → Tried
  going : World → Tried
  killed : Tried

abbrev pub settle : (World → Tried) → List Call → Option (World × Result) → Tried
settle again cs none = killed
settle again cs (some (s, err abort)) = again s
settle again cs (some (s, r)) = broke s r cs

-- The loop of `try_it`, one call for each turn.
unfoldable pub try_it : Target → Thread → Words → List Call → World → Tried
try_it target t ws [] s = going s
try_it target t ws (c ∷ cs) s =
    let again = try_it target t ws cs in
    elim (cpu_id s.area >>= get ws) [
      | none ↦ nothing s
      | some w ↦ settle again cs (Ops.compare_exchange target c t {k = cpu_kind} w 0 7 s)
    ]
