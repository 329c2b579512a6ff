-- ===== src/Attempt.antt =====
-- src/attempt.rs: the outcome of a critical section.
use rseq_rs.Base.{ℕ, ◌==◌, if◌then◌else◌}

pub data Attempt : Type 0 where
  ok : ℕ → Attempt
  miss : ℕ → Attempt
  abort : Attempt

unfoldable pub from_status : ℕ → ℕ → Attempt
from_status status value =
    if status == 0 then ok value else if status == 1 then miss value else abort
