-- ===== src/Blocks/Spec.antt =====
-- What the word operations of src/thread.rs promise, as functions of the operands, the words and the
-- area at one instant: the words after it, and the outcome.
use rseq_rs.Base.{ℕ, ◌+◌, ◌%◌, ◌^◌, Bool, ◌==◌, if◌then◌else◌}
use rseq_rs.Abi.{Area, field_at}
use rseq_rs.Attempt.{ok, miss, abort}
use rseq_rs.Machine.{Reg, write, usize}
use rseq_rs.Section.Linearized.{Spec}

-- The index that the area shows is the key of the word.
abbrev pub on_index : ℕ → (Reg → ℕ) → Area → Bool
on_index off r a = field_at a off % 2 ^ 32 % 2 ^ 32 == r Reg.id % 2 ^ 32

unfoldable pub compare_exchange : ℕ → Spec
compare_exchange off r m a =
    let seen = m (r Reg.word) in
    if on_index off r a
    then (if seen == r Reg.expect
        then (write m (r Reg.word) (r Reg.new), ok seen)
        else (m, miss seen))
    else (m, abort)

unfoldable pub fetch_add : ℕ → Spec
fetch_add off r m a =
    let seen = m (r Reg.word) in
    if on_index off r a
    then (write m (r Reg.word) (usize (seen + r Reg.count)), ok seen)
    else (m, abort)

unfoldable pub store_if : ℕ → Spec
store_if off r m a =
    let seen = m (r Reg.word) in
    if on_index off r a
    then (if seen == r Reg.expect
        then (write (write m (r Reg.side) (r Reg.side_new)) (r Reg.word) (r Reg.new), ok seen)
        else (m, miss seen))
    else (m, abort)

unfoldable pub compare_exchange_if : ℕ → Spec
compare_exchange_if off r m a =
    let seen = m (r Reg.word) in
    let other_seen = m (r Reg.other) in
    if on_index off r a
    then (if seen == r Reg.expect
        then (if other_seen == r Reg.other_expect
            then (write m (r Reg.word) (r Reg.new), ok seen)
            else (m, miss other_seen))
        else (m, miss seen))
    else (m, abort)

unfoldable pub load_if_ne : ℕ → Spec
load_if_ne off r m a =
    let seen = m (r Reg.word) in
    if on_index off r a
    then (if seen == r Reg.expect_not
        then (m, miss seen)
        else (write m (r Reg.word) (m (usize (seen + r Reg.offset))), ok seen))
    else (m, abort)

unfoldable pub fetch_add_at : ℕ → Spec
fetch_add_at off r m a =
    let target = m (usize (m (r Reg.ptr) + r Reg.offset)) in
    if on_index off r a
    then (write m target (usize (m target + r Reg.count)), ok (m target))
    else (m, abort)
