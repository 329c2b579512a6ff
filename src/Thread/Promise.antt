-- ===== src/Thread/Promise.antt =====
-- What the documentation of src/thread.rs promises of each word operation, as a function of the words and
-- of the area at one instant.
use rseq_rs.Base.{ℕ, ◌+◌, ◌%◌, ◌^◌, ◌≡◌, ◌⊎◌, ◌==◌, if◌then◌else◌}
use rseq_rs.Abi.{Area}
use rseq_rs.Machine.{Mem, write, usize}
use rseq_rs.Thread.{Kind, cpu_kind, cid_kind, Word, Result, ok, err, miss, abort}

-- The index of the thread, a u32.
abbrev pub index : Kind → Area → ℕ
index cpu_kind a = a.cpu_id % 2 ^ 32
index cid_kind a = a.mm_cid % 2 ^ 32

-- On its index the thread does `act`, elsewhere it gives up.
abbrev on_key : {k : Kind} → Word k → Mem × Result → Mem → Area → Mem × Result
on_key {k} w act m a = if index k a == w.key then act else (m, err abort)

module _ {k : Kind} (w : Word k) where
  abbrev pub compare_exchange : (expect new : ℕ) → Mem → Area → Mem × Result
  compare_exchange expect new m a =
      on_key w
        (if m w.word == expect
          then (write m w.word new, ok (m w.word))
          else (m, err (miss (m w.word))))
        m a

  abbrev pub compare_exchange_if :
      (expect new : ℕ) → Word k → (other_expect : ℕ) → Mem → Area → Mem × Result
  compare_exchange_if expect new o other_expect m a =
      on_key w
        (if m w.word == expect
          then (if m o.word == other_expect
              then (write m w.word new, ok (m w.word))
              else (m, err (miss (m o.word))))
          else (m, err (miss (m w.word))))
        m a

  -- The sum wraps at 2^64.
  abbrev pub fetch_add : (count : ℕ) → Mem → Area → Mem × Result
  fetch_add count m a = on_key w (write m w.word (usize (m w.word + count)), ok (m w.word)) m a

  abbrev pub load_if_ne : (expect_not offset : ℕ) → Mem → Area → Mem × Result
  load_if_ne expect_not offset m a =
      on_key w
        (if m w.word == expect_not
          then (m, err (miss (m w.word)))
          else (write m w.word (m (usize (m w.word + offset))), ok (m w.word)))
        m a

  -- The word whose address stands at `*ptr + offset`.
  abbrev pub target : (offset : ℕ) → Mem → ℕ
  target offset m = m (usize (m w.word + offset))

  abbrev pub fetch_add_at : (offset count : ℕ) → Mem → Area → Mem × Result
  fetch_add_at offset count m a =
      on_key w
        (write m (target offset m) (usize (m (target offset m) + count)), ok (m (target offset m)))
        m a

  -- The store to `side` comes first.
  abbrev pub store_if : (expect new : ℕ) → Word k → (side_new : ℕ) → Mem → Area → Mem × Result
  store_if expect new side side_new m a =
      on_key w
        (if m w.word == expect
          then (write (write m side.word side_new) w.word new, ok (m w.word))
          else (m, err (miss (m w.word))))
        m a

-- What attempts that were given up may have left behind: nothing, or the store to `side`.
abbrev pub Untouched : Mem → Mem → Type 0
Untouched m m' = m' ≡ m

abbrev pub SideStored : {k : Kind} → Word k → ℕ → Mem → Mem → Type 0
SideStored side side_new m m' = (m' ≡ m) ⊎ (m' ≡ write m side.word side_new)
