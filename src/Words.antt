-- ===== src/Words.antt =====
-- src/words.rs: one word for each index. `Word` stands with the operations that take it, in Thread.antt.
pub mod Slots
mod Tests
use rseq_rs.Base.{ℕ, Bool, ◌&&◌, ◌^◌, Option, none, some, ◌>>=◌, ◌==◌, leb, ltb, not, if◌then◌else◌}
use rseq_rs.Region.{Region, raw, map, word}
use rseq_rs.Thread.{Kind, Word}

-- `Word::new`, of a word that the caller owns.
abbrev pub word_new : {k : Kind} → (at key : ℕ) → Word k
word_new at key = record { word = at; key = key }

-- `PartialEq for Word`
unfoldable pub word_eq : {k : Kind} → Word k → Word k → Bool
word_eq a b = (a.word == b.word) && (a.key == b.key)

pub record Words : Type 0 where
  pub region : Region
  pub cpus : ℕ

-- `Words::new`
unfoldable pub new : (mmap : ℕ → ℕ) → (cpus : ℕ) → Option Words
new mmap cpus =
    if cpus == 0
    then none
    else map mmap cpus >>= λ region. some (record { region = region; cpus = cpus })

-- `Words::from_static`, of a slice of `len` words at `first`.
unfoldable pub from_static : (first len : ℕ) → Option Words
from_static first len =
    if not (ltb len (2 ^ 32))
    then none
    else if len == 0
    then none
    else some (record { region = raw first; cpus = len })

-- `Words::get`, by the number of the index.
unfoldable pub get : {k : Kind} → Words → (key : ℕ) → Option (Word k)
get ws key =
    if leb ws.cpus key then none else some (record { word = word ws.region key; key = key })
