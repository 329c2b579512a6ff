-- ===== src/Words/Tests.antt =====
-- A region of 100 words on a system whose `mmap` gives one address, and the theorems on it.
use rseq_rs.Base.{
  ℕ, ◌+◌, ◌*◌, ◌%◌, ◌≤◌, ◌<◌, ◌≡◌, refl, none, some, ◌⊎◌, arith, ◌^◌, ◌≢◌, leb, if◌then◌else◌,
}
use rseq_rs.Region
use rseq_rs.Region.{mapped, page, word_size, map_failed, drop, drop}
use rseq_rs.Region.Bounds.{IsMapping, IsRounded}
use rseq_rs.Thread.{Kind, cpu_kind, cid_kind, Word}
use rseq_rs.Words.{Words, new, get}
use rseq_rs.Words.Slots.{get-apart, new-cases, new-inside}

-- One mapping of a megabyte at most.
abbrev mmap : ℕ → ℕ
mmap len = if leb len 0x10_0000 then 0x7f00_0000_0000 else map_failed

not_null : (len : ℕ) → mmap len ≢ map_failed → 0 < mmap len
not_null len good = ground arith

aligned : (len : ℕ) → mmap len ≢ map_failed → mmap len % page ≡ 0
aligned len good = ground arith

fits : (len : ℕ) → mmap len ≢ map_failed → mmap len + len ≤ 2 ^ 64
fits len good = ground arith

abbrev os : IsMapping mmap
os = record { not_null = not_null; aligned = aligned; fits = fits }

abbrev hundred : Words
hundred = record { region = mapped 0x7f00_0000_0000 4096; cpus = 100 }

abbrev slot : {k : Kind} → ℕ → Word k
slot n = record { word = 0x7f00_0000_0000 + n * 8; key = n }

new-hundred : new mmap 100 ≡ some hundred
unfolding new Region.map Region.length_of
new-hundred = refl

found_at :
    {k : Kind}
    → (get {k = k} hundred 7 ≡ some (slot 7))
      × (get {k = k} hundred 99 ≡ some (slot 99))
      × (get {k = k} hundred 100 ≡ none)
unfolding get Region.word Region.base
found_at = (refl, refl, refl)

get-apart_example :
    ((slot {k = cpu_kind} 7).word + word_size ≤ (slot {k = cid_kind} 99).word)
    ⊎ ((slot {k = cid_kind} 99).word + word_size ≤ (slot {k = cpu_kind} 7).word)
get-apart_example =
    get-apart {k = cpu_kind} {k' = cid_kind} hundred 7 99 (omega arith) (omega arith) (slot 7)
      (slot 99) found_at.0 found_at.1

new-cases_example :
    ((hundred.cpus ≡ 0) × (new mmap 100 ≡ none))
    ⊎ ((0 < 100)
        × (len : ℕ) × IsRounded (100 * word_size) len
        × (((mmap len ≡ map_failed) × (new mmap 100 ≡ none))
            ⊎ ((mmap len ≢ map_failed)
                × (ws : Words) × (new mmap 100 ≡ some ws)
                × (ws.cpus ≡ 100)
                × (drop ws.region ≡ some (mmap len, len)))))
new-cases_example = new-cases mmap os 100 (omega arith)

new-inside_example :
    (at len : ℕ) × (drop hundred.region ≡ some (at, len))
    × (at ≤ (slot {k = cid_kind} 99).word)
    × ((slot {k = cid_kind} 99).word + word_size ≤ at + len)
    × ((slot {k = cid_kind} 99).word % word_size ≡ 0)
new-inside_example =
    new-inside mmap os 100 (omega arith) hundred new-hundred 99 (slot {k = cid_kind} 99) found_at.1
