-- ===== src/Words/Slots.antt =====
-- The slots of src/words.rs: where they are, and that no two share a byte.
use mathlib.Core.Path.{subst}
use rseq_rs.Base.{
  Option, ◌>>=◌, ℕ, ◌+◌, ◌*◌, ◌%◌, ◌≤◌, ◌<◌, ◌≡◌, refl, none, some, arith, IsU32, ◌↔◌, ◌⊎◌, ◌≢◌,
  leb, le_of_leb, lt_of_not_leb, ne_of_==, ==-self, ==-ne, true, false, eq_of_==, ◌==◌, sym, ap,
  inl, inr, Bool-cases, Option-cases,
}
use rseq_rs.Machine.{usize}
use rseq_rs.Region.{Region, raw, map, page, word_size, map_failed, mapped, base, word, drop}
use rseq_rs.Region.Bounds.{IsMapping, IsRounded, map-cases}
use rseq_rs.Thread.{Kind, Word}
use rseq_rs.Words.{Words, new, get, word_eq}

-- The offset of a slot does not wrap.
get-cases :
    {k : Kind} (ws : Words) (key : ℕ)
    → IsU32 ws.cpus
    → ((ws.cpus ≤ key) × (get {k = k} ws key ≡ none))
      ⊎ ((key < ws.cpus)
          × (get {k = k} ws key
              ≡ some (record { word = base ws.region + key * word_size; key = key })))
unfolding get word
get-cases ws key small = elim (Bool-cases (leb ws.cpus key)) [
  | inl out ↦ inl (le_of_leb ws.cpus key out, rw out refl)
  | inr inside ↦
      let within = lt_of_not_leb ws.cpus key inside in
      let straight : usize (key * word_size) ≡ key * word_size = omega (arith, within) in
      inr (within, rw (inside, straight) refl)
]

-- For a count that is a u32: `get` gives a word for the numbers below the count and for no other;
-- the key of the word is the number.
pub get-some_iff :
    {k : Kind} (ws : Words) (key : ℕ)
    → IsU32 ws.cpus
    → ((w : Word k) × (get ws key ≡ some w) × (w.key ≡ key)) ↔ (key < ws.cpus)
get-some_iff {k = k} ws key small = elim (get-cases {k = k} ws key small) [
  | inl (out, gone) ↦ (λ p. absurd (cc), λ within. absurd (omega (arith, out, within)))
  | inr (within, found) ↦ (
    λ p. within,
    λ within'. (record { word = base ws.region + key * word_size; key = key }, found, refl),
  )
]

pub get-slot :
    {k : Kind} (ws : Words) (key : ℕ)
    → IsU32 ws.cpus
    → (w : Word k) → get ws key ≡ some w
    → (key < ws.cpus) × (w.word ≡ base ws.region + key * word_size) × (w.key ≡ key)
get-slot {k = k} ws key small w found = elim (get-cases {k = k} ws key small) [
  | inl (out, gone) ↦ absurd (cc)
  | inr (within, there) ↦
      let same : record { word = base ws.region + key * word_size; key = key } ≡ w = cc in
      (within, sym (ap (λ (o : Word k). o.word) same), sym (ap (λ (o : Word k). o.key) same))
]

-- For a count that is a u32: the words that `get` gives for two different numbers share no byte,
-- whatever the kinds of the two indices.
pub get-apart :
    {k k' : Kind} (ws : Words) (i j : ℕ)
    → IsU32 ws.cpus
    → i ≢ j
    → (w : Word k) (w' : Word k') → get ws i ≡ some w
    → get ws j ≡ some w'
    → (w.word + word_size ≤ w'.word) ⊎ (w'.word + word_size ≤ w.word)
get-apart ws i j small ne w w' found found' =
    let (_, at, _) = get-slot ws i small w found in
    let (_, at', _) = get-slot ws j small w' found' in grind arith

-- Two words of one region are equal if they were got by the same number, and only then.
pub get-word_eq :
    {k : Kind} (ws : Words) (i j : ℕ)
    → IsU32 ws.cpus
    → (w w' : Word k) → get ws i ≡ some w
    → get ws j ≡ some w'
    → word_eq w w' ≡ (i == j)
unfolding word_eq
get-word_eq ws i j small w w' found found' =
    let (_, at, key) = get-slot ws i small w found in
    let (_, at', key') = get-slot ws j small w' found' in
    elim (Bool-cases (i == j)) [
      | inl same ↦
          let i_j = eq_of_== i j same in
          let at_same : (w.word == w'.word) ≡ true =
            rw (at, at', i_j) (==-self (base ws.region + j * word_size)) in
          rw (at_same, key, key') refl
      | inr differ ↦
          let i_j = ne_of_== i j differ in
          let apart : (w.word == w'.word) ≡ false =
            ==-ne w.word w'.word (λ at_same. i_j (omega (arith, at, at', at_same))) in
          rw (apart, differ) refl
    ]

words-inside :
    {k : Kind} (ws : Words) (at len : ℕ)
    → IsU32 ws.cpus
    → at % page ≡ 0
    → ws.cpus * word_size ≤ len
    → base ws.region ≡ at
    → (key : ℕ) (w : Word k) → get ws key ≡ some w
    → (at ≤ w.word) × (w.word + word_size ≤ at + len) × (w.word % word_size ≡ 0)
words-inside ws at len small aligned holds here key w found =
    let (within, place, _) = get-slot ws key small w found in
    (
      omega (arith, here, place),
      omega (arith, here, place, within, holds),
      omega (arith, here, place, aligned),
    )

-- For a `mmap` that behaves as documented and a count that is a u32: `new` gives nothing for no CPU. For
-- more, with the least multiple of the page that holds all words as the length: where `mmap` of this length
-- fails, `new` gives nothing, and everywhere else it gives words for all CPUs, on a region of this length
-- which `drop` unmaps.
pub new-cases :
    (mmap : ℕ → ℕ)
    → IsMapping mmap
    → (cpus : ℕ) → IsU32 cpus
    → ((cpus ≡ 0) × (new mmap cpus ≡ none))
      ⊎ ((0 < cpus)
          × (len : ℕ) × IsRounded (cpus * word_size) len
          × (((mmap len ≡ map_failed) × (new mmap cpus ≡ none))
              ⊎ ((mmap len ≢ map_failed)
                  × (ws : Words) × (new mmap cpus ≡ some ws)
                  × (ws.cpus ≡ cpus)
                  × (drop ws.region ≡ some (mmap len, len)))))
unfolding new drop
new-cases mmap os cpus small = elim (Bool-cases (cpus == 0)) [
  | inl none_asked ↦ inl (eq_of_== cpus 0 none_asked, rw none_asked refl)
  | inr some_asked ↦
      let ne = ne_of_== cpus 0 some_asked in
      let positive : 0 < cpus = omega (arith, ne) in
      let (len, found, rounded, outcome) = map-cases mmap os cpus small positive in
      inr (
        positive,
        len,
        rounded,
        elim outcome [
          | inl (bad, gone) ↦ inl (bad, rw (some_asked, gone) refl)
          | inr (good, made) ↦
              let ws : Words = record { region = mapped (mmap len) len; cpus = cpus } in
              inr (good, ws, rw (some_asked, made) refl, refl, refl)
        ],
      )
]

pub new-cpus : (mmap : ℕ → ℕ) (cpus : ℕ) (ws : Words) → new mmap cpus ≡ some ws → ws.cpus ≡ cpus
unfolding new
new-cpus mmap cpus ws made = elim (Bool-cases (cpus == 0)) [
  | inl none_asked ↦ let gone : new mmap cpus ≡ none = rw none_asked refl in absurd (cc)
  | inr some_asked ↦ elim (Option-cases (map mmap cpus)) [
    | inl bad ↦ let gone : new mmap cpus ≡ none = rw (some_asked, bad) refl in absurd (cc)
    | inr (region, good) ↦
        let there : new mmap cpus ≡ some (record { region = region; cpus = cpus }) =
          rw (some_asked, good) refl in
        let same : ws ≡ record { region = region; cpus = cpus } = cc in
        ap (λ (x : Words). x.cpus) same
  ]
]

drop-base : (r : Region) (at len : ℕ) → drop r ≡ some (at, len) → base r ≡ at
unfolding drop base
drop-base (mapped b l) at len dropped =
    let same : (b, l) ≡ (at, len) = cc in ap (λ (p : ℕ × ℕ). p.0) same
drop-base (raw b) at len dropped = absurd (cc)

-- For a `mmap` that behaves as documented and a count that is a u32: every word that `get` gives of
-- a mapped region lies in what `drop` unmaps, and is aligned.
pub new-inside :
    {k : Kind} (mmap : ℕ → ℕ)
    → IsMapping mmap
    → (cpus : ℕ) → IsU32 cpus
    → (ws : Words) → new mmap cpus ≡ some ws
    → (key : ℕ) (w : Word k) → get ws key ≡ some w
    → (at len : ℕ) × (drop ws.region ≡ some (at, len))
      × (at ≤ w.word)
      × (w.word + word_size ≤ at + len)
      × (w.word % word_size ≡ 0)
new-inside mmap os cpus small ws made key w there = elim (new-cases mmap os cpus small) [
  | inl (_, gone) ↦ absurd (cc)
  | inr (_, len, (holds, _, _), inl (_, gone)) ↦ absurd (cc)
  | inr (_, len, (holds, _, _), inr (good, ws', made', counted, dropped)) ↦
      let same : ws' ≡ ws = cc in
      let count = new-cpus mmap cpus ws made in
      let dropped' : drop ws.region ≡ some (mmap len, len) =
        subst (λ (x : Words). drop x.region ≡ some (mmap len, len)) same dropped in
      let (low, high, even) =
        words-inside ws (mmap len) len (subst IsU32 (sym count) small) (os.aligned len good)
          (subst (λ n. n * word_size ≤ len) (sym count) holds)
          (drop-base ws.region (mmap len) len dropped') key w there in
      (mmap len, len, dropped', low, high, even)
]

-- The number of the word that a read of the index has picked.
pub picked :
    {k : Kind} (ws : Words) (read : Option ℕ) (w : Word k)
    → (read >>= get ws) ≡ some w
    → (key : ℕ) × (get ws key ≡ some w)
picked ws none w found = absurd (cc)
picked ws (some key) w found = (key, found)
