-- ===== src/Region/Bounds.antt =====
-- The length and the words of a region of src/region.rs.
use rseq_rs.Base.{
  ℕ, ◌+◌, ◌*◌, ◌%◌, ◌^◌, ◌≤◌, ◌<◌, ◌≡◌, refl, none, some, arith, IsU32, ◌⊎◌, ◌≢◌, inl, inr,
  Bool-cases, eq_of_==, ne_of_==, ◌==◌,
}
use rseq_rs.Region.{
  page, checked_mul, div_ceil, non_zero, word_size, map_failed, mapped, length_of, map,
}

checked_mul-some : (a b : ℕ) → a * b < 2 ^ 64 → checked_mul a b ≡ some (a * b)
checked_mul-some a b h = ground arith

non_zero-some : (n : ℕ) → 0 < n → non_zero n ≡ some n
non_zero-some n h = ground arith

-- The least multiple of a page that holds the bytes.
abbrev pub IsRounded : (bytes len : ℕ) → Type 0
IsRounded bytes len = (bytes ≤ len) × (len < bytes + page) × (len % page ≡ 0)

div_ceil-IsRounded : (bytes : ℕ) → IsRounded bytes (div_ceil bytes page * page)
div_ceil-IsRounded bytes = ground arith

-- For a count that is a u32 and not 0 the length exists.
pub length_of-some :
    (cpus : ℕ)
    → IsU32 cpus
    → 0 < cpus
    → (len : ℕ) × (length_of cpus ≡ some len) × IsRounded (cpus * word_size) len
unfolding length_of
length_of-some cpus small positive =
    let bytes = cpus * word_size in
    let rounded = div_ceil bytes page * page in
    let (holds, close, whole) = div_ceil-IsRounded bytes in
    (
      rounded,
      rw
          (
            checked_mul-some cpus word_size (omega arith),
            checked_mul-some (div_ceil bytes page) page (omega (arith, close)),
            non_zero-some rounded (omega (arith, holds)),
          )
          refl,
      (holds, close, whole),
    )

-- What `mmap(2)` returns, unless it fails: a page-aligned address, not 0, of `len` bytes below 2^64.
pub record IsMapping (mmap : ℕ → ℕ) : Type 0 where
  pub not_null : (len : ℕ) → mmap len ≢ map_failed → 0 < mmap len
  pub aligned : (len : ℕ) → mmap len ≢ map_failed → mmap len % page ≡ 0
  pub fits : (len : ℕ) → mmap len ≢ map_failed → mmap len + len ≤ 2 ^ 64

module _ (mmap : ℕ → ℕ) (os : IsMapping mmap) (cpus : ℕ) (small : IsU32 cpus)
    (positive : 0 < cpus) where
  -- The mapping of a region fails where `mmap` fails, and only there.
  pub map-cases :
      (len : ℕ) × (length_of cpus ≡ some len)
      × IsRounded (cpus * word_size) len
      × (((mmap len ≡ map_failed) × (map mmap cpus ≡ none))
          ⊎ ((mmap len ≢ map_failed) × (map mmap cpus ≡ some (mapped (mmap len) len))))
  unfolding map
  map-cases =
      let (len, found, rounded) = length_of-some cpus small positive in
      (
        len,
        found,
        rounded,
        elim (Bool-cases (mmap len == map_failed)) [
          | inl bad ↦ inl (eq_of_== (mmap len) map_failed bad, rw (found, bad) refl)
          | inr good ↦
              let real = ne_of_== (mmap len) map_failed good in
              inr (real, rw (found, good, non_zero-some (mmap len) (os.not_null len real)) refl)
        ],
      )
