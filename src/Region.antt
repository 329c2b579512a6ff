-- ===== src/Region.antt =====
-- src/region.rs: the region of words, mapped by the crate or owned by the caller. `mmap` is the system
-- call, from a length to the address that it returns.
pub mod Bounds
use mathlib.Core.Option
use rseq_rs.Base.{
  ℕ, ◌+◌, ◌-◌, ◌*◌, ◌/◌, ◌%◌, ◌^◌, Option, none, some, ◌>>=◌, ◌==◌, ltb, if◌then◌else◌,
}
use rseq_rs.Machine.{usize}

abbrev pub page : ℕ
page = 4096

-- `size_of::<AtomicUsize>()`
abbrev pub word_size : ℕ
word_size = 8

-- MAP_FAILED is -1 as an address.
abbrev pub map_failed : ℕ
map_failed = 2 ^ 64 - 1

pub data Region : Type 0 where
  mapped : (base len : ℕ) → Region
  raw : (base : ℕ) → Region

-- `usize::checked_mul`, `usize::div_ceil`, `NonZeroUsize::new` and `NonNull::new`
abbrev pub checked_mul : ℕ → ℕ → Option ℕ
checked_mul a b = if ltb (a * b) (2 ^ 64) then some (a * b) else none

abbrev pub div_ceil : ℕ → ℕ → ℕ
div_ceil a b = if a % b == 0 then a / b else a / b + 1

abbrev pub non_zero : ℕ → Option ℕ
non_zero n = if n == 0 then none else some n

-- The length that `map` asks for.
unfoldable pub length_of : (cpus : ℕ) → Option ℕ
length_of cpus = do
  bytes ← checked_mul cpus word_size
  rounded ← checked_mul (div_ceil bytes page) page
  non_zero rounded

module _ (mmap : ℕ → ℕ) where
  unfoldable pub map : (cpus : ℕ) → Option Region
  map cpus = do
    len ← length_of cpus
    if mmap len == map_failed
        then none
        else Option.map (λ base. mapped base len) (non_zero (mmap len))

unfoldable pub base : Region → ℕ
base (mapped at len) = at
base (raw at) = at

-- `cpu` is a u32, the product wraps.
unfoldable pub word : Region → (cpu : ℕ) → ℕ
word r cpu = base r + usize (cpu * word_size)

-- What `drop` gives to `munmap`.
unfoldable pub drop : Region → Option (ℕ × ℕ)
drop (mapped at len) = some (at, len)
drop (raw at) = none
