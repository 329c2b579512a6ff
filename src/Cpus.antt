-- ===== src/Cpus.antt =====
-- src/cpus.rs: the number of possible CPUs, from the list that sysfs gives. A text is the list of its
-- characters, by their numbers.
pub mod Printed
pub mod RoundTrip
mod Tests
use rseq_rs.Base.{
  ℕ, zero, suc, ◌+◌, ◌-◌, ◌*◌, ◌^◌, Bool, true, false, ◌&&◌, ◌||◌, not, Option, none, some, ◌>>=◌,
  List, [], ◌∷◌, ◌==◌, ltb, leb, if◌then◌else◌,
}

abbrev pub Text : Type 0
Text = List ℕ

abbrev pub comma : ℕ
comma = 44

abbrev pub dash : ℕ
dash = 45

abbrev pub plus : ℕ
plus = 43

-- `char::is_whitespace`
abbrev pub is_space : ℕ → Bool
is_space c =
    (leb 9 c && leb c 13)
    || (c == 32)
    || (c == 0x85)
    || (c == 0xa0)
    || (c == 0x1680)
    || (leb 0x2000 c && leb c 0x200a)
    || (c == 0x2028)
    || (c == 0x2029)
    || (c == 0x202f)
    || (c == 0x205f)
    || (c == 0x3000)

-- `str::trim`
unfoldable pub trim_start : Text → Text
trim_start [] = []
trim_start (c ∷ cs) = if is_space c then trim_start cs else c ∷ cs

abbrev pub trimmed : ℕ → Text → Text
trimmed c [] = if is_space c then [] else c ∷ []
trimmed c (d ∷ ds) = c ∷ d ∷ ds

unfoldable pub trim_end : Text → Text
trim_end [] = []
trim_end (c ∷ cs) = trimmed c (trim_end cs)

abbrev pub trim : Text → Text
trim cs = trim_end (trim_start cs)

-- `str::split`, with one piece at least
abbrev pub prepend : ℕ → List Text → List Text
prepend c [] = (c ∷ []) ∷ []
prepend c (piece ∷ pieces) = (c ∷ piece) ∷ pieces

unfoldable pub split : (at : ℕ) → Text → List Text
split at [] = [] ∷ []
split at (c ∷ cs) = let rest = split at cs in if c == at then [] ∷ rest else prepend c rest

-- `str::split_once`
abbrev pub prepend_first : ℕ → Option (Text × Text) → Option (Text × Text)
prepend_first c none = none
prepend_first c (some (before, behind)) = some (c ∷ before, behind)

unfoldable pub split_once : (at : ℕ) → Text → Option (Text × Text)
split_once at [] = none
split_once at (c ∷ cs) =
    let rest = split_once at cs in if c == at then some ([], cs) else prepend_first c rest

-- `u32::from_str`: digits behind one `+` or none, without overflow
abbrev pub digit : ℕ → Option ℕ
digit c = if leb 48 c && leb c 57 then some (c - 48) else none

abbrev pub checked : ℕ → Option ℕ
checked n = if ltb n (2 ^ 32) then some n else none

unfoldable pub parse_digits : (acc : ℕ) → Text → Option ℕ
parse_digits acc [] = some acc
parse_digits acc (c ∷ cs) =
    digit c >>= λ d. checked (acc * 10) >>= λ tens. checked (tens + d) >>= λ n. parse_digits n cs

unfoldable pub parse : Text → Option ℕ
parse [] = none
parse (c ∷ []) = if c == plus then none else parse_digits 0 (c ∷ [])
parse (c ∷ d ∷ cs) = if c == plus then parse_digits 0 (d ∷ cs) else parse_digits 0 (c ∷ d ∷ cs)

-- The end of the range that a part names.
unfoldable pub high : Text → Option ℕ
high part = elim (split_once dash part) [
  | some (lo, hi) ↦ parse lo >>= λ low. parse hi
  | none ↦ parse part
]

abbrev pub max : ℕ → ℕ → ℕ
max a b = if ltb b a then a else b

-- The `for` over the parts.
unfoldable pub highest : (max : ℕ) → List Text → Option ℕ
highest top [] = some top
highest top (part ∷ parts) = high part >>= λ hi. highest (max top hi) parts

abbrev pub is_empty : Text → Bool
is_empty [] = true
is_empty (c ∷ cs) = false

-- `&buf[..n]` of a buffer of 256 bytes, for a file that one call of `read` reads as far as it fits.
unfoldable pub take : ℕ → Text → Text
take zero cs = []
take (suc n) [] = []
take (suc n) (c ∷ cs) = c ∷ take n cs

-- `file` is what the file holds, if it can be read, and `from_utf8` decodes it.
unfoldable pub possible : (from_utf8 : Text → Option Text) → (file : Option Text) → Option ℕ
possible from_utf8 file = do
  bytes ← file
  decoded ← from_utf8 (take 256 bytes)
  let raw = trim decoded
  top ← if is_empty raw then none else highest 0 (split comma raw)
  checked (top + 1)
