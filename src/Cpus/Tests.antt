-- ===== src/Cpus/Tests.antt =====
-- The parser of src/cpus.rs on the list `0-3,8,12-15`, and on texts that are no list.
use rseq_rs.Base.{
  no_more, and_then, ℕ, ◌≡◌, ◌<◌, refl, Option, none, some, List, [], ◌∷◌, arith, IsU32,
}
use rseq_rs.Cpus.{
  Text, possible, highest, high, parse, parse_digits, split, split_once, trim_start, trim_end, take,
}
use rseq_rs.Cpus.Printed.{Part, single, range, IsNumeral, IsPart}
use rseq_rs.Cpus.RoundTrip.{AreParts, no_part, part_then, file_of, possible-file_of, possible-IsU32}

-- ASCII alone, which is its own encoding.
abbrev ascii : Text → Option Text
ascii cs = some cs

abbrev read : Text → Option ℕ
read cs = possible ascii (some cs)

-- ``, ` 5 `, `+5`, `0-`, `3-1`, `1,,2`, `4294967295`
odd_texts :
    (read [] ≡ none)
    × (read (32 ∷ 53 ∷ 32 ∷ []) ≡ some 6)
    × (read (43 ∷ 53 ∷ []) ≡ some 6)
    × (read (48 ∷ 45 ∷ []) ≡ none)
    × (read (51 ∷ 45 ∷ 49 ∷ []) ≡ some 2)
    × (read (49 ∷ 44 ∷ 44 ∷ 50 ∷ []) ≡ none)
    × (read (52 ∷ 50 ∷ 57 ∷ 52 ∷ 57 ∷ 54 ∷ 55 ∷ 50 ∷ 57 ∷ 53 ∷ []) ≡ none)
unfolding possible highest high parse parse_digits split split_once trim_start trim_end take
odd_texts = (refl, refl, refl, refl, refl, refl, refl)

one_digit : (d : ℕ) → d < 10 → IsNumeral (d ∷ [])
one_digit d h = record {
  digits = and_then h no_more;
  not_empty = λ e. absurd (cc);
  small = omega (arith, h);
}

two_digits : (d e : ℕ) → d < 10 → e < 10 → IsNumeral (d ∷ e ∷ [])
two_digits d e h h' = record {
  digits = and_then h (and_then h' no_more);
  not_empty = λ q. absurd (cc);
  small = omega (arith, h, h');
}

abbrev first : Part
first = range (0 ∷ []) (3 ∷ [])

abbrev others : List Part
others = single (8 ∷ []) ∷ range (1 ∷ 2 ∷ []) (1 ∷ 5 ∷ []) ∷ []

first-IsPart : IsPart first
first-IsPart = (one_digit 0 (omega arith), one_digit 3 (omega arith))

others-AreParts : AreParts others
others-AreParts = part_then (one_digit 8 (omega arith)) (
    part_then
      (two_digits 1 2 (omega arith) (omega arith), two_digits 1 5 (omega arith) (omega arith))
      no_part)

possible-file_of_example : possible ascii (some (file_of first others)) ≡ some 16
possible-file_of_example =
    possible-file_of ascii first others first-IsPart others-AreParts (omega arith) refl
      (omega arith)

reads_it : possible ascii (some (53 ∷ [])) ≡ some 6
unfolding possible highest high parse parse_digits split split_once trim_start trim_end take
reads_it = refl

possible-IsU32_example : (0 < 6) × IsU32 6
possible-IsU32_example = possible-IsU32 ascii (some (53 ∷ [])) 6 reads_it
