-- ===== src/Cpus/RoundTrip.antt =====
-- src/cpus.rs reads what sysfs prints.
use rseq_rs.Base.{
  All, no_more, and_then, All-append, ℕ, zero, suc, ◌+◌, ◌^◌, ◌≤◌, ◌<◌, ◌≡◌, ◌≢◌, refl, sym, ap,
  ◌∙◌, ◌>>=◌, ltb, lt_of_ltb, if◌then◌else◌, inl, inr, Bool-cases, Option-cases, false, Option,
  none, some, List, [], ◌∷◌, ◌++◌, length, arith, IsU32,
}
use rseq_rs.Cpus.{
  Text, comma, is_space, checked, split, trim_start, trim_end, trim, take, max, highest, is_empty,
  possible,
}
use rseq_rs.Cpus.Printed.{
  Part, single, range, print_part, print, IsPart, end_of, checked-some, split-All, split-append,
  high-print_part, print_part-All,
}

-- The parts of a list, all of which are as printed.
pub data AreParts : List Part → Type 0 where
  no_part : AreParts []
  part_then : {p : Part} {ps : List Part} → IsPart p → AreParts ps → AreParts (p ∷ ps)

-- The highest end, from `top` on.
abbrev pub last_of : (top : ℕ) → Part → List Part → ℕ
last_of top p [] = max top (end_of p)
last_of top p (q ∷ qs) = last_of (max top (end_of p)) q qs

abbrev newline : ℕ
newline = 10

-- What the file holds.
abbrev pub file_of : Part → List Part → Text
file_of p qs = print p qs ++ (newline ∷ [])

abbrev NotSpace : ℕ → Type 0
NotSpace c = is_space c ≡ false

digit-NotSpace : (c : ℕ) → 48 ≤ c → c < 58 → NotSpace c
digit-NotSpace c low up = ground arith

print-NotSpace : (p : Part) (qs : List Part) → IsPart p → AreParts qs → All NotSpace (print p qs)
print-NotSpace p [] is no_part = print_part-All digit-NotSpace refl p is
print-NotSpace p (q ∷ qs) is (part_then is_q rest) =
    All-append (print_part-All digit-NotSpace refl p is)
      (and_then refl (print-NotSpace q qs is_q rest))

trim_end-line : (cs : Text) → All NotSpace cs → trim_end (cs ++ (newline ∷ [])) ≡ cs
unfolding trim_end
trim_end-line [] no_more = refl
trim_end-line (c ∷ []) (and_then here no_more) = rw here refl
trim_end-line (c ∷ d ∷ cs) (and_then here rest) = rw (trim_end-line (d ∷ cs) rest) refl

trim-line : (cs : Text) → All NotSpace cs → trim (cs ++ (newline ∷ [])) ≡ cs
unfolding trim_start trim_end
trim-line [] no_more = trim_end-line [] no_more
trim-line (c ∷ cs) (and_then here rest) = rw here (trim_end-line (c ∷ cs) (and_then here rest))

take-short : (n : ℕ) (cs : Text) → length cs ≤ n → take n cs ≡ cs
unfolding take
take-short zero [] short = refl
take-short zero (c ∷ cs) short = absurd (omega (arith, short))
take-short (suc n) [] short = refl
take-short (suc n) (c ∷ cs) short = ap (λ ds. c ∷ ds) (take-short n cs (omega (arith, short)))

print-is_empty : (p : Part) (qs : List Part) → IsPart p → is_empty (print p qs) ≡ false
print-is_empty (single []) qs is = absurd (is.not_empty refl)
print-is_empty (single (d ∷ ds)) [] is = refl
print-is_empty (single (d ∷ ds)) (q ∷ qs) is = refl
print-is_empty (range [] up) qs (is, _) = absurd (is.not_empty refl)
print-is_empty (range (d ∷ ds) up) [] is = refl
print-is_empty (range (d ∷ ds) up) (q ∷ qs) is = refl

print_part-no_comma : (p : Part) → IsPart p → All (λ c. c ≢ comma) (print_part p)
print_part-no_comma = print_part-All (λ c low up. omega (arith, low)) (omega arith)

highest-print :
    (top : ℕ) (p : Part) (qs : List Part)
    → IsPart p
    → AreParts qs
    → highest top (split comma (print p qs)) ≡ some (last_of top p qs)
unfolding highest
highest-print top p [] is no_part =
    rw (split-All (print_part p) (print_part-no_comma p is), highest, high-print_part p is) refl
highest-print top p (q ∷ qs) is (part_then is_q rest) =
    rw
      (
        split-append (print_part p) (print q qs) (print_part-no_comma p is),
        highest,
        high-print_part p is,
      )
      (highest-print (max top (end_of p)) q qs is_q rest)

-- For a file that holds a list of numbers and ranges, at least one, in decimal digits, each a u32, with
-- commas between them and a newline behind them, in 256 bytes at most that decode to themselves: the
-- count is the highest end of a range plus one, if that is a u32.
pub possible-file_of :
    (from_utf8 : Text → Option Text) (p : Part) (qs : List Part)
    → IsPart p
    → AreParts qs
    → length (file_of p qs) ≤ 256
    → from_utf8 (file_of p qs) ≡ some (file_of p qs)
    → IsU32 (last_of 0 p qs + 1)
    → possible from_utf8 (some (file_of p qs)) ≡ some (last_of 0 p qs + 1)
unfolding possible
possible-file_of from_utf8 p qs is are short decoded small =
    rw
      (
        take-short 256 (file_of p qs) short,
        decoded,
        trim-line (print p qs) (print-NotSpace p qs is are),
        print-is_empty p qs is,
        highest-print 0 p qs is are,
      )
      (checked-some (last_of 0 p qs + 1) small)

checked-IsCount :
    (top : Option ℕ) (n : ℕ) → (top >>= λ t. checked (t + 1)) ≡ some n → (0 < n) × IsU32 n
checked-IsCount none n made = absurd (cc)
checked-IsCount (some t) n made = elim (Bool-cases (ltb (t + 1) (2 ^ 32))) [
  | inl fits ↦
      let there : checked (t + 1) ≡ some (t + 1) = rw fits refl in
      let same : t + 1 ≡ n = cc in
      let below = lt_of_ltb (t + 1) (2 ^ 32) fits in
      (omega (arith, same), omega (arith, same, below))
  | inr over ↦ let gone : checked (t + 1) ≡ none = rw over refl in absurd (cc)
]

-- Whatever the file holds, a count is a u32 and not 0.
pub possible-IsU32 :
    (from_utf8 : Text → Option Text) (file : Option Text) (n : ℕ)
    → possible from_utf8 file ≡ some n
    → (0 < n) × IsU32 n
unfolding possible
possible-IsU32 from_utf8 none n made = absurd (cc)
possible-IsU32 from_utf8 (some bytes) n made = elim (Option-cases (from_utf8 (take 256 bytes))) [
  | inl bad ↦ let gone : possible from_utf8 (some bytes) ≡ none = rw bad refl in absurd (cc)
  | inr (decoded, good) ↦
      let raw = trim decoded in
      let top = if is_empty raw then none else highest 0 (split comma raw) in
      let there : possible from_utf8 (some bytes) ≡ (top >>= λ t. checked (t + 1)) = rw good refl in
      checked-IsCount top n (sym there ∙ made)
]
