-- ===== src/Cpus/Printed.antt =====
-- The lists of CPUs that sysfs prints (src/cpus.rs parses them), and how numerals, ranges and lists are cut.
use rseq_rs.Base.{
  All, no_more, and_then, All-append, ℕ, ◌+◌, ◌*◌, ◌≤◌, ◌<◌, ◌≡◌, ◌≢◌, refl, false, none, some,
  List, [], ◌∷◌, ◌++◌, ◌==◌, ==-ne, arith, IsU32,
}
use rseq_rs.Cpus.{
  Text, comma, dash, plus, digit, checked, split, split_once, parse_digits, parse, high,
}

abbrev pub IsDigit : ℕ → Type 0
IsDigit d = d < 10

-- The characters of the digits, and the number that they stand for behind `acc`.
abbrev pub numeral : List ℕ → Text
numeral [] = []
numeral (d ∷ ds) = (d + 48) ∷ numeral ds

abbrev pub value : (acc : ℕ) → List ℕ → ℕ
value acc [] = acc
value acc (d ∷ ds) = value (acc * 10 + d) ds

-- A part of the list.
pub data Part : Type 0 where
  single : List ℕ → Part
  range : (low high : List ℕ) → Part

abbrev pub print_part : Part → Text
print_part (single n) = numeral n
print_part (range low high) = numeral low ++ (dash ∷ numeral high)

-- The parts, at least one, with commas between them.
abbrev pub print : Part → List Part → Text
print p [] = print_part p
print p (q ∷ qs) = print_part p ++ (comma ∷ print q qs)

-- One digit at least, and a u32.
pub record IsNumeral (ds : List ℕ) : Type 0 where
  pub digits : All IsDigit ds
  pub not_empty : ds ≢ []
  pub small : IsU32 (value 0 ds)

abbrev pub IsPart : Part → Type 0
IsPart (single n) = IsNumeral n
IsPart (range low high) = IsNumeral low × IsNumeral high

abbrev pub end_of : Part → ℕ
end_of (single n) = value 0 n
end_of (range low high) = value 0 high

value-grows : (acc : ℕ) (ds : List ℕ) → acc ≤ value acc ds
value-grows acc [] = omega arith
value-grows acc (d ∷ ds) = let rest = value-grows (acc * 10 + d) ds in omega (arith, rest)

digit-some : (d : ℕ) → IsDigit d → digit (d + 48) ≡ some d
digit-some d h = ground arith

pub checked-some : (n : ℕ) → IsU32 n → checked n ≡ some n
checked-some n h = ground arith

parse_digits-numeral :
    (acc : ℕ) (ds : List ℕ)
    → All IsDigit ds
    → IsU32 (value acc ds)
    → parse_digits acc (numeral ds) ≡ some (value acc ds)
unfolding parse_digits
parse_digits-numeral acc [] no_more small = refl
parse_digits-numeral acc (d ∷ ds) (and_then h rest) small =
    let grown = value-grows (acc * 10 + d) ds in
    rw
      (
        digit-some d h,
        checked-some (acc * 10) (omega (arith, grown, small)),
        checked-some (acc * 10 + d) (omega (arith, grown, small)),
      )
      (parse_digits-numeral (acc * 10 + d) ds rest small)

not_plus : (d : ℕ) → (d + 48 == plus) ≡ false
not_plus d = ==-ne (d + 48) plus (omega arith)

pub parse-numeral : (ds : List ℕ) → IsNumeral ds → parse (numeral ds) ≡ some (value 0 ds)
unfolding parse
parse-numeral [] n = absurd (n.not_empty refl)
parse-numeral (d ∷ []) n = rw (not_plus d) (parse_digits-numeral 0 (d ∷ []) n.digits n.small)
parse-numeral (d ∷ e ∷ ds) n =
    rw (not_plus d) (parse_digits-numeral 0 (d ∷ e ∷ ds) n.digits n.small)

-- The characters of a list: a digit, a comma or a dash; none is a space.
numeral-All :
    {P : ℕ → Type 0}
    → ((c : ℕ) → 48 ≤ c → c < 58 → P c)
    → {ds : List ℕ} → All IsDigit ds
    → All P (numeral ds)
numeral-All high no_more = no_more
numeral-All high (and_then {x = d} h rest) =
    and_then (high (d + 48) (omega arith) (omega (arith, h))) (numeral-All high rest)

numeral-no_dash : {ds : List ℕ} → All IsDigit ds → All (λ c. c ≢ dash) (numeral ds)
numeral-no_dash = numeral-All (λ c low up. omega (arith, low))

split_once-All : (cs : Text) → All (λ c. c ≢ dash) cs → split_once dash cs ≡ none
unfolding split_once
split_once-All [] no_more = refl
split_once-All (c ∷ cs) (and_then ne rest) = rw (==-ne c dash ne, split_once-All cs rest) refl

split_once-append :
    (cs ds : Text) → All (λ c. c ≢ dash) cs → split_once dash (cs ++ (dash ∷ ds)) ≡ some (cs, ds)
unfolding split_once
split_once-append [] ds no_more = refl
split_once-append (c ∷ cs) ds (and_then ne rest) =
    rw (==-ne c dash ne, split_once-append cs ds rest) refl

pub split-All : (cs : Text) → All (λ c. c ≢ comma) cs → split comma cs ≡ cs ∷ []
unfolding split
split-All [] no_more = refl
split-All (c ∷ cs) (and_then ne rest) = rw (==-ne c comma ne, split-All cs rest) refl

pub split-append :
    (cs ds : Text)
    → All (λ c. c ≢ comma) cs
    → split comma (cs ++ (comma ∷ ds)) ≡ cs ∷ split comma ds
unfolding split
split-append [] ds no_more = refl
split-append (c ∷ cs) ds (and_then ne rest) = rw (==-ne c comma ne, split-append cs ds rest) refl

pub high-print_part : (p : Part) → IsPart p → high (print_part p) ≡ some (end_of p)
unfolding high
high-print_part (single n) is =
    rw (high, split_once-All (numeral n) (numeral-no_dash is.digits)) (parse-numeral n is)
high-print_part (range low up) (is_low, is_up) =
    rw
      (
        high,
        split_once-append (numeral low) (numeral up) (numeral-no_dash is_low.digits),
        parse-numeral low is_low,
      )
      (parse-numeral up is_up)

pub print_part-All :
    {P : ℕ → Type 0}
    → ((c : ℕ) → 48 ≤ c → c < 58 → P c)
    → P dash
    → (p : Part) → IsPart p
    → All P (print_part p)
print_part-All high at_dash (single n) is = numeral-All high is.digits
print_part-All high at_dash (range low up) (is_low, is_up) =
    All-append (numeral-All high is_low.digits) (and_then at_dash (numeral-All high is_up.digits))
