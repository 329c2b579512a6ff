-- ===== src/Section/Lines.antt =====
-- The lines of a block by their positions, and what the check of the block says of each.
use rseq_rs.Base.{
  none, ◌≤◌, ℕ, zero, suc, ◌+◌, ◌≤◌, ◌<◌, ◌≡◌, refl, Bool, true, false, ◌&&◌, ◌||◌, some, List, [],
  ◌∷◌, arith, ltb, length, get_elem?,
}
use rseq_rs.Machine.{Insn, label, find_label}
use rseq_rs.Section.Check.{is_side_store, stores_side, line_ok, lines_ok}

pub find_label-le : (is : List Insn) (l : ℕ) → find_label is l ≤ length is
unfolding find_label
find_label-le [] l = omega arith
find_label-le (label k ∷ is) l = ground (arith, find_label-le is l)
find_label-le (i ∷ is) l = omega (arith, find_label-le is l)

pub get_elem?-none : (is : List Insn) (p : ℕ) → length is ≤ p → get_elem? is p ≡ none
get_elem?-none [] p h = refl
get_elem?-none (j ∷ is) zero h = absurd (omega arith)
get_elem?-none (j ∷ is) (suc p) h = get_elem?-none is p (omega arith)

or-left : (a b : Bool) → a ≡ true → (a || b) ≡ true
or-left a b h = ground arith

or-right : (a b : Bool) → b ≡ true → (a || b) ≡ true
or-right a b h = ground arith

pub stores_side-get :
    (is : List Insn) (p : ℕ) {i : Insn}
    → get_elem? is p ≡ some i
    → is_side_store i ≡ true
    → stores_side is ≡ true
stores_side-get [] p e h = cc
stores_side-get (j ∷ is) zero {i} e h =
    let same : i ≡ j = cc in or-left (is_side_store j) _ (rw (← same) h)
stores_side-get (j ∷ is) (suc p) e h = or-right (is_side_store j) _ (stores_side-get is p e h)

pub and-left : (a b : Bool) → (a && b) ≡ true → a ≡ true
and-left a b h = ground arith

pub get_elem?-lt : (is : List Insn) (p : ℕ) {i : Insn} → get_elem? is p ≡ some i → p < length is
get_elem?-lt [] p h = cc
get_elem?-lt (j ∷ is) zero h = omega arith
get_elem?-lt (j ∷ is) (suc p) h = omega (arith, get_elem?-lt is p h)

pub get_elem?-some :
    (is : List Insn) (p : ℕ) → p < length is → (i : Insn) × (get_elem? is p ≡ some i)
get_elem?-some [] p h = elim h [ ]
get_elem?-some (j ∷ is) zero h = (j, refl)
get_elem?-some (j ∷ is) (suc p) h = get_elem?-some is p (omega arith)

or-skip : (a b c : Bool) → a ≡ false → ((a || b) && c) ≡ true → b ≡ true
or-skip a b c e h = ground arith

pub and-right : (a b : Bool) → (a && b) ≡ true → b ≡ true
and-right a b h = ground arith

pub line_ok-get :
    (code is : List Insn) (st co from q p r : ℕ) {i : Insn}
    → lines_ok code st co from q is ≡ true
    → get_elem? is p ≡ some i
    → from ≤ r
    → q + p ≡ r
    → line_ok code st co r i ≡ true
unfolding lines_ok
line_ok-get code [] st co from q p r h e le eq = cc
line_ok-get code (j ∷ is) st co from q zero r {i} h e le eq =
    let here : r ≡ q = omega arith in
    let same : i ≡ j = cc in
    rw (here, same) (or-skip (ltb q from) (line_ok code st co q j) _ (ground arith) h)
line_ok-get code (j ∷ is) st co from q (suc p) r h e le eq =
    line_ok-get code is st co from (suc q) p r (and-right _ _ h) e le (omega arith)
