-- ===== src/Base/Lists.antt =====
-- Lists measured and indexed by native numbers, under the library's names.
use Prim.Native.Nat.{ℕ, zero, suc}
use mathlib.Core.List.{List, [], ◌∷◌, ◌++◌}
use mathlib.Core.Option.{Option, none, some}

module _ {ℓ} {A : Type ℓ} where
  abbrev pub length : List A → ℕ
  length [] = 0
  length (x ∷ xs) = suc (length xs)

  abbrev pub get_elem? : List A → ℕ → Option A
  get_elem? [] i = none
  get_elem? (x ∷ xs) zero = some x
  get_elem? (x ∷ xs) (suc i) = get_elem? xs i

-- Every element satisfies `P`.
pub data All (P : ℕ → Type 0) : List ℕ → Type 0 where
  no_more : All P []
  and_then : {x : ℕ} {xs : List ℕ} → P x → All P xs → All P (x ∷ xs)

pub All-append : {P : ℕ → Type 0} {xs ys : List ℕ} → All P xs → All P ys → All P (xs ++ ys)
All-append no_more b = b
All-append (and_then p rest) b = and_then p (All-append rest b)
