-- ===== src/Base/Options.antt =====
-- The chain of fallible steps, for `?` on an `Option`.
use mathlib.Core.Option.{Option, none, some}

infixl 25 ◌>>=◌
abbrev pub ◌>>=◌ {ℓ ℓ'} : {A : Type ℓ} {B : Type ℓ'} → Option A → (A → Option B) → Option B
none >>= f = none
some a >>= f = f a
