-- ===== src/Machine/Memory.antt =====
-- A word behind a store.
use rseq_rs.Base.{ℕ, ◌≡◌, ◌≢◌, refl, ==-self, ==-ne}
use rseq_rs.Machine.{Mem, write}

pub write-elsewhere : (m : Mem) (a b v : ℕ) → a ≢ b → write m a v b ≡ m b
write-elsewhere m a b v ne = rw (==-ne a b ne) refl

pub write-here : (m : Mem) (a v : ℕ) → write m a v a ≡ v
write-here m a v = rw (==-self a) refl
