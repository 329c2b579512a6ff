-- ===== src/Thread/Lift.antt =====
-- From the blocks to the operations of the thread.
use rseq_rs.Base.{
  if◌then◌else◌, inl, inr, false, ap, ◌∙◌, ℕ, ◌+◌, ◌*◌, ◌%◌, ◌^◌, ◌≡◌, refl, Option, some, ◌==◌,
  arith, IsU32, IsUsize,
}
use rseq_rs.Abi.{cpu_id_off, mm_cid_off, Area, field_at, sig_x86_64, sig_aarch64}
use rseq_rs.Attempt.{Attempt}
use rseq_rs.Machine.{Reg, Mem, State, Block, attempt}
use rseq_rs.Section.Exec.{Scratch}
use rseq_rs.Section.Linearized.{Spec, inputs, Linearized, Linearized-map}
use rseq_rs.Section.Interrupt.{IsSection}
use rseq_rs.Section.Linear.{call-Linearized}
use rseq_rs.Section.Check.{stores_side}
use rseq_rs.Thread.Promise.{index, Untouched}
use rseq_rs.Cs.{Arch, x86_64, aarch64, World, Call, enter}
use rseq_rs.Thread.{Kind, cpu_kind, cid_kind, off, Result, with_result}

abbrev pub signature : Arch → ℕ
signature x86_64 = sig_x86_64
signature aarch64 = sig_aarch64

-- The area was registered with the signature of the architecture (src/registration.rs passes `SIG`, and
-- so does glibc), and the descriptor has a 64-bit address.
pub record IsSetUp (arch : Arch) (c : Call) : Type 0 where
  pub registered : c.kernel.registered ≡ signature arch
  pub fits : IsUsize c.desc

-- The call of an operation that ran in the world `s` ends, in the world `o` with the result `r`, and
-- all that it did was `promise` at one instant.
pub record TakesEffect (c : Call) (promise : Mem → Area → Mem × Result)
    (scratch : Mem → Mem → Type 0) (s : World) (run : Option (World × Result)) : Type 0 where
  pub world : World
  pub result : Result
  pub returns : run ≡ some (world, result)
  pub linear : Linearized promise scratch world.mem result c.events s.mem s.area

halves-test :
    (x key g : ℕ)
    → IsU32 key
    → (x % 2 ^ 32 % 2 ^ 32 == (key + 2 ^ 32 * g) % 2 ^ 32) ≡ (x % 2 ^ 32 == key)
halves-test x key g h =
    let same : x % 2 ^ 32 % 2 ^ 32 ≡ x % 2 ^ 32 = omega arith in
    let low : (key + 2 ^ 32 * g) % 2 ^ 32 ≡ key = omega arith in
    ap (λ y. y == (key + 2 ^ 32 * g) % 2 ^ 32) same ∙ ap (λ y. x % 2 ^ 32 == y) low

module _ (c : Call) {blk : Block} {spec : Spec} (sec : IsSection c.kernel c.desc blk spec)
    (regs : Reg → ℕ) (s : World) (f : Attempt → Result) where
  pub lift :
      (promise : Mem → Area → Mem × Result) (scratch : Mem → Mem → Type 0)
      → ((m : Mem) (a : Area)
          → ((spec (inputs regs) m a).0 ≡ (promise m a).0)
            × (f (spec (inputs regs) m a).1 ≡ (promise m a).1))
      → ((m m' : Mem) → Scratch blk regs m m' → scratch m m')
      → TakesEffect c promise scratch s (with_result f (enter c blk regs s))
  unfolding enter
  lift promise scratch same wider =
      let start : State = record { ip = 0; zf = c.zf; regs = regs; mem = s.mem; area = s.area } in
      let (t, returned, ended, linear) = call-Linearized sec c.events start refl in
      record {
        world = record { mem = t.mem; area = t.area };
        result = f (attempt blk t);
        returns = rw returned refl;
        linear = Linearized-map f same wider linear;
      }

-- The comparison of the lower halves is that of the index with the key.
pub index-test :
    (k : Kind) (a : Area) (key g : ℕ)
    → IsU32 key
    → (field_at a (off k) % 2 ^ 32 % 2 ^ 32 == (key + 2 ^ 32 * g) % 2 ^ 32) ≡ (index k a == key)
unfolding field_at
index-test cpu_kind a key g h = halves-test a.cpu_id key g h
index-test cid_kind a key g h = halves-test a.mm_cid key g h

-- A block without a store to `side` leaves nothing behind when it is given up.
pub no-Scratch :
    (blk : Block)
    → stores_side blk.code ≡ false
    → (regs : Reg → ℕ) (m m' : Mem) → Scratch blk regs m m'
    → Untouched m m'
no-Scratch blk none_stored regs m m' (inl p) = p
no-Scratch blk none_stored regs m m' (inr (stored, p)) = cc

-- The private functions of the thread pick the offset that the kind of the index has.
pub dispatch {ℓ} :
    {A : Type ℓ} (f : ℕ → A) (k : Kind)
    → (if off k == cpu_id_off then f cpu_id_off else f mm_cid_off) ≡ f (off k)
dispatch f cpu_kind = refl
dispatch f cid_kind = refl
