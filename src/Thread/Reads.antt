-- ===== src/Thread/Reads.antt =====
-- The reads of src/thread.rs, and `prepare_unload`.
use rseq_rs.Base.{
  true, ℕ, ◌≡◌, ◌≢◌, refl, sym, ap, ◌∙◌, ==-self, arith, IsU32, Option, none, some, ◌||◌, ◌==◌,
  ne_of_==, ==-ne, inl, inr, Bool-cases,
}
use rseq_rs.Thread.Promise.{index}
use rseq_rs.Abi.{Area, cpu_uninit, cpu_reg_failed}
use rseq_rs.Machine.{Mem, State, Block}
use rseq_rs.Kernel.{Kernel, interrupt, armed}
use rseq_rs.Thread.{
  cpu_kind, cpu_id_new, cpu_id, fallback_cpu, or_else, CInt, nonneg, negative, cpu, prepare_unload,
}

cpu_id_new-real : (id v : ℕ) → cpu_id_new id ≡ some v → (v ≢ cpu_uninit) × (v ≢ cpu_reg_failed)
unfolding cpu_id_new
cpu_id_new-real id v made = elim (Bool-cases (id == cpu_uninit)) [
  | inl first ↦ let gone : cpu_id_new id ≡ none = rw first refl in absurd (cc)
  | inr one ↦ elim (Bool-cases (id == cpu_reg_failed)) [
    | inl second ↦ let gone : cpu_id_new id ≡ none = rw (one, second) refl in absurd (cc)
    | inr two ↦
        let there : cpu_id_new id ≡ some id = rw (one, two) refl in
        let same : id ≡ v = cc in
        rw⁻¹ same (ne_of_== id cpu_uninit one, ne_of_== id cpu_reg_failed two)
  ]
]

-- `cpu_id` gives the number in the area.
pub cpu_id-same : (a : Area) (v : ℕ) → cpu_id a ≡ some v → a.cpu_id ≡ v
unfolding cpu_id cpu_id_new
cpu_id-same a v made =
    elim (Bool-cases ((a.cpu_id == cpu_uninit) || (a.cpu_id == cpu_reg_failed))) [
      | inl bad ↦ let gone : cpu_id a ≡ none = rw bad refl in absurd (cc)
      | inr good ↦ let there : cpu_id a ≡ some a.cpu_id = rw good refl in cc
    ]

-- On a CPU that `cpu_id` gives, the index is its number.
pub on_index :
    (a : Area) (cpu : ℕ) → IsU32 cpu → cpu_id a ≡ some cpu → (index cpu_kind a == cpu) ≡ true
on_index a cpu fits here =
    let same = cpu_id-same a cpu here in
    let low : index cpu_kind a ≡ cpu = omega (arith, same, fits) in
    ap (λ i. i == cpu) low ∙ ==-self cpu

fallback_cpu-real :
    (got : CInt) (v : ℕ) → fallback_cpu got ≡ some v → (v ≢ cpu_uninit) × (v ≢ cpu_reg_failed)
unfolding fallback_cpu
fallback_cpu-real (nonneg n) v made = cpu_id_new-real n v made
fallback_cpu-real (negative n) v made = absurd (cc)

or_else-real :
    {P : Type 0} (first second : Option ℕ) (v : ℕ)
    → (first ≡ some v → P)
    → (second ≡ some v → P)
    → or_else first second ≡ some v
    → P
or_else-real none second v from_first from_second made = from_second made
or_else-real (some n) second v from_first from_second made = from_first made

-- Whatever the area holds and `sched_getcpu` returns, `cpu` never gives one of the two sentinels.
pub cpu-real :
    (a : Area) (got : CInt) (v : ℕ) → cpu a got ≡ some v → (v ≢ cpu_uninit) × (v ≢ cpu_reg_failed)
unfolding cpu cpu_id
cpu-real a got v made =
    or_else-real (cpu_id_new a.cpu_id) (fallback_cpu got) v (cpu_id_new-real a.cpu_id v)
      (fallback_cpu-real got v) made

module _ (k : Kernel) (desc : ℕ) (blk : Block) where
  -- For a descriptor that is not at address 0: after `prepare_unload` an interruption leaves the
  -- thread where it is, at any place, also inside the section that was armed before.
  pub interrupt-prepare_unload :
      desc ≢ 0
      → (g : Mem → Mem) (a : Area) (s : State)
      → interrupt k desc blk g a (record s { area = prepare_unload s.area })
        ≡ some (record s { area = a; mem = g s.mem })
  unfolding interrupt armed prepare_unload
  interrupt-prepare_unload ne g a s =
      rw (==-ne 0 desc (λ same. ne (sym same)), k.resume_unarmed s.ip) refl
