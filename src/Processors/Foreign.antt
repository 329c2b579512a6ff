-- ===== src/Processors/Foreign.antt =====
-- A call on one processor, while another processor stores.
use mathlib.Core.Path.{subst}
use rseq_rs.Base.{
  ℕ, ◌%◌, ◌^◌, ◌≡◌, refl, sym, ap, ◌∙◌, Bool, true, Option, ◌==◌, arith, inl, inr, if◌then◌else◌,
}
use rseq_rs.Abi.{Area, field_at}
use rseq_rs.Attempt.{Attempt}
use rseq_rs.Machine.{Reg, Mem}
use rseq_rs.Kernel.{Kernel}
use rseq_rs.Section.Check.{is_input}
use rseq_rs.Section.Linearized.{inputs}
use rseq_rs.Section.Interrupt.{IsSection}
use rseq_rs.Section.Direct.{IsDirect, with_words, on_index_of}
use rseq_rs.Section.Foreign.{steps-with_words}
use rseq_rs.System.{Client, Local, save}
use rseq_rs.System.Phase.{Phase, fresh, under_way, decided, Phase-Scratch}

-- The index that the area shows is that of the call.
abbrev pub is_on_index : Client → Area → Bool
is_on_index c a = field_at a c.blk.id_off % 2 ^ 32 % 2 ^ 32 == c.operands Reg.id % 2 ^ 32

inputs-operand : (f g : Reg → ℕ) → inputs f ≡ inputs g → (q : Reg) → is_input q ≡ true → f q ≡ g q
inputs-operand f g same q h =
    subst (λ b. (if b then f q else 0) ≡ (if b then g q else 0)) h (ap (λ r. r q) same)

module _ (c : Client) {k : Kernel} (sec : IsSection k c.desc c.blk c.spec)
    (direct : IsDirect c.blk) where
  -- The words of a direct block are as if the call had done nothing.
  pub Phase-quiet :
      {l : Local} {b w : Mem} {a : Area} {r : Option Attempt} → Phase c l b w a true r → w ≡ b
  Phase-quiet p = elim (Phase-Scratch c sec p) [
    | inl same ↦ same
    | inr (stored, words) ↦ let quiet = direct.quiet in absurd (cc)
  ]

  -- On another index any stores, on its own index stores elsewhere.
  pub Phase-foreign :
      {l : Local} {w : Mem} {a : Area} {r : Option Attempt} (w' : Mem)
      → (is_on_index c a ≡ true
          → (q : Reg) → direct.reads q ≡ true
          → w (c.operands q) ≡ w' (c.operands q))
      → Phase c l w w a true r
      → Phase c l w' w' a true r
  Phase-foreign w' sees (fresh at ins none_yet held) =
      fresh at ins none_yet (λ e. ((held e).0, refl))
  Phase-foreign w' sees (decided le bound out held) = decided le bound out (λ e. refl)
  Phase-foreign {l = l} {w = w} {a = a} w' sees (under_way j f at ins here lt none_yet held) =
      let (same_area, base, now) = held refl in
      let place = ap (λ l. l.ip) here in
      let operand : (q : Reg) → is_input q ≡ true → f.regs q ≡ c.operands q =
        inputs-operand f.regs c.operands ins in
      let on : on_index_of c.blk f ≡ is_on_index c a =
        ap (λ x. field_at x c.blk.id_off % 2 ^ 32 % 2 ^ 32 == f.regs Reg.id % 2 ^ 32) same_area
        ∙ ap (λ y. field_at a c.blk.id_off % 2 ^ 32 % 2 ^ 32 == y % 2 ^ 32) (operand Reg.id refl) in
      let commute = steps-with_words sec direct j f w' at (omega (arith, place)) (λ passed q h.
        let same = operand q (direct.operands_only q h) in
        ap f.mem same
        ∙ (ap (λ m. m (c.operands q)) base ∙ (sees (sym on ∙ passed) q h ∙ ap w' (sym same)))) in
      under_way j (with_words w' f) at ins (ap save commute ∙ here) lt none_yet
        (λ e. (same_area, refl, ap (λ s. s.mem) commute))
