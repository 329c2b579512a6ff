-- ===== src/Processors/Progress.antt =====
-- A call that stays on its processor comes to the end of its block, whatever the other processors do.
use mathlib.Core.Path.{subst}
use rseq_rs.Base.{
  ℕ, suc, ◌%◌, ◌^◌, ◌<◌, ◌≤◌, ◌≡◌, ◌≢◌, ◌⊎◌, inl, inr, refl, sym, ap, ◌∙◌, Bool, Option,
  Option-cases, some, none, arith, length, ==-self, ==-ne,
}
use native.Mathlib.Decide.{dec_lt}
use rseq_rs.Abi.{Area, field_at}
use rseq_rs.Attempt.{Attempt}
use rseq_rs.Machine.{Mem, State, step}
use rseq_rs.Kernel.{Kernel, abort_of, interrupt}
use rseq_rs.Section.Interrupt.{IsSection}
use rseq_rs.Section.Direct.{IsDirect}
use rseq_rs.Section.Settle.{order}
use rseq_rs.Section.Step.{step-forward, step-end}
use rseq_rs.Section.Runs.{steps-ip}
use rseq_rs.System.{Client, Local, System, load_local, save, set_local, execute, switch, move}
use rseq_rs.System.Phase.{Phase, fresh, under_way, decided}
use rseq_rs.Processors.{Processors, seen_by, with_processor, execute_on, Switch}
use rseq_rs.Processors.Invariant.{Stores, Separate, Inv, Switch-Inv, line-Inv}

module _ (c : Client) {k : Kernel} (sec : IsSection k c.desc c.blk c.spec) where
  abbrev pub Forward : (here there : ℕ) → Type 0
  Forward here there =
      ((here < there) × (there ≤ length c.blk.code))
      ⊎ ((here ≡ length c.blk.code) × (there ≡ length c.blk.code))

  line-Forward :
      (s : State)
      → abort_of c.blk ≤ s.ip
      → s.ip ≤ length c.blk.code
      → Forward s.ip (step c.desc c.blk s).ip
  line-Forward s le bound = elim (dec_lt s.ip (length c.blk.code)) [
    | yes lt ↦ inl (step-forward c.desc c.blk sec.checked s le lt)
    | no out ↦
        let ended : s.ip ≡ length c.blk.code = omega arith in
        inr (ended, ap (λ u. u.ip) (step-end c.desc c.blk s (omega arith)) ∙ ended)
  ]

  -- A line leads on, as long as there is one.
  pub Phase-Forward :
      {l : Local} {b : Mem} {a : Area} {on : Bool} {r : Option Attempt} {v : Mem} (w : Mem)
      → Phase c l b v a on r
      → Forward l.ip (step c.desc c.blk (load_local w l)).ip
  Phase-Forward {l = l} w (fresh at ins none_yet held) = inl (
    omega
        (arith, at, ap (λ u. u.ip) (sec.enters (load_local w l) at), sec.entry_outside, order sec),
    omega (arith, ap (λ u. u.ip) (sec.enters (load_local w l) at), order sec),
  )
  Phase-Forward {l = l} w (under_way j f at ins here lt none_yet held) =
      let place = ap (λ l. l.ip) here in
      let early = steps-ip c.desc c.blk sec.checked j f (omega arith) in
      line-Forward (load_local w l) (omega (arith, place)) (omega (arith, order sec))
  Phase-Forward {l = l} w (decided le bound out held) =
      line-Forward (load_local w l) (omega (arith, order sec)) bound

  pub Phase-bound :
      {l : Local} {b w : Mem} {a : Area} {on : Bool} {r : Option Attempt}
      → Phase c l b w a on r
      → l.ip ≤ length c.blk.code
  Phase-bound (fresh at ins none_yet held) = omega arith
  Phase-bound (under_way j f at ins here lt none_yet held) = omega (arith, order sec)
  Phase-bound (decided le bound out held) = bound

-- A switch leaves the other calls alone.
switch-locals :
    (k : Kernel) (calls : ℕ → Client) (j : ℕ) (a : Area) (s u : System)
    → move k calls (switch j a) s ≡ some u
    → (i : ℕ) → j ≢ i
    → u.locals i ≡ s.locals i
unfolding move
switch-locals k calls j a s u moved i ne =
    let c = calls j in
    elim (Option-cases (interrupt k c.desc c.blk (λ m. m) a (load_local s.words (s.locals j)))) [
      | inl gone ↦ let killed : move k calls (switch j a) s ≡ none = rw gone refl in absurd (cc)
      | inr (t, there) ↦
          let v : System = record {
            words = t.mem;
            running = j;
            given = a;
            locals = set_local s.locals j (save t);
            log = s.log;
          } in
          let resumed : move k calls (switch j a) s ≡ some v = rw there refl in
          let same : v ≡ u = cc in
          let kept : v.locals i ≡ s.locals i = rw (==-ne j i ne) refl in
          ap (λ (x : System). x.locals i) (sym same) ∙ kept
    ]

-- `n` lines of processor `p`, and any lines and switches of the others.
module _ (k : Kernel) (calls : ℕ → Client) (index : Area → ℕ) (cpus p : ℕ) where
  pub data Stays (s : Processors) : ℕ → Processors → Type 0 where
    here : Stays s 0 s
    own_line :
        {n : ℕ} {t : Processors} → Stays s n t → Stays s (suc n) (execute_on k calls index cpus p t)
    other_line :
        {n : ℕ} {t : Processors} (q : ℕ)
        → q < cpus
        → q ≢ p
        → Stays s n t
        → Stays s n (execute_on k calls index cpus q t)
    other_switch :
        {n : ℕ} {t : Processors} {u : System} (q j : ℕ) (a : Area)
        → q ≢ p
        → Stays s n t
        → Switch k calls index cpus q j a t u
        → Stays s n (with_processor q u t)

module _ {k : Kernel} (calls : ℕ → Client) (index : Area → ℕ) (cpus : ℕ)
    (secs : (i : ℕ) → IsSection k (calls i).desc (calls i).blk (calls i).spec)
    (direct : (i : ℕ) → IsDirect (calls i).blk)
    (shows : (i : ℕ) (a : Area) → field_at a (calls i).blk.id_off % 2 ^ 32 % 2 ^ 32 ≡ index a)
    (stores : (i : ℕ) → Stores (calls i))
    (apart : Separate calls index cpus secs direct shows stores) where
  abbrev Holds : Mem → Processors → Type 0
  Holds = Inv calls index cpus secs direct shows stores

  -- The call of processor `p` is the same, and `n` lines on, or at its end.
  pub record Gone (s : Processors) (p n : ℕ) (t : Processors) : Type 0 where
    pub same : t.running p ≡ s.running p
    pub far :
        (n ≤ (t.locals (s.running p)).ip)
        ⊎ ((t.locals (s.running p)).ip ≡ length (calls (s.running p)).blk.code)

  module _ (p : ℕ) (within : p < cpus) {m : Mem} (s : Processors) (inv : Holds m s) where
    pub Stays-Inv : {n : ℕ} {t : Processors} → Stays k calls index cpus p s n t → Holds m t
    Stays-Inv here = inv
    Stays-Inv (own_line {t = t} r) =
        line-Inv calls index cpus secs direct shows stores t (Stays-Inv r) apart p within
    Stays-Inv (other_line {t = t} q in_range ne r) =
        line-Inv calls index cpus secs direct shows stores t (Stays-Inv r) apart q in_range
    Stays-Inv (other_switch {t = t} {u = u} q j a ne r turn) =
        Switch-Inv calls index cpus secs direct shows stores t (Stays-Inv r) q j a u turn

    further :
        (i n ip ip' : ℕ)
        → (n ≤ ip) ⊎ (ip ≡ length (calls i).blk.code)
        → Forward (calls i) (secs i) ip ip'
        → (suc n ≤ ip') ⊎ (ip' ≡ length (calls i).blk.code)
    further i n ip ip' (inl far) (inl (ahead, bound)) = inl (omega arith)
    further i n ip ip' (inr end) (inl (ahead, bound)) = absurd (omega arith)
    further i n ip ip' far (inr (end, still)) = inr still

    pub Stays-Gone : {n : ℕ} {t : Processors} → Stays k calls index cpus p s n t → Gone s p n t
    unfolding execute
    Stays-Gone here = record { same = refl; far = inl (omega arith) }
    Stays-Gone (own_line {n = n} {t = t} r) =
        let before = Stays-Gone r in
        let now = Stays-Inv r in
        let i = s.running p in
        let phase =
          subst
            (λ i.
              Forward (calls i) (secs i) (t.locals i).ip
                (step (calls i).desc (calls i).blk (load_local t.words (t.locals i))).ip)
            before.same
            (Phase-Forward (calls (t.running p)) (secs (t.running p)) t.words (now.on p within)) in
        record {
          same = rw (==-self p) before.same;
          far = rw (before.same, ==-self i) (further i n (t.locals i).ip _ before.far phase);
        }
    Stays-Gone (other_line {n = n} {t = t} q in_range ne r) =
        let before = Stays-Gone r in
        let now = Stays-Inv r in
        let other : t.running q ≢ s.running p =
          λ e. now.distinct q p in_range within ne (before.same ∙ sym e) in
        record {
          same = rw (==-ne q p ne) before.same;
          far = rw (==-ne (t.running q) (s.running p) other) before.far;
        }
    Stays-Gone (other_switch {n = n} {t = t} {u = u} q j a ne r turn) =
        let before = Stays-Gone r in
        let other : j ≢ s.running p = λ e. turn.free p within ne (before.same ∙ sym e) in
        record {
          same = rw (==-ne q p ne) before.same;
          far =
              subst (λ l. (n ≤ l.ip) ⊎ (l.ip ≡ length (calls (s.running p)).blk.code))
                (sym (switch-locals k calls j a (seen_by q t) u turn.resumed (s.running p) other))
                before.far;
        }

    -- As many lines as the block has are enough.
    pub Stays-ended :
        {n : ℕ} {t : Processors}
        → Stays k calls index cpus p s n t
        → length (calls (s.running p)).blk.code ≤ n
        → (t.running p ≡ s.running p)
          × ((t.locals (s.running p)).ip ≡ length (calls (s.running p)).blk.code)
    Stays-ended {t = t} r enough =
        let gone = Stays-Gone r in
        let now = Stays-Inv r in
        (
          gone.same,
          elim (gone.far) [
            | inr end ↦ end
            | inl far ↦
                let bound =
                  Phase-bound (calls (s.running p)) (secs (s.running p)) (now.away (s.running p)) in
                omega arith
          ],
        )
