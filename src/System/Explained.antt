-- ===== src/System/Explained.antt =====
-- Whatever the kernel does, the calls of a processor take effect one after another.
use mathlib.Core.Path.{subst}
use rseq_rs.Base.{
  ℕ, ◌≡◌, refl, ap, ◌∙◌, Bool, true, Option, some, List, [], ◌∷◌, ◌==◌, if◌then◌else◌, arith,
  length, by_self, ==-self,
}
use rseq_rs.Abi.{Area}
use rseq_rs.Attempt.{Attempt}
use rseq_rs.Machine.{Mem, step, attempt}
use rseq_rs.Kernel.{Kernel, finish}
use rseq_rs.Section.Exec.{Scratch}
use rseq_rs.Section.Runs.{steps-out}
use rseq_rs.Section.Linearized.{inputs}
use rseq_rs.Section.Interrupt.{IsSection}
use rseq_rs.Section.Settle.{order}
use rseq_rs.System.{
  Client, Local, Entry, System, load_local, save, set_local, Move, line, switch, execute, move,
  moves, begin, outcome_of,
}
use rseq_rs.System.Phase.{Phase, fresh, under_way, decided, Phase-off, Phase-Scratch, resume-Phase}
use rseq_rs.System.Line.{goes_on, commits, line-Phase}
use rseq_rs.System.Replays.{Replays, nothing, given_up, takes}

module _ {k : Kernel} (calls : ℕ → Client)
    (secs : (i : ℕ) → IsSection k (calls i).desc (calls i).blk (calls i).spec) where
  abbrev pub History : Mem → List Entry → Mem → Type 0
  History =
      Replays (λ i o. o) (λ i. (calls i).spec (inputs (calls i).operands))
        (λ i. Scratch (calls i).blk (inputs (calls i).operands))

  record Inv (m₀ : Mem) (s : System) : Type 0 where
    base : Mem
    replays : History m₀ s.log base
    phases :
        (i : ℕ)
        → Phase (calls i) (s.locals i) base s.words s.given (s.running == i) (outcome_of i s.log)

  module _ {m₀ : Mem} (s : System) (inv : Inv m₀ s) where
    own_phase :
        Phase
          (calls s.running)
          (s.locals s.running)
          inv.base
          s.words
          s.given
          true
          (outcome_of s.running s.log)
    own_phase =
        subst
          (λ on.
            Phase (calls s.running) (s.locals s.running) inv.base s.words s.given on
              (outcome_of s.running s.log))
          (==-self s.running) (inv.phases s.running)

    words-History : History m₀ s.log s.words
    words-History =
        given_up s.running inv.replays (Phase-Scratch (calls s.running) (secs s.running) own_phase)

    execute-Inv : Inv m₀ (execute k calls s)
    unfolding execute
    execute-Inv =
        let i = s.running in
        let c = calls i in
        let before = load_local s.words (s.locals i) in
        let t = step c.desc c.blk before in
        let out = attempt c.blk (finish c.desc c.blk t) in
        elim (line-Phase c (secs i) own_phase) [
          | goes_on stays p ↦ record {
            base = inv.base;
            replays = rw stays inv.replays;
            phases = rw stays (
                by_self i
                  (λ j on.
                    Phase (calls j) (if on then save t else s.locals j) inv.base t.mem s.given on
                      (outcome_of j s.log))
                  p (λ j ne. Phase-off (calls j) (inv.phases j)));
          }
          | commits over first result p ↦ record {
            base = (c.spec (inputs c.operands) inv.base s.given).0;
            replays = rw over (takes inv.replays first refl result);
            phases = rw over (
                by_self i
                  (λ j on.
                    Phase (calls j) (if on then save t else s.locals j)
                      (c.spec (inputs c.operands) inv.base s.given).0 t.mem s.given on
                      (if on then some out else outcome_of j s.log))
                  p (λ j ne. Phase-off (calls j) (inv.phases j)));
          }
        ]

    move-Inv : (m : Move) → (t : System) × (move k calls m s ≡ some t) × Inv m₀ t
    unfolding move
    move-Inv line = (execute k calls s, refl, execute-Inv)
    move-Inv (switch j a) =
        let r = resume-Phase (calls j) (secs j) s.words a (inv.phases j) in
        let t : System = record {
          words = r.state.mem;
          running = j;
          given = a;
          locals = set_local s.locals j (save r.state);
          log = s.log;
        } in
        let inv' : Inv m₀ t = record {
          base = s.words;
          replays = words-History;
          phases = rw (r.kept) (
              by_self j
                (λ i on.
                  Phase (calls i) (if on then save r.state else s.locals i) s.words s.words a on
                    (outcome_of i s.log))
                r.phase (λ i ne. Phase-off (calls i) (inv.phases i)));
        } in
        (t, rw (r.resumed) refl, inv')

  moves-Inv :
      (ms : List Move) {m₀ : Mem} (s : System)
      → Inv m₀ s
      → (t : System) × (moves k calls ms s ≡ some t) × Inv m₀ t
  unfolding moves
  moves-Inv [] s inv = (s, refl, inv)
  moves-Inv (m ∷ ms) s inv =
      let (u, one, inv') = move-Inv s inv m in
      let (t, more, inv'') = moves-Inv ms u inv' in (t, rw (moves, one) more, inv'')

  begin-Inv : (m : Mem) (i : ℕ) (a : Area) → Inv m (begin k calls m i a)
  begin-Inv m i a = record {
    base = m;
    replays = nothing;
    phases = λ j. fresh refl refl refl (λ e. (refl, refl));
  }

  -- The words of the system and what its calls have returned.
  pub record Explained (m₀ : Mem) (s : System) : Type 0 where
    pub replays : History m₀ s.log s.words
    pub returned :
        (i : ℕ)
        → (s.locals i).ip ≡ length (calls i).blk.code
        → outcome_of i s.log ≡ some (attempt (calls i).blk (load_local s.words (s.locals i)))

  pub returned-Phase :
      (i : ℕ) {l : Local} {b w : Mem} {a : Area} {on : Bool} {r : Option Attempt} (m : Mem)
      → Phase (calls i) l b w a on r
      → l.ip ≡ length (calls i).blk.code
      → r ≡ some (attempt (calls i).blk (load_local m l))
  unfolding finish
  returned-Phase i m (fresh at ins none_yet held) ended = absurd (omega (arith, order (secs i)))
  returned-Phase i m (under_way j f at ins here lt none_yet held) ended =
      absurd (omega (arith, order (secs i)))
  returned-Phase i {l = l} m (decided le bound out held) ended =
      let c = calls i in
      out m
      ∙ ap (λ t. some (attempt c.blk t))
          (steps-out c.desc c.blk (secs i).checked (length c.blk.code) (load_local m l)
            (omega arith))

  pub moves-Explained :
      (ms : List Move) (m : Mem) (i : ℕ) (a : Area)
      → (t : System) × (moves k calls ms (begin k calls m i a) ≡ some t) × Explained m t
  moves-Explained ms m i a =
      let (t, ran, inv) = moves-Inv ms (begin k calls m i a) (begin-Inv m i a) in
      (
        t,
        ran,
        record {
          replays = words-History t inv;
          returned = λ j. returned-Phase j t.words (inv.phases j);
        },
      )
