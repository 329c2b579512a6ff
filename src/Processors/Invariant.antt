-- ===== src/Processors/Invariant.antt =====
-- What holds at every moment of several processors, whatever the kernel does.
use mathlib.Core.Path.{subst}
use rseq_rs.Base.{
  ◌<◌, ℕ, ◌%◌, ◌^◌, ◌≡◌, ◌≢◌, refl, sym, ap, ◌∙◌, inl, inr, true, false, some, List, ◌∷◌,
  if◌then◌else◌, by_self, eq_of_==, ==-self, ==-ne, Bool-cases,
}
use rseq_rs.Abi.{Area, field_at}
use rseq_rs.Machine.{Reg, Mem, step, attempt}
use rseq_rs.Kernel.{Kernel, finish}
use rseq_rs.Section.Linearized.{inputs}
use rseq_rs.Section.Interrupt.{IsSection}
use rseq_rs.Section.Direct.{IsDirect}
use rseq_rs.System.{
  Client, Local, Entry, System, load_local, save, set_local, switch, execute, move, outcome_of,
}
use rseq_rs.System.Phase.{Phase, Phase-off, resume-Phase}
use rseq_rs.System.Line.{goes_on, commits, line-Phase}
use rseq_rs.System.Replays.{takes}
use rseq_rs.System.Explained.{History}
use rseq_rs.Processors.{Processors, seen_by, set_at, with_processor, execute_on, Switch}
use rseq_rs.Processors.Foreign.{is_on_index, Phase-quiet, Phase-foreign}

-- What a call does to the words: nothing on another index, and on its own a store to its word.
pub record Stores (c : Client) : Type 0 where
  pub off_index :
      (m : Mem) (a : Area) → is_on_index c a ≡ false → (c.spec (inputs c.operands) m a).0 ≡ m
  pub elsewhere :
      (m : Mem) (a : Area) (x : ℕ)
      → x ≢ c.operands Reg.word
      → (c.spec (inputs c.operands) m a).0 x ≡ m x

module _ {k : Kernel} (calls : ℕ → Client) (index : Area → ℕ) (cpus : ℕ)
    (secs : (i : ℕ) → IsSection k (calls i).desc (calls i).blk (calls i).spec)
    (direct : (i : ℕ) → IsDirect (calls i).blk)
    (shows : (i : ℕ) (a : Area) → field_at a (calls i).blk.id_off % 2 ^ 32 % 2 ^ 32 ≡ index a)
    (stores : (i : ℕ) → Stores (calls i)) where
  -- The index that a call is for.
  abbrev pub key : ℕ → ℕ
  key i = (calls i).operands Reg.id % 2 ^ 32

  -- Calls for different indices have different words.
  abbrev pub Separate : Type 0
  Separate =
      (i j : ℕ)
      → key i ≢ key j
      → (q : Reg) → (direct j).reads q ≡ true
      → (calls i).operands Reg.word ≢ (calls j).operands q

  key-placed : (i : ℕ) (a : Area) → is_on_index (calls i) a ≡ true → key i ≡ index a
  key-placed i a here = sym (eq_of_== _ _ here) ∙ shows i a

  pub record Inv (m₀ : Mem) (s : Processors) : Type 0 where
    pub replays : History calls secs m₀ s.log s.words
    pub placed : (p : ℕ) → p < cpus → index (s.given p) ≡ p
    pub distinct : (p q : ℕ) → p < cpus → q < cpus → p ≢ q → s.running q ≢ s.running p
    pub on :
        (p : ℕ)
        → p < cpus
        → Phase
            (calls (s.running p))
            (s.locals (s.running p))
            s.words
            s.words
            (s.given p)
            true
            (outcome_of (s.running p) s.log)
    pub away :
        (i : ℕ)
        → Phase (calls i) (s.locals i) s.words s.words (s.given 0) false (outcome_of i s.log)

  module _ {m₀ : Mem} (s : Processors) (inv : Inv m₀ s) where
    -- Processor `p` goes on with call `i`, and the calls of the others stay where they are.
    update-Inv :
        (p i : ℕ) (a : Area) (w : Mem) (l : Local) (log : List Entry)
        → p < cpus
        → index a ≡ p
        → ((q : ℕ) → q < cpus → p ≢ q → s.running q ≢ i)
        → History calls secs m₀ log w
        → ((j : ℕ) → i ≢ j → outcome_of j log ≡ outcome_of j s.log)
        → Phase (calls i) l w w a true (outcome_of i log)
        → ((q : ℕ)
            → q < cpus
            → p ≢ q
            → Phase
                (calls (s.running q))
                (s.locals (s.running q))
                w
                w
                (s.given q)
                true
                (outcome_of (s.running q) s.log))
        → Inv m₀ (record {
          words = w;
          running = set_at s.running p i;
          given = set_at s.given p a;
          locals = set_local s.locals i l;
          log = log;
        })
    update-Inv p i a w l log here at free replays same own others = record {
      replays = replays;
      placed =
          by_self p (λ q b. q < cpus → index (if b then a else s.given q) ≡ q) (λ in_range. at)
            (λ q ne in_range. inv.placed q in_range);
      distinct =
          by_self p
            (λ q b.
              (q' : ℕ)
              → q < cpus
              → q' < cpus
              → q ≢ q'
              → set_at s.running p i q' ≢ (if b then i else s.running q))
            (λ q' in_range in_range' ne. rw (==-ne p q' ne) (free q' in_range' ne))
            (λ q ne.
              by_self p
                (λ q' b.
                  q < cpus → q' < cpus → q ≢ q' → (if b then i else s.running q') ≢ s.running q)
                (λ in_range in_range' apart e. free q in_range ne (sym e))
                (λ q' ne' in_range in_range' apart. inv.distinct q q' in_range in_range' apart));
      on =
          by_self p
            (λ q b.
              q < cpus
              → Phase (calls (if b then i else s.running q))
                  (set_local s.locals i l (if b then i else s.running q)) w w
                  (if b then a else s.given q) true (outcome_of (if b then i else s.running q) log))
            (λ in_range. rw (==-self i) own)
            (λ q ne in_range.
              let other : i ≢ s.running q = λ e. free q in_range ne (sym e) in
              rw (==-ne i (s.running q) other, same (s.running q) other) (others q in_range ne));
      away =
          by_self i
            (λ j b.
              Phase (calls j) (if b then l else s.locals j) w w (set_at s.given p a 0) false
                (outcome_of j log))
            (Phase-off (calls i) own) (λ j ne. rw (same j ne) (Phase-off (calls j) (inv.away j)));
    }

    pub Switch-Inv :
        (p j : ℕ) (a : Area) (t : System)
        → Switch k calls index cpus p j a s t
        → Inv m₀ (with_processor p t s)
    unfolding move
    Switch-Inv p j a t turn =
        let r = resume-Phase (calls j) (secs j) s.words a (inv.away j) in
        let u : System = record {
          words = r.state.mem;
          running = j;
          given = a;
          locals = set_local s.locals j (save r.state);
          log = s.log;
        } in
        let there : move k calls (switch j a) (seen_by p s) ≡ some u = rw (r.resumed) refl in
        let found = turn.resumed in
        let same : u ≡ t = cc in
        subst (λ t. Inv m₀ (with_processor p t s)) same
          (update-Inv p j a r.state.mem (save r.state) s.log turn.within turn.placed turn.free
            (rw (r.kept) inv.replays) (λ i ne. refl) (rw (r.kept) r.phase)
            (λ q in_range ne. rw (r.kept) (inv.on q in_range)))

    module _ (apart : Separate) where
      -- What processor `p` stores is not read by the call of processor `q` before its commit.
      unseen :
          (p q : ℕ)
          → p < cpus
          → q < cpus
          → p ≢ q
          → (w : Mem)
          → w
            ≡ ((calls (s.running p)).spec
                (inputs (calls (s.running p)).operands)
                s.words
                (s.given p)).0
          → is_on_index (calls (s.running q)) (s.given q) ≡ true
          → (r : Reg) → (direct (s.running q)).reads r ≡ true
          → s.words ((calls (s.running q)).operands r) ≡ w ((calls (s.running q)).operands r)
      unseen p q within in_range ne w same on r h =
          let i = s.running p in
          let j = s.running q in
          let x = (calls j).operands r in
          elim (Bool-cases (is_on_index (calls i) (s.given p))) [
            | inr elsewhere ↦
                sym (ap (λ m. m x) (same ∙ (stores i).off_index s.words (s.given p) elsewhere))
            | inl here ↦
                let own = key-placed i (s.given p) here ∙ inv.placed p within in
                let its = key-placed j (s.given q) on ∙ inv.placed q in_range in
                let keys : key i ≢ key j = λ e. ne (sym own ∙ (e ∙ its)) in
                sym (
                  ap (λ m. m x) same
                  ∙ (stores i).elsewhere s.words (s.given p) x (λ e. apart i j keys r h (sym e)))
          ]

      pub line-Inv : (p : ℕ) → p < cpus → Inv m₀ (execute_on k calls index cpus p s)
      unfolding execute
      line-Inv p within =
          let i = s.running p in
          let c = calls i in
          let a = s.given p in
          let before = load_local s.words (s.locals i) in
          let t = step c.desc c.blk before in
          let out = attempt c.blk (finish c.desc c.blk t) in
          let entry : Entry = record { who = i; area = a; outcome = out } in
          elim (line-Phase c (secs i) (inv.on p within)) [
            | goes_on stays phase ↦
                let same : t.mem ≡ s.words = Phase-quiet c (secs i) (direct i) phase in
                rw stays (
                  update-Inv p i a t.mem (save t) s.log within (inv.placed p within)
                    (λ q in_range ne. inv.distinct p q within in_range ne) (rw same inv.replays)
                    (λ j ne. refl)
                    (rw same (
                      subst (λ m. Phase c (save t) s.words m a true (outcome_of i s.log)) same
                        phase))
                    (λ q in_range ne. rw same (inv.on q in_range)))
            | commits over first result phase ↦
                let same = Phase-quiet c (secs i) (direct i) phase in
                rw over (
                  update-Inv p i a t.mem (save t) (entry ∷ s.log) within (inv.placed p within)
                    (λ q in_range ne. inv.distinct p q within in_range ne)
                    (takes inv.replays first same result) (λ j ne. rw (==-ne i j ne) refl)
                    (rw (==-self i)
                      (subst (λ m. Phase c (save t) m t.mem a true (some out)) (sym same) phase))
                    (λ q in_range ne.
                      Phase-foreign (calls (s.running q)) (secs (s.running q))
                        (direct (s.running q)) t.mem (unseen p q within in_range ne t.mem same)
                        (inv.on q in_range)))
          ]
