-- ===== src/Processors/Explained.antt =====
-- Whatever the kernel does, the calls of several processors take effect one after another.
use rseq_rs.Base.{ℕ, ◌<◌, ◌%◌, ◌^◌, ◌≡◌, refl, sym, ap, ◌∙◌, some, length}
use rseq_rs.Abi.{Area, field_at}
use rseq_rs.Machine.{Mem, attempt}
use rseq_rs.Kernel.{Kernel}
use rseq_rs.Section.Interrupt.{IsSection}
use rseq_rs.Section.Direct.{IsDirect}
use rseq_rs.System.{Client, System, load_local, save, set_local, switch, move, outcome_of}
use rseq_rs.System.Phase.{fresh, resume-Phase}
use rseq_rs.System.Replays.{nothing}
use rseq_rs.System.Explained.{History, returned-Phase}
use rseq_rs.Processors.{Processors, seen_by, Reached, start, by_line, by_switch, begin_on}
use rseq_rs.Processors.Invariant.{Stores, Separate, Inv, Switch-Inv, line-Inv}

module _ {k : Kernel} (calls : ℕ → Client) (index : Area → ℕ) (cpus : ℕ)
    (secs : (i : ℕ) → IsSection k (calls i).desc (calls i).blk (calls i).spec)
    (direct : (i : ℕ) → IsDirect (calls i).blk)
    (shows : (i : ℕ) (a : Area) → field_at a (calls i).blk.id_off % 2 ^ 32 % 2 ^ 32 ≡ index a)
    (stores : (i : ℕ) → Stores (calls i))
    (apart : Separate calls index cpus secs direct shows stores) where
  abbrev pub Holds : Mem → Processors → Type 0
  Holds = Inv calls index cpus secs direct shows stores

  reached-Inv :
      {m : Mem} {s t : Processors} → Holds m s → Reached k calls index cpus s t → Holds m t
  reached-Inv inv start = inv
  reached-Inv inv (by_line {s = s} p within r) =
      line-Inv calls index cpus secs direct shows stores s (reached-Inv inv r) apart p within
  reached-Inv inv (by_switch {s = s} {t = t} p j a r turn) =
      Switch-Inv calls index cpus secs direct shows stores s (reached-Inv inv r) p j a t turn

  begin-Inv :
      (m : Mem) (home : ℕ → Area) (first : ℕ → ℕ)
      → ((p : ℕ) → p < cpus → index (home (first p)) ≡ p)
      → Holds m (begin_on k calls index cpus m home first)
  begin-Inv m home first placed = record {
    replays = nothing;
    placed = placed;
    distinct = λ p q in_range in_range' ne e.
        ne (sym (placed p in_range) ∙ (ap (λ i. index (home i)) (sym e) ∙ placed q in_range'));
    on = λ p in_range. fresh refl refl refl (λ e. (refl, refl));
    away = λ j. fresh refl refl refl (λ e. absurd (cc));
  }

  module _ (m : Mem) (home : ℕ → Area) (first : ℕ → ℕ)
      (placed : (p : ℕ) → p < cpus → index (home (first p)) ≡ p) (t : Processors)
      (reached : Reached k calls index cpus (begin_on k calls index cpus m home first) t) where
    pub reached-Holds : Holds m t
    reached-Holds = reached-Inv (begin-Inv m home first placed) reached

    pub reached-History : History calls secs m t.log t.words
    reached-History = reached-Holds.replays

    -- A call that has come to the end of its block is in the log, with its outcome.
    pub reached-outcome :
        (i : ℕ)
        → (t.locals i).ip ≡ length (calls i).blk.code
        → outcome_of i t.log ≡ some (attempt (calls i).blk (load_local t.words (t.locals i)))
    reached-outcome i = returned-Phase calls secs i t.words (reached-Holds.away i)

    -- The kernel kills no call that it lets go on.
    pub reached-resumes :
        (p j : ℕ) (a : Area) → (u : System) × (move k calls (switch j a) (seen_by p t) ≡ some u)
    unfolding move
    reached-resumes p j a =
        let r = resume-Phase (calls j) (secs j) t.words a (reached-Holds.away j) in
        (
          record {
            words = r.state.mem;
            running = j;
            given = a;
            locals = set_local t.locals j (save r.state);
            log = t.log;
          },
          rw (r.resumed) refl,
        )
