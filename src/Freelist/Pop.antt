-- ===== src/Freelist/Pop.antt =====
-- The loop of benches/freelist.rs that pops a node.
use mathlib.Core.Path.{subst, fun_ext}
use rseq_rs.Base.{
  All, ℕ, suc, ◌+◌, ◌^◌, ◌≤◌, ◌<◌, ◌≡◌, ◌≢◌, refl, sym, ap, ◌∙◌, true, false, some, List, [], ◌∷◌,
  inl, inr, ◌==◌, ltb, ltb_of_lt, eq_of_==, ==-self, ==-ne, arith, Bool-cases, IsU32,
}
use rseq_rs.Machine.{Mem, write, usize}
use rseq_rs.Machine.Memory.{write-here}
use rseq_rs.Abi.{Area}
use rseq_rs.Cs.{Arch, linux, World, Call}
use rseq_rs.Words.{Words}
use rseq_rs.Thread as Ops
use rseq_rs.Thread.{Kind, cpu_kind, Word, Thread, Result, ok, cpu_id}
use rseq_rs.Thread.Operation.{compare_exchange, fetch_add, perform, promised}
use rseq_rs.Thread.AreaKept.{◌∼◌, perform-quiet}
use rseq_rs.Thread.Lift.{IsSetUp}
use rseq_rs.Counter as Counters
use rseq_rs.Counter.{add}
use rseq_rs.Counter.Loop.{add-call}
use rseq_rs.Freelist.{
  Nodes, next_at, empty, Swapped, Popped, returned, push, cas, pop, settle_cas, take_head,
}
use rseq_rs.Freelist as Free
use rseq_rs.Freelist.Push.{push-on_top}
use rseq_rs.Freelist.Turns.{cas-call}
use rseq_rs.Freelist.Own.{own_word}
use rseq_rs.Freelist.Chain.{Chain, link, slot, Apart, Chain-write_slot}

-- A store of the value that stands there.
write-same : (m : Mem) (a v : ℕ) → m a ≡ v → write m a v ≡ m
write-same m a v there = fun_ext (λ b. elim (Bool-cases (a == b)) [
  | inl here ↦ rw here (sym there ∙ ap m (eq_of_== a b here))
  | inr elsewhere ↦ rw elsewhere refl
])

-- The descriptor says nothing of the CPU.
cpu_id-same : (a b : Area) → a ∼ b → cpu_id a ≡ cpu_id b
unfolding cpu_id Ops.cpu_id_new
cpu_id-same a b same = ap cpu_id same

module _ (arch : Arch) (t : Thread) (ws : Words) (small : IsU32 ws.cpus) (c : Call) (cs : List Call)
    (s : World) (cpu : ℕ) (up : IsSetUp arch c) (quiet : c.events ≡ [])
    (here : cpu_id s.area ≡ some cpu) (within : cpu < ws.cpus) where
  -- `add` of 0 reads the head.
  pub add-reads :
      s.mem (slot ws cpu) < 2 ^ 64
      → (s' : World) × (add (linux arch) t ws 0 (c ∷ cs) s
          ≡ Counters.returned s' (s.mem (slot ws cpu)) cs)
        × (s'.mem ≡ s.mem)
        × (s'.area ∼ s.area)
  unfolding perform
  add-reads fits =
      let (w, found, place, in_range, own) = own_word ws small s.area cpu here within in
      let (s', ran, words, area) =
        perform-quiet arch c t (fetch_add w 0) s up in_range refl quiet in
      let promise : promised (fetch_add w 0) s.mem s.area
          ≡ (write s.mem w.word (usize (s.mem w.word + 0)), ok (s.mem w.word)) =
        rw own refl in
      let same : s.mem w.word ≡ usize (s.mem w.word + 0) = rw place omega (arith, fits) in
      (
        s',
        add-call arch t ws 0 small c cs s w found s' (ok (s.mem w.word))
              (ran ∙ ap (λ (p : Mem × Result). some (s', p.1)) promise)
            ∙ ap (λ a. Counters.returned s' (s.mem a) cs) place,
        words
            ∙ (ap (λ (p : Mem × Result). p.0) promise
                ∙ write-same s.mem w.word (usize (s.mem w.word + 0)) same),
        area,
      )

  -- `cas` swaps what it finds.
  pub cas-swaps :
      (expect new : ℕ)
      → s.mem (slot ws cpu) ≡ expect
      → (s' : World) × (cas (linux arch) t ws expect new (c ∷ cs) s
          ≡ Free.returned s' (ok expect) cs)
        × (s'.mem ≡ write s.mem (slot ws cpu) new)
  unfolding perform
  cas-swaps expect new head =
      let (w, found, place, in_range, own) = own_word ws small s.area cpu here within in
      let (s', ran, words, area) =
        perform-quiet arch c t (compare_exchange w expect new) s up in_range refl quiet in
      let there : (s.mem w.word == expect) ≡ true = rw (place, head, ==-self expect) refl in
      let promise : promised (compare_exchange w expect new) s.mem s.area
          ≡ (write s.mem w.word new, ok expect) =
        rw (own, there, eq_of_== (s.mem w.word) expect there) refl in
      (
        s',
        cas-call (linux arch) t ws expect new c cs s w found s' (ok expect)
            (ran ∙ ap (λ (p : Mem × Result). some (s', p.1)) promise),
        words ∙ (ap (λ (p : Mem × Result). p.0) promise ∙ ap (λ a. write s.mem a new) place),
      )

unlink :
    (l : Nodes) (m : Mem) (head x : ℕ) (xs : List ℕ)
    → Chain l m head (x ∷ xs)
    → (head ≡ x) × (head ≢ empty) × (head < l.len) × Chain l m (m (next_at l head)) xs
unlink l m head x xs (link real inside rest) = (refl, real, inside, rest)

module _ (arch : Arch) (t : Thread) (ws : Words) (l : Nodes) (small : IsU32 ws.cpus)
    (apart : Apart ws l) (fits : l.len ≤ 2 ^ 64) where
  pop-turn :
      (n : ℕ) (cs cs' cs'' : List Call) (s s₁ s₂ : World) (head : ℕ)
      → add (linux arch) t ws 0 cs s ≡ Counters.returned s₁ head cs'
      → (head == empty) ≡ false
      → ltb head l.len ≡ true
      → cas (linux arch) t ws head (s₁.mem (next_at l head)) cs' s₁
        ≡ Free.returned s₂ (ok head) cs''
      → pop (linux arch) t ws l (suc n) cs s ≡ returned s₂ head cs''
  unfolding pop
  pop-turn n cs cs' cs'' s s₁ s₂ head read real inside swapped =
      rw (pop, read, real, inside, swapped) refl

  module _ (c c' : Call) (cs : List Call) (s : World) (cpu : ℕ) (up : IsSetUp arch c)
      (up' : IsSetUp arch c') (quiet : c.events ≡ []) (quiet' : c'.events ≡ [])
      (here : cpu_id s.area ≡ some cpu) (within : cpu < ws.cpus) where
    -- From a stack that is not empty, by two calls that nothing interrupts.
    pub pop-top :
        (n x : ℕ) (xs : List ℕ)
        → Chain l s.mem (s.mem (slot ws cpu)) (x ∷ xs)
        → (s' : World) × (pop (linux arch) t ws l (suc n) (c ∷ c' ∷ cs) s ≡ returned s' x cs)
          × Chain l s'.mem (s'.mem (slot ws cpu)) xs
    pop-top n x xs chain =
        let at = slot ws cpu in
        let (top, real, inside, rest) = unlink l s.mem (s.mem at) x xs chain in
        let (s₁, read, words₁, area₁) =
          add-reads arch t ws small c (c' ∷ cs) s cpu up quiet here within
            (omega (arith, inside, fits)) in
        let head = s.mem at in
        let nxt = s.mem (next_at l head) in
        let here₁ : cpu_id s₁.area ≡ some cpu = cpu_id-same s₁.area s.area area₁ ∙ here in
        let (s₂, swapped, words₂) =
          cas-swaps arch t ws small c' cs s₁ cpu up' quiet' here₁ within head
            (s₁.mem (next_at l head)) (ap (λ (m : Mem). m at) words₁) in
        let words : s₂.mem ≡ write s.mem at nxt =
          words₂ ∙ ap (λ (m : Mem). write m at (m (next_at l head))) words₁ in
        (
          s₂,
          pop-turn n (c ∷ c' ∷ cs) (c' ∷ cs) cs s s₁ s₂ head read (==-ne head empty real)
                (ltb_of_lt head l.len inside) swapped
              ∙ ap (λ x. returned s₂ x cs) top,
          subst (λ m. Chain l m (m at) xs) (sym words)
              (subst (λ h. Chain l (write s.mem at nxt) h xs) (sym (write-here s.mem at nxt))
                (Chain-write_slot ws l apart s.mem cpu nxt within rest)),
        )

module _ (arch : Arch) (t : Thread) (ws : Words) (l : Nodes) (node : ℕ) (small : IsU32 ws.cpus)
    (apart : Apart ws l) (inside : node < l.len) (real : node ≢ empty) (fits : l.len ≤ 2 ^ 64) where
  -- For a node that is not 0, of the vector, and not on the stack of a CPU that has a word, a vector of
  -- at most 2^64 nodes that shares no byte with the words, and calls with the area registered which
  -- nothing interrupts: the push returns after one call, the pop that follows returns the node after
  -- two, and the stack of the CPU is then the one before the push.
  pub pop-push :
      (c₀ c c' : Call) (cs : List Call) (s : World) (cpu n : ℕ)
      → IsSetUp arch c₀
      → IsSetUp arch c
      → IsSetUp arch c'
      → c₀.events ≡ []
      → c.events ≡ []
      → c'.events ≡ []
      → cpu_id s.area ≡ some cpu
      → cpu < ws.cpus
      → (xs : List ℕ) → Chain l s.mem (s.mem (slot ws cpu)) xs
      → All (λ x. x ≢ node) xs
      → (s₁ : World) × (s₂ : World) × (push (linux arch) t ws l node (c₀ ∷ c ∷ c' ∷ cs) s
          ≡ Free.returned s₁ (c ∷ c' ∷ cs))
        × (pop (linux arch) t ws l (suc n) (c ∷ c' ∷ cs) s₁ ≡ returned s₂ node cs)
        × Chain l s₂.mem (s₂.mem (slot ws cpu)) xs
  pop-push c₀ c c' cs s cpu n up₀ up up' quiet₀ quiet quiet' here within xs chain without =
      let (s₁, pushed, area, on_top) =
        push-on_top arch t ws l node small apart inside real c₀ (c ∷ c' ∷ cs) s cpu up₀ quiet₀ here
          within chain without in
      let (s₂, popped, rest) =
        pop-top arch t ws l small apart fits c c' cs s₁ cpu up up' quiet quiet'
          (cpu_id-same s₁.area s.area area ∙ here) within n node xs on_top in
      (s₁, s₂, pushed, popped, rest)
