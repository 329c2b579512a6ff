-- ===== src/Freelist/Push.antt =====
-- The loop of benches/freelist.rs that pushes a node keeps every stack a stack.
use mathlib.Core.Path.{subst}
use rseq_rs.Base.{
  All, ℕ, ◌<◌, ◌≡◌, ◌≢◌, refl, sym, ap, ◌∙◌, true, none, some, ◌>>=◌, List, [], ◌∷◌, inl, inr, ◌==◌,
  ltb, ltb_of_lt, eq_of_==, ==-self, arith, Bool-cases, Option-cases, IsU32,
}
use rseq_rs.Abi.{Area}
use rseq_rs.Machine.{Mem, write}
use rseq_rs.Cs.{Arch, linux, World, Call}
use rseq_rs.Words.{Words, get}
use rseq_rs.Words.Slots.{picked, get-slot}
use rseq_rs.Thread as Ops
use rseq_rs.Thread.{Kind, cpu_kind, Word, Thread, Result, ok, err, cpu_id}
use rseq_rs.Thread.Promise
use rseq_rs.Thread.Promise.{SideStored, index}
use rseq_rs.Thread.Lift.{IsSetUp}
use rseq_rs.Thread.StoreIf.{store_if-TakesEffect}
use rseq_rs.Counter.{waited}
use rseq_rs.Thread.Rely.{Keeps, Ends, after-Keeps, Linearized-Ends}
use rseq_rs.Freelist.{
  Nodes, next_at, empty, Pushed, returned, going, panicked, killed, settle, store_head, push,
}
use rseq_rs.Thread.Operation.{store_if, perform, promised}
use rseq_rs.Thread.AreaKept.{◌∼◌, perform-quiet}
use rseq_rs.Freelist.Own.{own_word}
use rseq_rs.Freelist.Chain.{
  Chain, slot, Apart, AreStacks, AreStacksWithout, write_next-AreStacksWithout, push-AreStacks,
  push-Chain,
}

module _ (ws : Words) (l : Nodes) (node : ℕ) where
  -- Calls in which the area is registered, and the other threads keep the stacks and leave the node alone.
  pub data Schedule (arch : Arch) : List Call → Type 0 where
    ended : Schedule arch []
    turn :
        {c : Call} {cs : List Call}
        → IsSetUp arch c
        → Keeps (AreStacksWithout node ws l) (AreStacks ws l) c.events
        → Schedule arch cs
        → Schedule arch (c ∷ cs)

  -- The words hold stacks, without the node as long as the loop is going; nothing panics or kills it.
  abbrev pub Stacked : Pushed → Type 0
  Stacked (returned s cs) = AreStacks ws l s.mem
  Stacked (going s) = AreStacksWithout node ws l s.mem
  Stacked panicked = ⊥
  Stacked killed = ⊥

module _ (arch : Arch) (t : Thread) (ws : Words) (l : Nodes) (node : ℕ) (small : IsU32 ws.cpus)
    (apart : Apart ws l) (inside : node < l.len) (real : node ≢ empty) where
  abbrev Free : Mem → Type 0
  Free = AreStacksWithout node ws l

  module _ (w : Word cpu_kind) (key : ℕ) (within : key < ws.cpus) (place : w.word ≡ slot ws key)
      (head : ℕ) where
    abbrev next_word : Word cpu_kind
    next_word = record { word = next_at l node; key = w.key }

    store-Ends :
        (m : Mem) (a : Area)
        → Free m
        → Ends Free
            (AreStacks ws l)
            (Promise.store_if w head node next_word head m a).0
            (Promise.store_if w head node next_word head m a).1
    store-Ends m a stacks = elim (Bool-cases (index cpu_kind a == w.key)) [
      | inr elsewhere ↦ rw elsewhere stacks
      | inl here ↦ rw here (elim (Bool-cases (m w.word == head)) [
        | inr differs ↦ rw differs stacks
        | inl same ↦ rw same (
            subst (AreStacks ws l)
              (ap (λ h. write (write m (next_at l node) h) (slot ws key) node)
                  (ap m (sym place) ∙ eq_of_== (m w.word) head same)
                ∙ ap (λ x. write (write m (next_at l node) head) x node) (sym place))
              (push-AreStacks ws l apart node inside real m stacks key within))
      ])
    ]

    next_word_keeps : (m m' : Mem) → SideStored next_word head m m' → Free m → Free m'
    next_word_keeps m m' (inl same) stacks = subst Free (sym same) stacks
    next_word_keeps m m' (inr stored) stacks =
        subst Free (sym stored) (write_next-AreStacksWithout ws l apart node inside m head stacks)

  settle-Stacked :
      (again : World → Pushed) (cs : List Call) (s' : World) (r : Result)
      → Ends Free (AreStacks ws l) s'.mem r
      → (Free s'.mem → Stacked ws l node (again s'))
      → Stacked ws l node (settle again cs (some (s', r)))
  settle-Stacked again cs s' (ok old) holds next = holds
  settle-Stacked again cs s' (err e) holds next = next holds

  module _ (c : Call) (cs : List Call) (s : World) where
    push-nothing :
        (cpu_id s.area >>= get {k = cpu_kind} ws) ≡ none
        → push (linux arch) t ws l node (c ∷ cs) s ≡ push (linux arch) t ws l node cs (waited c s)
    unfolding push
    push-nothing nothing = rw (push, nothing) refl

    push-call :
        (w : Word cpu_kind)
        → (cpu_id s.area >>= get {k = cpu_kind} ws) ≡ some w
        → ltb node l.len ≡ true
        → (s' : World) (r : Result) → store_head (linux arch) t ws l node c w s ≡ some (s', r)
        → push (linux arch) t ws l node (c ∷ cs) s
          ≡ settle (push (linux arch) t ws l node cs) cs (some (s', r))
    unfolding push
    push-call w found bounded s' r ran = rw (push, found, bounded, ran) refl

  -- For a node that is not 0, of the vector, and on no stack, a vector that shares no byte with the
  -- words, and calls with the area registered, through any interruptions and migrations in which
  -- the other threads keep the stacks and leave the node alone, also when the head that was loaded
  -- has changed: if the loop has returned, every CPU has a stack; if it is going, every CPU has a
  -- stack without the node; it neither panics nor is killed.
  pub push-Stacked :
      {cs : List Call}
      → Schedule ws l node arch cs
      → (s : World) → AreStacksWithout node ws l s.mem
      → Stacked ws l node (push (linux arch) t ws l node cs s)
  unfolding push
  push-Stacked ended s stacks = stacks
  push-Stacked (turn {c = c} {cs = cs} up keeps rest) s stacks =
      elim (Option-cases (cpu_id s.area >>= get {k = cpu_kind} ws)) [
        | inl nothing ↦
            subst (Stacked ws l node) (sym (push-nothing c cs s nothing))
              (push-Stacked rest (waited c s) (after-Keeps keeps (err Ops.abort) s.mem stacks))
        | inr (w, found) ↦
            let (key, there) = picked ws (cpu_id s.area) w found in
            let (within, place, keyed) = get-slot ws key small w there in
            let in_range : IsU32 w.key = omega (arith, within, small, keyed) in
            let head = s.mem w.word in
            let effect =
              store_if-TakesEffect arch c t w head node (next_word w key within place head) head s
                up in_range refl in
            let holds =
              Linearized-Ends (store-Ends w key within place head)
                (next_word_keeps w key within place head) keeps effect.linear stacks in
            subst (Stacked ws l node)
              (sym (
                push-call c cs s w found (ltb_of_lt node l.len inside) effect.world effect.result
                  effect.returns))
              (settle-Stacked (push (linux arch) t ws l node cs) cs effect.world effect.result holds
                (push-Stacked rest effect.world))
      ]

  -- For a node that is not 0, of the vector, and not on the stack, and a vector that shares no byte
  -- with the words: a turn with the area registered, on a CPU that has a word, which nothing
  -- interrupts, ends the loop with the node on top of the stack of this CPU, and with the area as it
  -- was but for its descriptor.
  pub push-on_top :
      (c : Call) (cs : List Call) (s : World) (cpu : ℕ)
      → IsSetUp arch c
      → c.events ≡ []
      → cpu_id s.area ≡ some cpu
      → cpu < ws.cpus
      → {xs : List ℕ} → Chain l s.mem (s.mem (slot ws cpu)) xs
      → All (λ x. x ≢ node) xs
      → (s' : World) × (push (linux arch) t ws l node (c ∷ cs) s ≡ returned s' cs)
        × (s'.area ∼ s.area)
        × Chain l s'.mem (s'.mem (slot ws cpu)) (node ∷ xs)
  unfolding perform
  push-on_top c cs s cpu up quiet here within {xs = xs} chain without =
      let (w, found, place, in_range, own) = own_word ws small s.area cpu here within in
      let at = slot ws cpu in
      let head = s.mem w.word in
      let side : Word cpu_kind = record { word = next_at l node; key = w.key } in
      let (s', ran, words, area) =
        perform-quiet arch c t (store_if w head node side head) s up in_range refl quiet in
      let m₂ = write (write s.mem (next_at l node) head) w.word node in
      let stored : promised (store_if w head node side head) s.mem s.area ≡ (m₂, ok head) =
        rw (own, ==-self (s.mem w.word)) refl in
      let placed : m₂ ≡ write (write s.mem (next_at l node) (s.mem at)) at node =
        ap (λ a. write (write s.mem (next_at l node) (s.mem a)) a node) place in
      (
        s',
        push-call c cs s w found (ltb_of_lt node l.len inside) s' (ok head)
            (ran ∙ ap (λ (p : Mem × Result). some (s', p.1)) stored),
        area,
        subst (λ m. Chain l m (m at) (node ∷ xs))
            (sym (words ∙ (ap (λ (p : Mem × Result). p.0) stored ∙ placed)))
            (push-Chain ws l apart node inside real s.mem cpu within chain without),
      )
