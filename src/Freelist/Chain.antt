-- ===== src/Freelist/Chain.antt =====
-- The stacks of benches/freelist.rs in memory, and stores that keep them.
use rseq_rs.Base.{
  All, no_more, and_then, ℕ, ◌+◌, ◌*◌, ◌≤◌, ◌<◌, ◌≡◌, ◌≢◌, sym, ◌∙◌, List, [], ◌∷◌, ◌==◌, arith,
  ◌⊎◌, inl, inr, Bool-cases, eq_of_==, ne_of_==,
}
use mathlib.Core.Path.{subst}
use rseq_rs.Machine.Memory.{write-elsewhere, write-here}
use rseq_rs.Machine.{Mem, write}
use rseq_rs.Region.{word_size, base}
use rseq_rs.Words.{Words}
use rseq_rs.Freelist.{Nodes, next_at, empty}

-- From `head` on, the words `next` lead through the nodes `xs` to the end.
pub data Chain (l : Nodes) (m : Mem) : (head : ℕ) → List ℕ → Type 0 where
  done : Chain l m empty []
  link :
      {head : ℕ} {xs : List ℕ}
      → head ≢ empty
      → head < l.len
      → Chain l m (m (next_at l head)) xs
      → Chain l m head (head ∷ xs)

-- The address of a slot of the words.
abbrev pub slot : Words → ℕ → ℕ
slot ws key = base ws.region + key * word_size

-- The vector and the words share no byte.
abbrev pub Apart : Words → Nodes → Type 0
Apart ws l =
    (base ws.region + ws.cpus * word_size ≤ l.next) ⊎ (l.next + l.len * word_size ≤ base ws.region)

-- Every CPU has a stack.
abbrev pub AreStacks : Words → Nodes → Mem → Type 0
AreStacks ws l m = (key : ℕ) → key < ws.cpus → (xs : List ℕ) × Chain l m (m (slot ws key)) xs

-- And the node is on none of them.
abbrev pub AreStacksWithout : (node : ℕ) → Words → Nodes → Mem → Type 0
AreStacksWithout node ws l m =
    (key : ℕ)
    → key < ws.cpus
    → (xs : List ℕ) × Chain l m (m (slot ws key)) xs × All (λ x. x ≢ node) xs

-- A store to the `next` of a node that is not on the stack.
Chain-write_next :
    (l : Nodes) (m : Mem) (node v : ℕ) {head : ℕ} {xs : List ℕ}
    → Chain l m head xs
    → All (λ x. x ≢ node) xs
    → Chain l (write m (next_at l node) v) head xs
Chain-write_next l m node v done no_more = done
Chain-write_next l m node v (link {head = h} {xs = xs} real inside rest) (and_then ne others) =
    link real inside (
      subst (λ x. Chain l (write m (next_at l node) v) x xs)
        (sym (write-elsewhere m (next_at l node) (next_at l h) v (omega (arith, ne))))
        (Chain-write_next l m node v rest others))

slot-next :
    (ws : Words) (l : Nodes)
    → Apart ws l
    → (key node : ℕ) → key < ws.cpus
    → node < l.len
    → slot ws key ≢ next_at l node
slot-next ws l (inl p) key node h h' = omega (arith, p, h, h')
slot-next ws l (inr p) key node h h' = omega (arith, p, h, h')

-- A store to a slot.
pub Chain-write_slot :
    (ws : Words) (l : Nodes)
    → Apart ws l
    → (m : Mem) (key v : ℕ) → key < ws.cpus
    → {head : ℕ} {xs : List ℕ} → Chain l m head xs
    → Chain l (write m (slot ws key) v) head xs
Chain-write_slot ws l apart m key v within done = done
Chain-write_slot ws l apart m key v within (link {head = h} {xs = xs} real inside rest) =
    link real inside (
      subst (λ x. Chain l (write m (slot ws key) v) x xs)
        (sym (
          write-elsewhere m (slot ws key) (next_at l h) v
            (slot-next ws l apart key h within inside)))
        (Chain-write_slot ws l apart m key v within rest))

module _ (ws : Words) (l : Nodes) (apart : Apart ws l) (node : ℕ) (node_in : node < l.len) where
  -- The thread that owns a node may write its `next`.
  pub write_next-AreStacksWithout :
      (m : Mem) (v : ℕ)
      → AreStacksWithout node ws l m
      → AreStacksWithout node ws l (write m (next_at l node) v)
  write_next-AreStacksWithout m v stacks key within =
      let (xs, chain, without) = stacks key within in
      (
        xs,
        subst (λ h. Chain l (write m (next_at l node) v) h xs)
            (sym (
              write-elsewhere m (next_at l node) (slot ws key) v
                (λ same. slot-next ws l apart key node within node_in (sym same))))
            (Chain-write_next l m node v chain without),
        without,
      )

  -- The store of `next` and then of the head puts the node on top of the stack.
  pub push-Chain :
      node ≢ empty
      → (m : Mem) (key : ℕ) → key < ws.cpus
      → {xs : List ℕ} → Chain l m (m (slot ws key)) xs
      → All (λ x. x ≢ node) xs
      → let m₂ = write (write m (next_at l node) (m (slot ws key))) (slot ws key) node in
        Chain l m₂ (m₂ (slot ws key)) (node ∷ xs)
  push-Chain real m key within {xs = xs} chain without =
      let m₁ = write m (next_at l node) (m (slot ws key)) in
      let m₂ = write m₁ (slot ws key) node in
      let below =
        Chain-write_slot ws l apart m₁ key node within
          (Chain-write_next l m node (m (slot ws key)) chain without) in
      let linked : m₂ (next_at l node) ≡ m (slot ws key) =
        write-elsewhere m₁ (slot ws key) (next_at l node) node
          (slot-next ws l apart key node within node_in)
        ∙ write-here m (next_at l node) (m (slot ws key)) in
      subst (λ h. Chain l m₂ h (node ∷ xs)) (sym (write-here m₁ (slot ws key) node))
        (link real node_in (subst (λ h. Chain l m₂ h xs) (sym linked) below))

  -- And leaves the other stacks.
  pub push-AreStacks :
      node ≢ empty
      → (m : Mem) → AreStacksWithout node ws l m
      → (key : ℕ) → key < ws.cpus
      → AreStacks ws l (write (write m (next_at l node) (m (slot ws key))) (slot ws key) node)
  push-AreStacks real m stacks key within key' within' =
      let m₁ = write m (next_at l node) (m (slot ws key)) in
      let m₂ = write m₁ (slot ws key) node in
      elim (Bool-cases (key' == key)) [
        | inl here ↦
            let (xs, chain, without) = stacks key within in
            (
              node ∷ xs,
              subst (λ i. Chain l m₂ (m₂ (slot ws i)) (node ∷ xs)) (sym (eq_of_== key' key here))
                  (push-Chain real m key within chain without),
            )
        | inr apart_from ↦
            let ne = ne_of_== key' key apart_from in
            let (xs, chain, _) =
              write_next-AreStacksWithout m (m (slot ws key)) stacks key' within' in
            (
              xs,
              subst (λ h. Chain l m₂ h xs)
                  (sym (write-elsewhere m₁ (slot ws key) (slot ws key') node (omega (arith, ne))))
                  (Chain-write_slot ws l apart m₁ key node within chain),
            )
      ]
