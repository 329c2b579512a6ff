-- ===== src/Processors/Operations.antt =====
-- `compare_exchange`, `compare_exchange_if` and `fetch_add` of src/thread.rs, called by many threads on
-- several processors.
use rseq_rs.Base.{ℕ, ◌%◌, ◌^◌, ◌≡◌, refl, true, ◌⊎◌, arith, inl, inr, IsU32}
use rseq_rs.Abi.{Area, field_at}
use rseq_rs.Machine.{Reg}
use rseq_rs.Kernel.{Kernel}
use rseq_rs.Section.Direct.{IsDirect}
use rseq_rs.Cs.{Arch, x86_64, aarch64, Call}
use rseq_rs.Thread.Promise.{index}
use rseq_rs.Thread.{Kind, cpu_kind, cid_kind, off, Word, Thread}
use rseq_rs.Thread.Operation as Operations
use rseq_rs.Thread.Operation.{Operation, word_of}
use rseq_rs.Thread.Sections.{block_of, operands_of}
use rseq_rs.System.Operations.{Seat, client}
use rseq_rs.Processors.Direct.{
  compare_exchange-IsDirect, compare_exchange_if-IsDirect, fetch_add-IsDirect,
}
use rseq_rs.Processors.Stores.{
  compare_exchange-off, compare_exchange-elsewhere, compare_exchange_if-off,
  compare_exchange_if-elsewhere, fetch_add-off, fetch_add-elsewhere,
}
use rseq_rs.Processors.Invariant.{Stores}

-- The operations whose addresses are their operands, without a store to `side`.
pub data Plain (kind : Kind) : Type 0 where
  compare_exchange : Word kind → (expect new : ℕ) → Plain kind
  compare_exchange_if : Word kind → (expect new : ℕ) → Word kind → (other_expect : ℕ) → Plain kind
  fetch_add : Word kind → (count : ℕ) → Plain kind

shown : (kind : Kind) (a : Area) → field_at a (off kind) % 2 ^ 32 % 2 ^ 32 ≡ index kind a
unfolding field_at
shown cpu_kind a = omega arith
shown cid_kind a = omega arith

module _ {kind : Kind} where
  abbrev pub operation : Plain kind → Operation kind
  operation (compare_exchange w expect new) = Operations.compare_exchange w expect new
  operation (compare_exchange_if w expect new o other_expect) =
      Operations.compare_exchange_if w expect new o other_expect
  operation (fetch_add w count) = Operations.fetch_add w count

  abbrev pub word_in : Plain kind → Word kind
  word_in o = word_of (operation o)

  -- The word that the operation reads besides its own.
  abbrev pub other_in : Plain kind → Word kind
  other_in (compare_exchange w expect new) = w
  other_in (compare_exchange_if w expect new o other_expect) = o
  other_in (fetch_add w count) = w

  abbrev pub plain-IsDirect :
      (arch : Arch) (o : Plain kind) → IsDirect (block_of arch (operation o))
  plain-IsDirect arch (compare_exchange w expect new) = compare_exchange-IsDirect kind arch
  plain-IsDirect arch (compare_exchange_if w expect new o other_expect) =
      compare_exchange_if-IsDirect kind arch
  plain-IsDirect arch (fetch_add w count) = fetch_add-IsDirect kind arch

  pub plain-index :
      (arch : Arch) (o : Plain kind) (a : Area)
      → field_at a (block_of arch (operation o)).id_off % 2 ^ 32 % 2 ^ 32 ≡ index kind a
  plain-index x86_64 (compare_exchange w expect new) a = shown kind a
  plain-index x86_64 (compare_exchange_if w expect new o other_expect) a = shown kind a
  plain-index x86_64 (fetch_add w count) a = shown kind a
  plain-index aarch64 (compare_exchange w expect new) a = shown kind a
  plain-index aarch64 (compare_exchange_if w expect new o other_expect) a = shown kind a
  plain-index aarch64 (fetch_add w count) a = shown kind a

  module _ (c : Call) (t : Thread) where
    pub plain-word : (o : Plain kind) → operands_of c t (operation o) Reg.word ≡ (word_in o).word
    plain-word (compare_exchange w expect new) = refl
    plain-word (compare_exchange_if w expect new o other_expect) = refl
    plain-word (fetch_add w count) = refl

    -- The upper half of the register holds anything.
    pub plain-key :
        (o : Plain kind)
        → IsU32 (word_in o).key
        → operands_of c t (operation o) Reg.id % 2 ^ 32 ≡ (word_in o).key
    plain-key (compare_exchange w expect new) small = omega arith
    plain-key (compare_exchange_if w expect new o other_expect) small = omega arith
    plain-key (fetch_add w count) small = omega arith

  pub plain-reads :
      (arch : Arch) (c : Call) (t : Thread) (o : Plain kind) (q : Reg)
      → (plain-IsDirect arch o).reads q ≡ true
      → (operands_of c t (operation o) q ≡ (word_in o).word)
        ⊎ (operands_of c t (operation o) q ≡ (other_in o).word)
  unfolding compare_exchange-IsDirect compare_exchange_if-IsDirect fetch_add-IsDirect
  plain-reads x86_64 c t (compare_exchange w expect new) Reg.word h = inl refl
  plain-reads x86_64 c t (compare_exchange w expect new) q h = absurd (cc)
  plain-reads x86_64 c t (compare_exchange_if w expect new o other_expect) Reg.word h = inl refl
  plain-reads x86_64 c t (compare_exchange_if w expect new o other_expect) Reg.other h = inr refl
  plain-reads x86_64 c t (compare_exchange_if w expect new o other_expect) q h = absurd (cc)
  plain-reads x86_64 c t (fetch_add w count) Reg.word h = inl refl
  plain-reads x86_64 c t (fetch_add w count) q h = absurd (cc)
  plain-reads aarch64 c t (compare_exchange w expect new) Reg.word h = inl refl
  plain-reads aarch64 c t (compare_exchange w expect new) q h = absurd (cc)
  plain-reads aarch64 c t (compare_exchange_if w expect new o other_expect) Reg.word h = inl refl
  plain-reads aarch64 c t (compare_exchange_if w expect new o other_expect) Reg.other h = inr refl
  plain-reads aarch64 c t (compare_exchange_if w expect new o other_expect) q h = absurd (cc)
  plain-reads aarch64 c t (fetch_add w count) Reg.word h = inl refl
  plain-reads aarch64 c t (fetch_add w count) q h = absurd (cc)

  pub plain-Stores :
      (arch : Arch) (k : Kernel) (seat : Seat) (o : Plain kind)
      → Stores (client arch k (record { seat = seat; kind = kind; operation = operation o }))
  plain-Stores x86_64 k seat (compare_exchange w expect new) = record {
    off_index = compare_exchange-off (off kind) _;
    elsewhere = compare_exchange-elsewhere (off kind) _;
  }
  plain-Stores x86_64 k seat (compare_exchange_if w expect new o other_expect) = record {
    off_index = compare_exchange_if-off (off kind) _;
    elsewhere = compare_exchange_if-elsewhere (off kind) _;
  }
  plain-Stores x86_64 k seat (fetch_add w count) = record {
    off_index = fetch_add-off (off kind) _;
    elsewhere = fetch_add-elsewhere (off kind) _;
  }
  plain-Stores aarch64 k seat (compare_exchange w expect new) = record {
    off_index = compare_exchange-off (off kind) _;
    elsewhere = compare_exchange-elsewhere (off kind) _;
  }
  plain-Stores aarch64 k seat (compare_exchange_if w expect new o other_expect) = record {
    off_index = compare_exchange_if-off (off kind) _;
    elsewhere = compare_exchange_if-elsewhere (off kind) _;
  }
  plain-Stores aarch64 k seat (fetch_add w count) = record {
    off_index = fetch_add-off (off kind) _;
    elsewhere = fetch_add-elsewhere (off kind) _;
  }
