-- ===== src/Thread/Tells.antt =====
-- What the result of an operation of src/thread.rs says of the words and the area at one instant.
use rseq_rs.Base.{
  ◌+◌, ◌%◌, ◌^◌, ◌≡◌, ◌≢◌, refl, true, false, ◌==◌, eq_of_==, inl, inr, ◌⊎◌, ne_of_==, Bool-cases,
}
use rseq_rs.Abi.{Area}
use rseq_rs.Machine.{Mem}
use rseq_rs.Thread.{Kind, Word, miss, abort, Result, ok, err}
use rseq_rs.Thread.Promise.{index}
use rseq_rs.Thread.Operation.{
  Operation, compare_exchange, compare_exchange_if, fetch_add, load_if_ne, fetch_add_at, store_if,
  promised, word_of,
}

module _ {k : Kind} where
  abbrev pub IsOn : Word k → Area → Type 0
  IsOn w a = index k a ≡ w.key

  -- What a result says of the words and the area at one instant.
  abbrev pub Tells : Operation k → Mem → Area → Result → Type 0
  Tells o m a (err abort) = index k a ≢ (word_of o).key
  Tells (compare_exchange w expect new) m a (ok old) =
      IsOn w a × (m w.word ≡ expect) × (old ≡ expect)
  Tells (compare_exchange w expect new) m a (err (miss v)) =
      IsOn w a × (v ≡ m w.word) × (v ≢ expect)
  Tells (compare_exchange_if w expect new o other_expect) m a (ok old) =
      IsOn w a × (m w.word ≡ expect) × (m o.word ≡ other_expect) × (old ≡ expect)
  Tells (compare_exchange_if w expect new o other_expect) m a (err (miss v)) =
      IsOn w a
      × (((v ≡ m w.word) × (v ≢ expect))
          ⊎ ((m w.word ≡ expect) × (v ≡ m o.word) × (v ≢ other_expect)))
  Tells (fetch_add w count) m a (ok old) = IsOn w a × (old ≡ m w.word)
  Tells (fetch_add w count) m a (err (miss v)) = ⊥
  Tells (load_if_ne w expect_not offset) m a (ok old) =
      IsOn w a × (old ≡ m w.word) × (old ≢ expect_not)
  Tells (load_if_ne w expect_not offset) m a (err (miss v)) =
      IsOn w a × (v ≡ m w.word) × (v ≡ expect_not)
  Tells (fetch_add_at w offset count) m a (ok old) =
      IsOn w a × (old ≡ m (m ((m w.word + offset) % 2 ^ 64)))
  Tells (fetch_add_at w offset count) m a (err (miss v)) = ⊥
  Tells (store_if w expect new side side_new) m a (ok old) =
      IsOn w a × (m w.word ≡ expect) × (old ≡ expect)
  Tells (store_if w expect new side side_new) m a (err (miss v)) =
      IsOn w a × (v ≡ m w.word) × (v ≢ expect)

  off_key :
      (o : Operation k) (m : Mem) (a : Area)
      → (index k a == (word_of o).key) ≡ false
      → Tells o m a (promised o m a).1
  off_key (compare_exchange w expect new) m a off = rw off (ne_of_== (index k a) w.key off)
  off_key (compare_exchange_if w expect new o other_expect) m a off =
      rw off (ne_of_== (index k a) w.key off)
  off_key (fetch_add w count) m a off = rw off (ne_of_== (index k a) w.key off)
  off_key (load_if_ne w expect_not offset) m a off = rw off (ne_of_== (index k a) w.key off)
  off_key (fetch_add_at w offset count) m a off = rw off (ne_of_== (index k a) w.key off)
  off_key (store_if w expect new side side_new) m a off = rw off (ne_of_== (index k a) w.key off)

  on_key :
      (o : Operation k) (m : Mem) (a : Area)
      → (index k a == (word_of o).key) ≡ true
      → Tells o m a (promised o m a).1
  on_key (compare_exchange w expect new) m a on = rw on (elim (Bool-cases (m w.word == expect)) [
    | inl same ↦ rw same (
      eq_of_== (index k a) w.key on,
      eq_of_== (m w.word) expect same,
      eq_of_== (m w.word) expect same,
    )
    | inr differs ↦
        rw differs (eq_of_== (index k a) w.key on, refl, ne_of_== (m w.word) expect differs)
  ])
  on_key (compare_exchange_if w expect new o other_expect) m a on =
      rw on (elim (Bool-cases (m w.word == expect)) [
        | inr differs ↦
            rw differs
              (eq_of_== (index k a) w.key on, inl (refl, ne_of_== (m w.word) expect differs))
        | inl same ↦ rw same (elim (Bool-cases (m o.word == other_expect)) [
          | inl same_too ↦ rw same_too (
            eq_of_== (index k a) w.key on,
            eq_of_== (m w.word) expect same,
            eq_of_== (m o.word) other_expect same_too,
            eq_of_== (m w.word) expect same,
          )
          | inr wrong ↦ rw wrong (
            eq_of_== (index k a) w.key on,
            inr (eq_of_== (m w.word) expect same, refl, ne_of_== (m o.word) other_expect wrong),
          )
        ])
      ])
  on_key (fetch_add w count) m a on = rw on (eq_of_== (index k a) w.key on, refl)
  on_key (load_if_ne w expect_not offset) m a on =
      rw on (elim (Bool-cases (m w.word == expect_not)) [
        | inl same ↦
            rw same (eq_of_== (index k a) w.key on, refl, eq_of_== (m w.word) expect_not same)
        | inr differs ↦
            rw differs (eq_of_== (index k a) w.key on, refl, ne_of_== (m w.word) expect_not differs)
      ])
  on_key (fetch_add_at w offset count) m a on = rw on (eq_of_== (index k a) w.key on, refl)
  on_key (store_if w expect new side side_new) m a on =
      rw on (elim (Bool-cases (m w.word == expect)) [
        | inl same ↦ rw same (
          eq_of_== (index k a) w.key on,
          eq_of_== (m w.word) expect same,
          eq_of_== (m w.word) expect same,
        )
        | inr differs ↦
            rw differs (eq_of_== (index k a) w.key on, refl, ne_of_== (m w.word) expect differs)
      ])

  pub promised-Tells : (o : Operation k) (m : Mem) (a : Area) → Tells o m a (promised o m a).1
  promised-Tells o m a = elim (Bool-cases (index k a == (word_of o).key)) [
    | inr elsewhere ↦ off_key o m a elsewhere
    | inl here ↦ on_key o m a here
  ]
