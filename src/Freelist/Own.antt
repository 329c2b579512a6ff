-- ===== src/Freelist/Own.antt =====
-- The word of the CPU that a turn of benches/freelist.rs runs on.
use rseq_rs.Base.{◌<◌, ◌≡◌, ap, ◌∙◌, true, some, ◌>>=◌, ◌==◌, ℕ, arith, IsU32}
use rseq_rs.Abi.{Area}
use rseq_rs.Words.{Words, get}
use rseq_rs.Words.Slots.{get-slot, get-some_iff}
use rseq_rs.Thread.{cpu_kind, Word, cpu_id}
use rseq_rs.Thread.Promise.{index}
use rseq_rs.Thread.Reads.{on_index}
use rseq_rs.Freelist.Chain.{slot}

-- On a CPU that has a word, a turn finds it, and its index test passes.
pub own_word :
    (ws : Words) (small : IsU32 ws.cpus) (a : Area) (cpu : ℕ)
    → cpu_id a ≡ some cpu
    → cpu < ws.cpus
    → (w : Word cpu_kind) × ((cpu_id a >>= get ws) ≡ some w)
      × (w.word ≡ slot ws cpu)
      × IsU32 w.key
      × ((index cpu_kind a == w.key) ≡ true)
own_word ws small a cpu here within =
    let (w, there, keyed) = (get-some_iff {k = cpu_kind} ws cpu small).1 within in
    let (_, place, _) = get-slot ws cpu small w there in
    (
      w,
      ap (λ o. o >>= get {k = cpu_kind} ws) here ∙ there,
      place,
      omega (arith, within, small, keyed),
      rw keyed (on_index a cpu (omega (arith, within, small)) here),
    )
