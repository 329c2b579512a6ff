-- ===== src/Drain/Tests.antt =====
-- A drain of benches/drain.rs on two CPUs whose words hold 5 and 7.
use rseq_rs.Base.{◌+◌, ◌≡◌, refl, true, false, some, List, [], ◌∷◌, arith}
use rseq_rs.Machine.{write}
use rseq_rs.Membarrier as Membarriers
use rseq_rs.Membarrier.{Command, Rc, zero_rc, State}
use rseq_rs.Region as Regions
use rseq_rs.Region.{mapped}
use rseq_rs.Rseq as Handles
use rseq_rs.Rseq.{Rseq, self_registered}
use rseq_rs.Thread as Ops
use rseq_rs.Words as Slots
use rseq_rs.Words.{Words}
use rseq_rs.Counter.{total}
use rseq_rs.Drain.{Drain, steal, steal_below, steal_all}
use rseq_rs.Drain.Conserved.{sum, steal_all-Conserved}

-- The kernel keeps the commands.
abbrev syscall : Command → List Command → List Command × Rc
syscall cmd log = (cmd ∷ log, zero_rc)

abbrev words : Words
words = record { region = mapped 0x1000 4096; cpus = 2 }

abbrev handle : Rseq
handle = record { mode = self_registered; cpus = 2; node = true; cid = true; slice = false }

abbrev held : Drain (List Command)
held = record {
  fences = record { ready = some true; used = false; kernel = [] };
  mem = write (write (λ a. 0) 0x1000 5) 0x1008 7;
  stolen = [];
}

steals : (steal_all syscall handle words held).stolen ≡ 7 ∷ 5 ∷ []
unfolding steal steal_below Handles.fence Membarriers.fence Membarriers.run Membarriers.ready
    Slots.get Regions.word Regions.base Ops.cpu_id_new
steals = refl

fences_each :
    (steal_all syscall handle words held).fences.kernel
    ≡ Membarriers.expedited 1 1 ∷ Membarriers.expedited 1 0 ∷ []
unfolding steal steal_below Handles.fence Membarriers.fence Membarriers.run Membarriers.ready
    Slots.get Regions.word Regions.base Ops.cpu_id_new
fences_each = refl

steal_all-Conserved_example :
    let d' = steal_all syscall handle words held in
    (sum d'.stolen ≡ sum [] + total words held.mem) × (total words d'.mem ≡ 0)
steal_all-Conserved_example = steal_all-Conserved syscall handle words (omega arith) refl held
