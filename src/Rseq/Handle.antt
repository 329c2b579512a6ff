-- ===== src/Rseq/Handle.antt =====
-- What the handle of src/rseq.rs and its threads may rely on.
use mathlib.Core.List
use mathlib.Core.Option.{some-injective}
use mathlib.Core.Path.{subst}
use rseq_rs.Base.{
  ℕ, ◌≤◌, ◌<◌, ◌≡◌, refl, sym, ap, ◌∙◌, Bool, true, false, ◌&&◌, ◌||◌, ◌==◌, Option, none, some,
  ◌>>=◌, List, [], ◌∷◌, inl, inr, leb, if◌then◌else◌, ltb, lt_of_ltb, Bool-cases, arith, IsU32,
}
use rseq_rs.Abi.{Area, glibc_size_min, slice_feature_size}
use rseq_rs.Registration.{
  Syscall, System, is_sentinel, glibc_area_info, slice_supported, node_supported, cid_supported,
}
use rseq_rs.Membarrier.{Command, expedited, flag_cpu, Rc, State}
use rseq_rs.Membarrier.Laws.{Answered, fence_sound}
use rseq_rs.Words.{Words, get}
use rseq_rs.Words.Slots.{get-some_iff, new-cpus}
use rseq_rs.Thread.{Kind, Word, Thread, cpu_id, cpu_id_new}
use rseq_rs.Rseq as Handles
use rseq_rs.Rseq.{
  Mode, glibc, self_registered, Rseq, Local, init, area, bind, thread_at, init_by, bind_own, handle,
  words,
}

cpu_id-real : (a : Area) → is_sentinel a.cpu_id ≡ false → cpu_id a ≡ some a.cpu_id
unfolding cpu_id cpu_id_new is_sentinel
cpu_id-real a real = ap (λ (b : Bool). if b then none else some a.cpu_id) real

info-size :
    (sys : System) (offset size : ℕ) → glibc_area_info sys ≡ some (offset, size) → size ≡ sys.size
unfolding glibc_area_info
info-size sys offset size found = elim (Bool-cases ((sys.size_p == 0) || (sys.offset_p == 0))) [
  | inl absent ↦ let gone : glibc_area_info sys ≡ none = rw absent refl in absurd (cc)
  | inr present ↦ elim (Bool-cases (ltb sys.size glibc_size_min)) [
    | inl small ↦ let gone : glibc_area_info sys ≡ none = rw (present, small) refl in absurd (cc)
    | inr large ↦
        let there : glibc_area_info sys ≡ some (sys.offset, sys.size) = rw (present, large) refl in
        let same : (offset, size) ≡ (sys.offset, sys.size) = cc in ap (λ (p : ℕ × ℕ). p.1) same
  ]
]

abbrev made_by : (cpus : ℕ) → System → Mode → Bool → Rseq
made_by cpus sys mode slice = record {
  mode = mode;
  cpus = cpus;
  node = node_supported sys;
  cid = cid_supported sys;
  slice = slice;
}

handle-fields :
    (possible : Option ℕ) (sys : System) (mode : Mode) (slice : Bool) (r : Rseq)
    → handle possible sys mode slice ≡ some r
    → (r.mode ≡ mode) × (r.slice ≡ slice)
handle-fields none sys mode slice r made = absurd (cc)
handle-fields (some cpus) sys mode slice r made =
    let same = some-injective (made_by cpus sys mode slice) r made in
    (sym (ap (λ (x : Rseq). x.mode) same), sym (ap (λ (x : Rseq). x.slice) same))

module _ {K : Type 0} (rseq : Syscall K) (sig : ℕ) (possible : Option ℕ) (sys : System) where
  thread_at-cpu :
      (r : Rseq) (found : Option (ℕ × Area)) (th : Thread)
      → (found >>= thread_at rseq sig possible sys r) ≡ some th
      → (a : Area) × (found ≡ some (th.area, a)) × (cpu_id a ≡ some a.cpu_id)
  thread_at-cpu r none th made = absurd (cc)
  thread_at-cpu r (some (at, a)) th made = elim (Bool-cases (is_sentinel a.cpu_id)) [
    | inl bad ↦
        let gone : thread_at rseq sig possible sys r (at, a) ≡ none = rw bad refl in absurd (cc)
    | inr real ↦
        let bound : Thread = record { area = at; node = r.node; cid = r.cid; slice = r.slice } in
        let there : thread_at rseq sig possible sys r (at, a) ≡ some bound = rw real refl in
        let same : bound ≡ th = cc in
        (a, ap (λ (x : Thread). some (x.area, a)) same, cpu_id-real a real)
  ]

  init_by-slice :
      (info : Option (ℕ × ℕ)) (own : Local K × Option ℕ) (t : Local K) (r : Rseq)
      → (init_by rseq sig possible sys info own t).1 ≡ some r
      → r.slice ≡ true
      → (offset size : ℕ) × (info ≡ some (offset, size))
        × (r.mode ≡ glibc offset)
        × (slice_feature_size ≤ sys.feature_size)
        × (slice_feature_size ≤ size)
  init_by-slice none (t', none) t r made on = absurd (cc)
  init_by-slice none (t', some at) t r made on =
      let (_, off) = handle-fields possible sys self_registered false r made in absurd (cc)
  init_by-slice (some (offset, size)) own t r made on =
      let (mode, both) =
        handle-fields possible sys (glibc offset)
          (slice_supported sys && leb slice_feature_size size) r made in
      let holds : (slice_supported sys && leb slice_feature_size size) ≡ true = sym both ∙ on in
      (offset, size, refl, mode, ground arith, ground arith)

  -- The area of a thread that `bind` gives holds a CPU, and `cpu_id` gives it.
  pub bind-cpu :
      (r : Rseq) (t : Local K) (th : Thread)
      → (bind rseq sig possible sys r t).1 ≡ some th
      → (a : Area) × ((area rseq sig possible sys r t).1 ≡ some (th.area, a))
        × (cpu_id a ≡ some a.cpu_id)
  unfolding bind
  bind-cpu r t th made = thread_at-cpu r (area rseq sig possible sys r t).1 th made

  -- `slice` is set only where glibc registered the area, and both the kernel and the registration report
  -- the 33 bytes that the field needs.
  pub init-slice :
      (t : Local K) (r : Rseq)
      → (init rseq sig possible sys t).1 ≡ some r
      → r.slice ≡ true
      → (offset : ℕ) × (r.mode ≡ glibc offset)
        × (slice_feature_size ≤ sys.feature_size)
        × (slice_feature_size ≤ sys.size)
  unfolding init
  init-slice t r made on =
      let (offset, size, found, mode, kernel, registered) =
        init_by-slice (glibc_area_info sys) (bind_own rseq sig possible sys t) t r made on in
      (
        offset,
        mode,
        kernel,
        subst (λ n. slice_feature_size ≤ n) (info-size sys offset size found) registered,
      )

  -- The results of `new`, called by one thread after another, each with its own slot.
  abbrev pub new_by : Option (Option Rseq) → List (Local K) → List (Option Rseq)
  new_by once [] = []
  new_by once (t ∷ ts) =
      let (after, r) = Handles.new rseq sig possible sys (once, t) in r ∷ new_by after.0 ts

  new_by-set : (r : Option Rseq) (ts : List (Local K)) → new_by (some r) ts ≡ List.map (λ t. r) ts
  unfolding Handles.new
  new_by-set r [] = refl
  new_by-set r (t ∷ ts) = ap (λ rs. r ∷ rs) (new_by-set r ts)

  -- Whichever threads call `new`, in whatever order: all get what `init` gave the first of them, whether
  -- that is a handle or `None`, even where a later thread would have found another.
  pub new-all :
      (t : Local K) (ts : List (Local K))
      → new_by none (t ∷ ts) ≡ List.map (λ u. (init rseq sig possible sys t).1) (t ∷ ts)
  unfolding Handles.new
  new-all t ts = let (t', r) = init rseq sig possible sys t in ap (λ rs. r ∷ rs) (new_by-set r ts)

module _ {K : Type 0} (syscall : Command → K → K × Rc) (r : Rseq) where
  -- Whatever the kernel answers: a fence of a CPU gives true only if the CPU is one of those
  -- counted, and the last call of the kernel was the fence of this CPU, which it answered with 0.
  pub counted_fence_sound :
      (cpu : ℕ) (s : State K)
      → (Handles.fence syscall r cpu s).1 ≡ true
      → (cpu < r.cpus)
        × Answered syscall (expedited flag_cpu cpu) (Handles.fence syscall r cpu s).0.kernel
  unfolding Handles.fence
  counted_fence_sound cpu s = elim (Bool-cases (ltb cpu r.cpus)) [
    | inl inside ↦
        rw inside (λ done. (lt_of_ltb cpu r.cpus inside, (fence_sound syscall cpu s done).1))
    | inr outside ↦ rw outside (λ done. absurd (cc))
  ]

-- For a count that is a u32: the words that the handle maps have one for each CPU that it counts,
-- with the CPU as its key.
pub words-cover :
    {k : Kind} (mmap : ℕ → ℕ) (r : Rseq) (ws : Words)
    → IsU32 r.cpus
    → words mmap r ≡ some ws
    → (key : ℕ) → key < r.cpus
    → (w : Word k) × (get ws key ≡ some w) × (w.key ≡ key)
unfolding words
words-cover mmap r ws small made key within =
    let same = new-cpus mmap r.cpus ws made in
    (get-some_iff ws key (subst IsU32 (sym same) small)).1 (omega (arith, same, within))
