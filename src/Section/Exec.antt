-- ===== src/Section/Exec.antt =====
-- What a line does, by the class that the check puts it in.
use rseq_rs.Base.{
  some, get_elem?, ℕ, suc, ◌≤◌, ◌<◌, ◌≡◌, refl, ap, ◌∙◌, Bool, true, false, ◌&&◌, not, ◌⊎◌, inl,
  inr, arith, ltb, leb, ◌==◌, if◌then◌else◌, length,
}
use rseq_rs.Abi.{Area}
use rseq_rs.Machine.{
  Reg, number, Insn, label, sig, jmp, jne, je, lea_cs, adrp_cs, add_lo12_cs, store_cs, load_id,
  cmp_32, cmp, load, store, xadd, mov, mov_imm, xor_self, mov_xzr, add, add_3, Block, find_label,
  State, Mem, set_reg, exec, write,
}
use rseq_rs.Section.Check.{
  is_input, keeps_inputs, is_plain, is_scratch, is_commit, is_epilogue, is_arming, stores_side,
}
use rseq_rs.Section.Lines.{stores_side-get, find_label-le, and-left, and-right}

number-ne : (a b : ℕ) → not (ltb a 13) ≡ true → ltb b 13 ≡ true → (a == b) ≡ false
number-ne a b h k = ground arith

-- A register that is an output is no input.
set_reg-input :
    (f : Reg → ℕ) (d r : Reg) (v : ℕ)
    → not (is_input d) ≡ true
    → is_input r ≡ true
    → set_reg f d v r ≡ f r
set_reg-input f d r v hd hr = rw (number-ne (number d) (number r) hd hr) refl

pub exec-input :
    (desc : ℕ) (blk : Block) (i : Insn) (s : State) (r : Reg)
    → keeps_inputs i ≡ true
    → is_input r ≡ true
    → (exec desc blk i s).regs r ≡ s.regs r
unfolding exec
exec-input desc blk (label k) s r h e = refl
exec-input desc blk (sig k) s r h e = refl
exec-input desc blk (jmp l) s r h e = refl
exec-input desc blk (jne l) s r h e = refl
exec-input desc blk (je l) s r h e = refl
exec-input desc blk (store_cs d) s r h e = refl
exec-input desc blk (cmp_32 a b) s r h e = refl
exec-input desc blk (cmp a b) s r h e = refl
exec-input desc blk (store a b) s r h e = refl
exec-input desc blk (lea_cs d) s r h e = set_reg-input s.regs d r _ h e
exec-input desc blk (adrp_cs d) s r h e = set_reg-input s.regs d r _ h e
exec-input desc blk (add_lo12_cs d) s r h e = set_reg-input s.regs d r _ h e
exec-input desc blk (load_id d) s r h e = set_reg-input s.regs d r _ h e
exec-input desc blk (load d a) s r h e = set_reg-input s.regs d r _ h e
exec-input desc blk (xadd a d) s r h e = set_reg-input s.regs d r _ h e
exec-input desc blk (mov d a) s r h e = set_reg-input s.regs d r _ h e
exec-input desc blk (mov_imm d k) s r h e = set_reg-input s.regs d r _ h e
exec-input desc blk (xor_self d) s r h e = set_reg-input s.regs d r _ h e
exec-input desc blk (mov_xzr d) s r h e = set_reg-input s.regs d r _ h e
exec-input desc blk (add d a) s r h e = set_reg-input s.regs d r _ h e
exec-input desc blk (add_3 d a b) s r h e = set_reg-input s.regs d r _ h e

-- A change of what the thread shares, as an interruption makes it.
abbrev pub share : (Mem → Mem) → Area → State → State
share others area s = record s { mem = others s.mem; area = area }

-- A plain line does not see what is shared, and leads to the next line.
pub exec-plain :
    (desc : ℕ) (blk : Block) (i : Insn) (s : State) (g : Mem → Mem) (a : Area)
    → is_plain i ≡ true
    → (exec desc blk i (share g a s) ≡ share g a (exec desc blk i s))
      × ((exec desc blk i s).ip ≡ suc s.ip)
      × ((exec desc blk i s).mem ≡ s.mem)
      × ((exec desc blk i s).area ≡ s.area)
unfolding exec
exec-plain desc blk (label k) s g a h = (refl, refl, refl, refl)
exec-plain desc blk (lea_cs d) s g a h = (refl, refl, refl, refl)
exec-plain desc blk (adrp_cs d) s g a h = (refl, refl, refl, refl)
exec-plain desc blk (add_lo12_cs d) s g a h = (refl, refl, refl, refl)
exec-plain desc blk (mov d r) s g a h = (refl, refl, refl, refl)
exec-plain desc blk (mov_imm d k) s g a h = (refl, refl, refl, refl)
exec-plain desc blk (xor_self d) s g a h = (refl, refl, refl, refl)
exec-plain desc blk (mov_xzr d) s g a h = (refl, refl, refl, refl)
exec-plain desc blk i s g a h = absurd (cc)

pub exec-arming :
    (desc : ℕ) (blk : Block) (i : Insn) (s : State)
    → is_arming i ≡ true
    → ((exec desc blk i s).ip ≡ suc s.ip) × ((exec desc blk i s).mem ≡ s.mem)
unfolding exec
exec-arming desc blk (store_cs d) s h = (refl, refl)
exec-arming desc blk i s h = absurd (cc)

-- A change of memory before the commit: none, or the scratch store.
abbrev pub Scratch : Block → (Reg → ℕ) → Mem → Mem → Type 0
Scratch blk r m m' =
    (m' ≡ m) ⊎ ((stores_side blk.code ≡ true) × (m' ≡ write m (r Reg.side) (r Reg.side_new)))

number_side : (r : Reg) → (number r == number Reg.side) ≡ true → r ≡ Reg.side
number_side Reg.side h = refl
number_side r h = absurd (cc)

number_side_new : (r : Reg) → (number r == number Reg.side_new) ≡ true → r ≡ Reg.side_new
number_side_new Reg.side_new h = refl
number_side_new r h = absurd (cc)

-- `q` is the next position, or lies ahead at `co` or later.
abbrev pub Ahead : Block → (p co q : ℕ) → Type 0
Ahead blk p co q = (q ≡ suc p) ⊎ ((p < q) × (co ≤ q) × (q ≤ length blk.code))

module _ (desc : ℕ) (blk : Block) (p : ℕ) (s : State) (at : s.ip ≡ p) where
  pub exec-commit : (i : Insn) → is_commit i ≡ true → (exec desc blk i s).ip ≡ suc p
  unfolding exec
  exec-commit (store a r) h = ap suc at
  exec-commit (xadd a r) h = ap suc at
  exec-commit i h = absurd (cc)

  target-Ahead :
      (co l : ℕ)
      → (ltb p (find_label blk.code l) && leb co (find_label blk.code l)) ≡ true
      → Ahead blk p co (find_label blk.code l)
  target-Ahead co l h =
      let small = find_label-le blk.code l in inr (ground arith, ground arith, small)

  if-Ahead :
      {co : ℕ} (z : Bool) (q r : ℕ)
      → Ahead blk p co q
      → Ahead blk p co r
      → Ahead blk p co (if z then q else r)
  if-Ahead true q r hq hr = hq
  if-Ahead false q r hq hr = hr

  pub exec-Scratch :
      (co : ℕ) (i : Insn)
      → get_elem? blk.code p ≡ some i
      → is_scratch blk.code co p i ≡ true
      → Ahead blk p co (exec desc blk i s).ip
        × ((exec desc blk i s).area ≡ s.area)
        × Scratch blk s.regs s.mem (exec desc blk i s).mem
  unfolding exec
  exec-Scratch co (label k) e h = (inl (ap suc at), refl, inl refl)
  exec-Scratch co (jne l) e h =
      (if-Ahead s.zf _ _ (inl (ap suc at)) (target-Ahead co l h), refl, inl refl)
  exec-Scratch co (je l) e h =
      (if-Ahead s.zf _ _ (target-Ahead co l h) (inl (ap suc at)), refl, inl refl)
  exec-Scratch co (load_id d) e h = (inl (ap suc at), refl, inl refl)
  exec-Scratch co (cmp_32 a b) e h = (inl (ap suc at), refl, inl refl)
  exec-Scratch co (cmp a b) e h = (inl (ap suc at), refl, inl refl)
  exec-Scratch co (load d a) e h = (inl (ap suc at), refl, inl refl)
  exec-Scratch co (store a r) e h =
      let fst = and-left (number a == number Reg.side) (number r == number Reg.side_new) h in
      let snd = and-right (number a == number Reg.side) (number r == number Reg.side_new) h in
      (
        inl (ap suc at),
        refl,
        inr (stores_side-get blk.code p e fst, rw (number_side a fst, number_side_new r snd) refl),
      )
  exec-Scratch co (mov d r) e h = (inl (ap suc at), refl, inl refl)
  exec-Scratch co (add d r) e h = (inl (ap suc at), refl, inl refl)
  exec-Scratch co (add_3 d a b) e h = (inl (ap suc at), refl, inl refl)
  exec-Scratch co i e h = absurd (cc)

  pub exec-epilogue :
      (co : ℕ) (i : Insn) (g : Mem → Mem) (a : Area)
      → is_epilogue blk.code co p i ≡ true
      → Ahead blk p co (exec desc blk i s).ip
        × (exec desc blk i (share g a s) ≡ share g a (exec desc blk i s))
        × ((exec desc blk i s).mem ≡ s.mem)
  unfolding exec
  exec-epilogue co (jmp l) g a h = (target-Ahead co l h, refl, refl)
  exec-epilogue co i g a h =
      let f = exec-plain desc blk i s g a h in (inl (f.1 ∙ ap suc at), f.0, f.2)
