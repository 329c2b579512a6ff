-- ===== src/Registration.antt =====
-- src/registration.rs: the area that the crate registers for a thread, and what it asks the system.
pub mod Bind
use rseq_rs.Base.{
  ℕ, ◌+◌, ◌-◌, ◌%◌, ◌^◌, Bool, true, false, ◌&&◌, ◌||◌, not, Option, none, some, ◌>>=◌, ◌==◌, ltb,
  leb, if◌then◌else◌,
}
use rseq_rs.Abi.{
  Area, area_size, cpu_uninit, cpu_reg_failed, flag_unregister, glibc_size_min, node_feature_size,
  cid_feature_size, slice_feature_size,
}

-- `rseq(area, len, flags, sig)` acts on the area of the thread and on a state `K` of the kernel; `true`
-- is the return value 0.
abbrev pub Syscall : Type 0 → Type 0
Syscall K = (len flags sig : ℕ) → Area × K → (Area × K) × Bool

-- `Registration::new`
abbrev pub fresh : Area
fresh = record {
  cpu_id_start = 0;
  cpu_id = cpu_uninit;
  rseq_cs = 0;
  flags = 0;
  node_id = 0;
  mm_cid = 0;
  slice_ctrl = 0;
}

-- The two values of `cpu_id` that are not a CPU.
unfoldable pub is_sentinel : ℕ → Bool
is_sentinel id = (id == cpu_uninit) || (id == cpu_reg_failed)

module _ {K : Type 0} (rseq : Syscall K) (sig : ℕ) where
  -- `register`, without the pointer: whether the area is registered.
  unfoldable pub register : Area × K → (Area × K) × Bool
  register (a, k) =
      if not (is_sentinel a.cpu_id) then ((a, k), true) else rseq area_size 0 sig (a, k)

  -- `drop`
  unfoldable pub drop : Area × K → Area × K
  drop s = (rseq area_size flag_unregister sig s).0

-- What `dlsym` and `getauxval` find: the addresses of the symbols, 0 where there is none, what stands
-- at the first two, and the size of the area that the kernel fills. `offset` is a two's complement.
pub record System : Type 0 where
  pub size_p : ℕ
  pub offset_p : ℕ
  pub flags_p : ℕ
  pub size : ℕ
  pub offset : ℕ
  pub feature_size : ℕ
  pub thread_pointer : ℕ

-- The offset and the size. `size` is a c_uint, which a usize holds.
unfoldable pub glibc_area_info : System → Option (ℕ × ℕ)
glibc_area_info sys =
    if (sys.size_p == 0) || (sys.offset_p == 0)
    then none
    else if ltb sys.size glibc_size_min
    then none
    else some (sys.offset, sys.size)

abbrev pub node_supported : System → Bool
node_supported sys = leb node_feature_size sys.feature_size

abbrev pub cid_supported : System → Bool
cid_supported sys = leb cid_feature_size sys.feature_size

abbrev pub slice_supported : System → Bool
slice_supported sys = leb slice_feature_size sys.feature_size

unfoldable pub libc_available : System → Bool
libc_available sys = not (sys.size_p == 0) && not (sys.offset_p == 0) && not (sys.flags_p == 0)

-- `tp.wrapping_offset(offset)`, through `NonNull::new`
unfoldable pub glibc_area : System → (offset : ℕ) → Option ℕ
glibc_area sys offset =
    let at = (sys.thread_pointer + offset) % 2 ^ 64 in if at == 0 then none else some at
