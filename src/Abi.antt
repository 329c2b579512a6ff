-- ===== src/Abi.antt =====
-- src/abi.rs: the kernel's `struct rseq` and the constants of its interface.
use rseq_rs.Base.{ℕ, ◌-◌, ◌^◌, ◌==◌, if◌then◌else◌}

-- `struct rseq`. `rseq_cs` is a u64, the other fields are u32.
pub record Area : Type 0 where
  pub cpu_id_start : ℕ
  pub cpu_id : ℕ
  pub rseq_cs : ℕ
  pub flags : ℕ
  pub node_id : ℕ
  pub mm_cid : ℕ
  pub slice_ctrl : ℕ

abbrev pub glibc_size_min : ℕ
glibc_size_min = 20

abbrev pub flag_unregister : ℕ
flag_unregister = 1

-- `u32::MAX` and `u32::MAX - 1`
abbrev pub cpu_uninit : ℕ
cpu_uninit = 2 ^ 32 - 1

abbrev pub cpu_reg_failed : ℕ
cpu_reg_failed = 2 ^ 32 - 2

abbrev pub sig_x86_64 : ℕ
sig_x86_64 = 0x5305_3053

abbrev pub sig_aarch64 : ℕ
sig_aarch64 = 0xd428_bc00

abbrev pub cpu_id_off : ℕ
cpu_id_off = 4

abbrev pub mm_cid_off : ℕ
mm_cid_off = 24

abbrev pub node_feature_size : ℕ
node_feature_size = 24

abbrev pub cid_feature_size : ℕ
cid_feature_size = 28

abbrev pub slice_feature_size : ℕ
slice_feature_size = 33

-- `size_of::<Area>()`
abbrev pub area_size : ℕ
area_size = 32

-- The u32 at a byte offset of the area. The offsets are those of `repr(C)`; 8 and 12 are the halves
-- of `rseq_cs`. No code reads at another offset, which is 0 here.
unfoldable pub field_at : Area → ℕ → ℕ
field_at a off =
    if off == 0
    then a.cpu_id_start
    else if off == cpu_id_off
    then a.cpu_id
    else if off == 16
    then a.flags
    else if off == 20
    then a.node_id
    else if off == mm_cid_off
    then a.mm_cid
    else if off == 28
    then a.slice_ctrl
    else 0
