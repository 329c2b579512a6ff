-- ===== src/Fallback.antt =====
-- src/fallback.rs: what the registration is on a target without critical sections. The stubs of the sections
-- are in Cs.
use rseq_rs.Base.{ℕ, ◌≡◌, refl, Bool, false, Option, none}
use rseq_rs.Registration.{Syscall, System}
use rseq_rs.Rseq.{Local, init_by}

-- `Registration::bind`
abbrev pub bind : Option ℕ
bind = none

abbrev pub glibc_area_info : Option (ℕ × ℕ)
glibc_area_info = none

abbrev pub node_supported : Bool
node_supported = false

abbrev pub cid_supported : Bool
cid_supported = false

abbrev pub slice_supported : Bool
slice_supported = false

abbrev pub kernel_available : Bool
kernel_available = false

abbrev pub libc_available : Bool
libc_available = false

abbrev pub glibc_area : (offset : ℕ) → Option ℕ
glibc_area offset = none

-- `Rseq::init` with these stubs gives no handle.
init-none :
    {K : Type 0} (rseq : Syscall K) (sig : ℕ) (possible : Option ℕ) (sys : System) (t : Local K)
    → init_by rseq sig possible sys glibc_area_info (t, bind) t ≡ (t, none)
init-none rseq sig possible sys t = refl
