-- ===== src/Aarch64.antt =====
-- src/aarch64.rs: the lines of its `asm!` blocks, and the labels that their descriptors name.
use rseq_rs.Base.{ℕ, List, [], ◌∷◌}
use rseq_rs.Abi.{sig_aarch64}
use rseq_rs.Machine.{
  Insn, label, sig, jmp, jne, je, adrp_cs, add_lo12_cs, store_cs, load_id, cmp_32, cmp, load, store,
  mov, mov_imm, mov_xzr, add_3, Block,
}
use rseq_rs.Machine.{
  word, id, expect, new, side, side_new, other, other_expect, expect_not, offset, count, ptr, got,
  tmp, current, status, other_val, chase, base, slot, sum, prev,
}

-- the block of `compare_exchange`
abbrev pub compare_exchange_code : List Insn
compare_exchange_code =
    jmp 17
    ∷ sig sig_aarch64
    ∷ label 17
    ∷ adrp_cs tmp
    ∷ add_lo12_cs tmp
    ∷ store_cs tmp
    ∷ label 12
    ∷ load_id got
    ∷ cmp_32 got id
    ∷ jne 19
    ∷ load current word
    ∷ cmp current expect
    ∷ jne 18
    ∷ store word new
    ∷ label 16
    ∷ mov_xzr status
    ∷ jmp 30
    ∷ label 18
    ∷ mov_imm status 1
    ∷ jmp 30
    ∷ label 19
    ∷ mov_xzr current
    ∷ mov_imm status 2
    ∷ label 30
    ∷ []

abbrev pub compare_exchange : (id_off : ℕ) → Block
compare_exchange id_off = record {
  code = compare_exchange_code;
  start_label = 12;
  commit_label = 16;
  abort_label = 17;
  id_off = id_off;
  value = current;
}

-- the block of `fetch_add`
abbrev pub fetch_add_code : List Insn
fetch_add_code =
    jmp 27
    ∷ sig sig_aarch64
    ∷ label 27
    ∷ adrp_cs tmp
    ∷ add_lo12_cs tmp
    ∷ store_cs tmp
    ∷ label 22
    ∷ load_id got
    ∷ cmp_32 got id
    ∷ jne 29
    ∷ load prev word
    ∷ add_3 sum prev count
    ∷ store word sum
    ∷ label 26
    ∷ mov_xzr status
    ∷ jmp 20
    ∷ label 29
    ∷ mov_xzr prev
    ∷ mov_imm status 2
    ∷ label 20
    ∷ []

abbrev pub fetch_add : (id_off : ℕ) → Block
fetch_add id_off = record {
  code = fetch_add_code;
  start_label = 22;
  commit_label = 26;
  abort_label = 27;
  id_off = id_off;
  value = prev;
}

-- the block of `store_if`
abbrev pub store_if_code : List Insn
store_if_code =
    jmp 37
    ∷ sig sig_aarch64
    ∷ label 37
    ∷ adrp_cs tmp
    ∷ add_lo12_cs tmp
    ∷ store_cs tmp
    ∷ label 32
    ∷ load_id got
    ∷ cmp_32 got id
    ∷ jne 39
    ∷ load current word
    ∷ cmp current expect
    ∷ jne 38
    ∷ store side side_new
    ∷ store word new
    ∷ label 36
    ∷ mov_xzr status
    ∷ jmp 40
    ∷ label 38
    ∷ mov_imm status 1
    ∷ jmp 40
    ∷ label 39
    ∷ mov_xzr current
    ∷ mov_imm status 2
    ∷ label 40
    ∷ []

abbrev pub store_if : (id_off : ℕ) → Block
store_if id_off = record {
  code = store_if_code;
  start_label = 32;
  commit_label = 36;
  abort_label = 37;
  id_off = id_off;
  value = current;
}

-- the block of `compare_exchange_if`
abbrev pub compare_exchange_if_code : List Insn
compare_exchange_if_code =
    jmp 57
    ∷ sig sig_aarch64
    ∷ label 57
    ∷ adrp_cs tmp
    ∷ add_lo12_cs tmp
    ∷ store_cs tmp
    ∷ label 52
    ∷ load_id got
    ∷ cmp_32 got id
    ∷ jne 55
    ∷ load current word
    ∷ cmp current expect
    ∷ jne 54
    ∷ load other_val other
    ∷ cmp other_val other_expect
    ∷ jne 53
    ∷ store word new
    ∷ label 56
    ∷ mov_xzr status
    ∷ jmp 50
    ∷ label 53
    ∷ mov current other_val
    ∷ label 54
    ∷ mov_imm status 1
    ∷ jmp 50
    ∷ label 55
    ∷ mov_xzr current
    ∷ mov_imm status 2
    ∷ label 50
    ∷ []

abbrev pub compare_exchange_if : (id_off : ℕ) → Block
compare_exchange_if id_off = record {
  code = compare_exchange_if_code;
  start_label = 52;
  commit_label = 56;
  abort_label = 57;
  id_off = id_off;
  value = current;
}

-- the block of `load_if_ne`
abbrev pub load_if_ne_code : List Insn
load_if_ne_code =
    jmp 47
    ∷ sig sig_aarch64
    ∷ label 47
    ∷ adrp_cs tmp
    ∷ add_lo12_cs tmp
    ∷ store_cs tmp
    ∷ label 42
    ∷ load_id got
    ∷ cmp_32 got id
    ∷ jne 45
    ∷ load current word
    ∷ cmp current expect_not
    ∷ je 44
    ∷ add_3 chase current offset
    ∷ load chase chase
    ∷ store word chase
    ∷ label 46
    ∷ mov_xzr status
    ∷ jmp 41
    ∷ label 44
    ∷ mov_imm status 1
    ∷ jmp 41
    ∷ label 45
    ∷ mov_xzr current
    ∷ mov_imm status 2
    ∷ label 41
    ∷ []

abbrev pub load_if_ne : (id_off : ℕ) → Block
load_if_ne id_off = record {
  code = load_if_ne_code;
  start_label = 42;
  commit_label = 46;
  abort_label = 47;
  id_off = id_off;
  value = current;
}

-- the block of `fetch_add_at`
abbrev pub fetch_add_at_code : List Insn
fetch_add_at_code =
    jmp 67
    ∷ sig sig_aarch64
    ∷ label 67
    ∷ adrp_cs tmp
    ∷ add_lo12_cs tmp
    ∷ store_cs tmp
    ∷ label 62
    ∷ load_id got
    ∷ cmp_32 got id
    ∷ jne 65
    ∷ load base ptr
    ∷ add_3 base base offset
    ∷ load slot base
    ∷ load prev slot
    ∷ add_3 sum prev count
    ∷ store slot sum
    ∷ label 66
    ∷ mov_xzr status
    ∷ jmp 61
    ∷ label 65
    ∷ mov_xzr prev
    ∷ mov_imm status 2
    ∷ label 61
    ∷ []

abbrev pub fetch_add_at : (id_off : ℕ) → Block
fetch_add_at id_off = record {
  code = fetch_add_at_code;
  start_label = 62;
  commit_label = 66;
  abort_label = 67;
  id_off = id_off;
  value = prev;
}
