-- ===== src/Processors/Direct.antt =====
-- The blocks of `compare_exchange`, `compare_exchange_if` and `fetch_add` take their addresses from
-- operands, behind the test of the index.
use rseq_rs.Base.{ℕ, ◌≡◌, refl, Bool, true, ◌||◌, ◌==◌, arith}
use rseq_rs.Abi.{Area, field_at}
use rseq_rs.Machine.{Reg, number, got, find_label}
use rseq_rs.Section.Check.{is_input}
use rseq_rs.Section.Direct.{IsDirect}
use rseq_rs.Cs
use rseq_rs.Cs.{Arch, x86_64, aarch64}
use rseq_rs.Thread.{Kind, cpu_kind, cid_kind, off}

abbrev pub reads_word : Reg → Bool
reads_word r = number r == number Reg.word

abbrev pub reads_both : Reg → Bool
reads_both r = (number r == number Reg.word) || (number r == number Reg.other)

pub word-input : (r : Reg) → reads_word r ≡ true → is_input r ≡ true
word-input r h = ground arith

pub both-input : (r : Reg) → reads_both r ≡ true → is_input r ≡ true
both-input r h = ground arith

-- The descriptor is no index.
pub keeps_index :
    (kind : Kind) (a : Area) (v : ℕ)
    → field_at (record a { rseq_cs = v }) (off kind) ≡ field_at a (off kind)
unfolding field_at
keeps_index cpu_kind a v = refl
keeps_index cid_kind a v = refl

module _ (kind : Kind) where
  unfoldable pub compare_exchange-IsDirect :
      (arch : Arch) → IsDirect (Cs.compare_exchange_block arch (off kind))
  unfolding find_label
  compare_exchange-IsDirect x86_64 = record {
    got = got;
    first = 12;
    out = 19;
    begins = refl;
    fetches = refl;
    compares = refl;
    leaves = refl;
    other_register = refl;
    reads = reads_word;
    operands_only = word-input;
    addresses = refl;
    quiet = refl;
    keeps_index = keeps_index kind;
  }
  compare_exchange-IsDirect aarch64 = record {
    got = got;
    first = 12;
    out = 19;
    begins = refl;
    fetches = refl;
    compares = refl;
    leaves = refl;
    other_register = refl;
    reads = reads_word;
    operands_only = word-input;
    addresses = refl;
    quiet = refl;
    keeps_index = keeps_index kind;
  }

  unfoldable pub compare_exchange_if-IsDirect :
      (arch : Arch) → IsDirect (Cs.compare_exchange_if_block arch (off kind))
  unfolding find_label
  compare_exchange_if-IsDirect x86_64 = record {
    got = got;
    first = 52;
    out = 55;
    begins = refl;
    fetches = refl;
    compares = refl;
    leaves = refl;
    other_register = refl;
    reads = reads_both;
    operands_only = both-input;
    addresses = refl;
    quiet = refl;
    keeps_index = keeps_index kind;
  }
  compare_exchange_if-IsDirect aarch64 = record {
    got = got;
    first = 52;
    out = 55;
    begins = refl;
    fetches = refl;
    compares = refl;
    leaves = refl;
    other_register = refl;
    reads = reads_both;
    operands_only = both-input;
    addresses = refl;
    quiet = refl;
    keeps_index = keeps_index kind;
  }

  unfoldable pub fetch_add-IsDirect : (arch : Arch) → IsDirect (Cs.fetch_add_block arch (off kind))
  unfolding find_label
  fetch_add-IsDirect x86_64 = record {
    got = got;
    first = 22;
    out = 29;
    begins = refl;
    fetches = refl;
    compares = refl;
    leaves = refl;
    other_register = refl;
    reads = reads_word;
    operands_only = word-input;
    addresses = refl;
    quiet = refl;
    keeps_index = keeps_index kind;
  }
  fetch_add-IsDirect aarch64 = record {
    got = got;
    first = 22;
    out = 29;
    begins = refl;
    fetches = refl;
    compares = refl;
    leaves = refl;
    other_register = refl;
    reads = reads_word;
    operands_only = word-input;
    addresses = refl;
    quiet = refl;
    keeps_index = keeps_index kind;
  }
