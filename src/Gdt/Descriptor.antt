-- ===== src/Gdt/Descriptor.antt =====
-- How the processor (x86-64) reads the 8 bytes of an entry of the segment table.
use doomkernel.Prelude.{ℕ, ◌+◌, ◌*◌, ◌/◌, ◌%◌, ◌^◌, Bool, ◌==◌}
use doomkernel.Gdt.{GdtEntry, Tables}

-- the bytes of the packed entry as a little-endian word
abbrev pub entry_word : GdtEntry → ℕ
entry_word e =
    e.limit_low
    + 2 ^ 16 * e.base_low
    + 2 ^ 32 * e.base_middle
    + 2 ^ 40 * e.access_flag
    + 2 ^ 48 * e.granularity
    + 2 ^ 56 * e.base_high

-- the entry that a selector names: the bits above its table flag and its privilege
abbrev pub selected : Tables → ℕ → ℕ
selected t selector = entry_word (t.gdt (selector / 8))

abbrev pub bit : ℕ → ℕ → Bool
bit w i = w / 2 ^ i % 2 == 1

pub record Segment : Type 0 where
  pub present : Bool
  pub ring : ℕ
  pub not_system : Bool
  pub executable : Bool
  pub accessible : Bool
  pub long_mode : Bool

-- `accessible`: a code segment can be read, a data segment can be written
abbrev pub segment : ℕ → Segment
segment w = record {
  present = bit w 47;
  ring = w / 2 ^ 45 % 4;
  not_system = bit w 44;
  executable = bit w 43;
  accessible = bit w 41;
  long_mode = bit w 53;
}

abbrev pub segment_base : ℕ → ℕ
segment_base w = w / 2 ^ 16 % 2 ^ 24 + 2 ^ 24 * (w / 2 ^ 56 % 256)

abbrev pub segment_limit : ℕ → ℕ
segment_limit w = w % 2 ^ 16 + 2 ^ 16 * (w / 2 ^ 48 % 16)

-- a system segment takes two entries; the second holds the upper half of its base
abbrev pub system_base : ℕ → ℕ → ℕ
system_base low high = segment_base low + 2 ^ 32 * (high % 2 ^ 32)

-- 9 is an available 64-bit task state segment
abbrev pub system_type : ℕ → ℕ
system_type w = w / 2 ^ 40 % 16
