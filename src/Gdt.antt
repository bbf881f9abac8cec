-- ===== src/Gdt.antt =====
-- kernel/gdt/gdt.c and kernel/include/gdt/gdt.h: the segment table and the task state segment. The addresses
-- of `gdt` and `system_tss` are the linker's. The calls of `load_gdt` and `load_tss`, in assembly, are
-- recorded with what they are passed.
pub mod Descriptor
pub mod Segments
mod Tests
use doomkernel.Prelude.{
  ℕ, ◌+◌, ◌-◌, ◌*◌, ◌/◌, ◌%◌, ◌^◌, List, [], ◌∷◌, ◌==◌, if◌then◌else◌, replicate,
}

-- `gdt_entry`
pub record GdtEntry : Type 0 where
  pub limit_low : ℕ
  pub base_low : ℕ
  pub base_middle : ℕ
  pub access_flag : ℕ
  pub granularity : ℕ
  pub base_high : ℕ

-- `tss_entry`
pub record TssEntry : Type 0 where
  pub reserved0 : ℕ
  pub rsp0 : ℕ
  pub rsp1 : ℕ
  pub rsp2 : ℕ
  pub reserved1 : ℕ
  pub ist : List ℕ
  pub reserved2 : ℕ
  pub reserved3 : ℕ
  pub iomap_base : ℕ

-- `tss_gdt_entry`
pub record TssGdtEntry : Type 0 where
  pub limit_low : ℕ
  pub base_low : ℕ
  pub base_middle : ℕ
  pub access_flag : ℕ
  pub granularity : ℕ
  pub base_high : ℕ
  pub base_upper : ℕ
  pub reserved : ℕ

-- `gdt_pointer`
pub record GdtPointer : Type 0 where
  pub limit : ℕ
  pub base : ℕ

pub record Tables : Type 0 where
  pub gdt : ℕ → GdtEntry
  pub system_tss : TssEntry
  pub gdtp : GdtPointer

pub data Load : Type 0 where
  load_gdt : GdtPointer → ℕ → ℕ → Load
  load_tss : ℕ → Load

-- all bytes 0
abbrev pub null_entry : GdtEntry
null_entry = record {
  limit_low = 0;
  base_low = 0;
  base_middle = 0;
  access_flag = 0;
  granularity = 0;
  base_high = 0;
}

abbrev pub null_tss : TssEntry
null_tss = record {
  reserved0 = 0;
  rsp0 = 0;
  rsp1 = 0;
  rsp2 = 0;
  reserved1 = 0;
  ist = replicate 7 0;
  reserved2 = 0;
  reserved3 = 0;
  iomap_base = 0;
}

-- the high half of `flags`, and four ones
unfoldable pub set_gdt_entry : ℕ → ℕ → GdtEntry
set_gdt_entry access flags = record {
  limit_low = 0xFFFF;
  base_low = 0;
  base_middle = 0;
  access_flag = access % 256;
  granularity = flags % 256 / 16 * 16 + 15;
  base_high = 0;
}

unfoldable pub setup_tss_descriptor : ℕ → ℕ → TssGdtEntry
setup_tss_descriptor tss_base tss_limit = record {
  base_low = tss_base % 2 ^ 16;
  base_middle = tss_base / 2 ^ 16 % 256;
  base_high = tss_base / 2 ^ 24 % 256;
  base_upper = tss_base / 2 ^ 32 % 2 ^ 32;
  limit_low = tss_limit % 2 ^ 16;
  granularity = tss_limit / 2 ^ 16 % 256 % 16;
  access_flag = 0x89;
  reserved = 0;
}

-- A `tss_gdt_entry` lies over two entries of the table: its first 8 bytes are laid out as an entry,
-- and the two words behind them are cut into the fields of the next.
unfoldable pub first_half : TssGdtEntry → GdtEntry
first_half d = record {
  limit_low = d.limit_low;
  base_low = d.base_low;
  base_middle = d.base_middle;
  access_flag = d.access_flag;
  granularity = d.granularity;
  base_high = d.base_high;
}

unfoldable pub second_half : TssGdtEntry → GdtEntry
second_half d = record {
  limit_low = d.base_upper % 2 ^ 16;
  base_low = d.base_upper / 2 ^ 16;
  base_middle = d.reserved % 256;
  access_flag = d.reserved / 2 ^ 8 % 256;
  granularity = d.reserved / 2 ^ 16 % 256;
  base_high = d.reserved / 2 ^ 24;
}

abbrev pub put_entry : ℕ → GdtEntry → (ℕ → GdtEntry) → ℕ → GdtEntry
put_entry i e gdt k = if k == i then e else gdt k

-- the assignments to `gdt[0]` up to `gdt[6]`
unfoldable pub fill_gdt : ℕ → (ℕ → GdtEntry) → ℕ → GdtEntry
unfolding set_gdt_entry setup_tss_descriptor first_half second_half
fill_gdt tss_base gdt =
    let tss_desc = setup_tss_descriptor tss_base 103 in
    put_entry 6 (second_half tss_desc) (
      put_entry 5 (first_half tss_desc) (
        put_entry 4 (set_gdt_entry 0xFA 0xA0) (
          put_entry 3 (set_gdt_entry 0xF2 0x00) (
            put_entry 2 (set_gdt_entry 0x92 0x00)
              (put_entry 1 (set_gdt_entry 0x9A 0xA0) (put_entry 0 null_entry gdt))))))

-- `sizeof(tss_entry)` is 104 and `sizeof(gdt)` is 56.
unfoldable pub init_gdt : ℕ → ℕ → ℕ → Tables → Tables × List Load
unfolding fill_gdt
init_gdt gdt_address tss_address kernel_top t =
    let t' : Tables = record {
      gdt = fill_gdt tss_address t.gdt;
      system_tss = record null_tss { rsp0 = kernel_top; iomap_base = 104 };
      gdtp = record { limit = 55; base = gdt_address };
    } in
    (t', load_gdt t'.gdtp 0x08 0x10 ∷ load_tss 0x28 ∷ [])
