-- ===== src/Gdt/Segments.antt =====
-- What the processor reads in the table that `init_gdt` leaves.
use doomkernel.Prelude.{ℕ, ◌+◌, ◌*◌, ◌^◌, ◌<◌, ◌≡◌, refl, true, false, [], ◌∷◌, arith}
use doomkernel.Gdt.{
  Tables, load_gdt, load_tss, set_gdt_entry, setup_tss_descriptor, first_half, second_half,
  fill_gdt, init_gdt,
}
use doomkernel.Gdt.Descriptor.{
  entry_word, selected, Segment, segment, segment_limit, system_base, system_type,
}

-- a present code or data segment of a ring
abbrev pub code_of : ℕ → Segment
code_of ring = record {
  present = true;
  ring = ring;
  not_system = true;
  executable = true;
  accessible = true;
  long_mode = true;
}

abbrev pub data_of : ℕ → Segment
data_of ring = record (code_of ring) { executable = false; long_mode = false }

-- The processor reads in the two entries of a task state segment its base and its limit, for any
-- 64-bit base and any limit of 20 bits, and an available 64-bit one of ring 0.
pub setup_tss_descriptor-read :
    (tss_base tss_limit : ℕ)
    → tss_base < 2 ^ 64
    → tss_limit < 2 ^ 20
    → let low = entry_word (first_half (setup_tss_descriptor tss_base tss_limit)) in
      let high = entry_word (second_half (setup_tss_descriptor tss_base tss_limit)) in
      (system_base low high ≡ tss_base)
      × (segment_limit low ≡ tss_limit)
      × (system_type low ≡ 9)
      × ((segment low).ring ≡ 0)
      × ((segment low).present ≡ true)
unfolding setup_tss_descriptor first_half second_half
setup_tss_descriptor-read tss_base tss_limit h l =
    (omega arith, omega arith, omega arith, omega arith, ground arith)

-- `init_gdt` leaves, whatever the tables held, a null entry, and under the selectors that it loads and
-- those of user mode a code and a data segment of ring 0 and of ring 3. Under the selector of
-- the task register the processor reads the task state segment at its address, all its 104 bytes and
-- no permission map behind them, where the stack of ring 0 is the one given. The table ends within the
-- limit loaded.
pub init_gdt-Segments :
    (gdt_address tss_address kernel_top : ℕ) (t : Tables)
    → tss_address < 2 ^ 64
    → let r = init_gdt gdt_address tss_address kernel_top t in
      (selected r.0 0 ≡ 0)
      × (segment (selected r.0 0x08) ≡ code_of 0)
      × (segment (selected r.0 0x10) ≡ data_of 0)
      × (segment (selected r.0 0x1B) ≡ data_of 3)
      × (segment (selected r.0 0x23) ≡ code_of 3)
      × (system_base (selected r.0 0x28) (selected r.0 0x30) ≡ tss_address)
      × (segment_limit (selected r.0 0x28) + 1 ≡ r.0.system_tss.iomap_base)
      × (system_type (selected r.0 0x28) ≡ 9)
      × (r.0.system_tss.rsp0 ≡ kernel_top)
      × (r.0.gdtp.limit + 1 ≡ 7 * 8)
      × (r.1 ≡ load_gdt (record { limit = 55; base = gdt_address }) 0x08 0x10 ∷ load_tss 0x28 ∷ [])
unfolding init_gdt fill_gdt set_gdt_entry
init_gdt-Segments gdt_address tss_address kernel_top t h =
    let (base, limit, type, ring, here) =
      setup_tss_descriptor-read tss_address 103 h (omega arith) in
    (refl, refl, refl, refl, refl, base, omega (arith, limit), type, refl, refl, refl)
