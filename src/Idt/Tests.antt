-- ===== src/Idt/Tests.antt =====
-- The interrupt table at concrete addresses.
use doomkernel.Prelude.{
  ℕ, ◌+◌, ◌*◌, ◌≡◌, ◌↔◌, refl, some, List, replicate, length-replicate, get_elem?, arith,
}
use doomkernel.Idt.{Gate, Stub, isr, irq, idt_init}
use doomkernel.Idt.Gates.{handler, ring, IsInterruptGate, idt_init-IsInterruptGate}

abbrev no_gate : Gate
no_gate = record {
  offset_1 = 0;
  segment_selector = 0;
  ist = 0;
  type = 0;
  offset_2 = 0;
  offset_3 = 0;
  zero_bits = 0;
}

abbrev address : Stub → ℕ
address (isr n) = 0xFFFF800000100000 + 16 * n
address (irq n) = 0xFFFF800000200000 + 16 * n

abbrev idt : List Gate
idt = replicate 256 no_gate

keyboard :
    get_elem? (idt_init address 0x6000 idt).0 33
    ≡ some (record {
      offset_1 = 0x0010;
      segment_selector = 0x08;
      ist = 0;
      type = 0x8E;
      offset_2 = 0x0020;
      offset_3 = 0xFFFF8000;
      zero_bits = 0;
    })
unfolding idt_init
keyboard = refl

unassigned : get_elem? (idt_init address 0x6000 idt).0 48 ≡ some no_gate
unfolding idt_init
unassigned = refl

idt_init-IsInterruptGate_example :
    (gate : Gate) × (get_elem? (idt_init address 0x6000 idt).0 0x80 ≡ some gate)
    × IsInterruptGate gate
    × (handler gate ≡ 0xFFFF800000100800)
    × ((ring gate ≡ 3) ↔ (◌≡◌ {A = ℕ} 0x80 0x80))
idt_init-IsInterruptGate_example =
    idt_init-IsInterruptGate address 0x6000 idt 0x80 no_gate (isr 128) 0x08 0xEE
      (length-replicate 256 no_gate) refl (omega arith) refl (omega arith)
