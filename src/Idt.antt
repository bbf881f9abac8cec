-- ===== src/Idt.antt =====
-- kernel/interrupts/idt.c and kernel/include/interrupts/idt.h: the table of interrupt gates. The addresses
-- of the assembly stubs and of `idt` are the linker's. The call of `idt_flush`, in assembly, is what
-- it is passed.
pub mod Gates
mod Tests
use doomkernel.Prelude.{ℕ, ◌-◌, ◌*◌, ◌/◌, ◌%◌, ◌^◌, List, [], ◌∷◌, set}

-- `interrupter_descriptor_t`
pub record Gate : Type 0 where
  pub offset_1 : ℕ
  pub segment_selector : ℕ
  pub ist : ℕ
  pub type : ℕ
  pub offset_2 : ℕ
  pub offset_3 : ℕ
  pub zero_bits : ℕ

-- `idtr_t`
pub record Idtr : Type 0 where
  pub limit : ℕ
  pub base : ℕ

-- the stubs `isr0` up to `isr31`, `isr128` and `irq0` up to `irq15`
pub data Stub : Type 0 where
  isr : ℕ → Stub
  irq : ℕ → Stub

abbrev pub new_gate : ℕ → ℕ → ℕ → Gate
new_gate handler_addr selector type = record {
  offset_1 = handler_addr % 2 ^ 16;
  offset_2 = handler_addr / 2 ^ 16 % 2 ^ 16;
  offset_3 = handler_addr / 2 ^ 32 % 2 ^ 32;
  segment_selector = selector % 2 ^ 16;
  ist = 0;
  type = type % 256;
  zero_bits = 0;
}

-- all fields of `idt[vector]`
unfoldable pub idt_set_item : List Gate → ℕ → ℕ → ℕ → ℕ → List Gate
idt_set_item idt vector handler_addr selector type =
    set idt vector (new_gate handler_addr selector type)

-- the arguments of the calls of `idt_set_item`, in order
abbrev pub items : List (ℕ × Stub × ℕ × ℕ)
items =
    (0, isr 0, 0x08, 0x8E)
    ∷ (1, isr 1, 0x08, 0x8E)
    ∷ (2, isr 2, 0x08, 0x8E)
    ∷ (3, isr 3, 0x08, 0x8E)
    ∷ (4, isr 4, 0x08, 0x8E)
    ∷ (5, isr 5, 0x08, 0x8E)
    ∷ (6, isr 6, 0x08, 0x8E)
    ∷ (7, isr 7, 0x08, 0x8E)
    ∷ (8, isr 8, 0x08, 0x8E)
    ∷ (9, isr 9, 0x08, 0x8E)
    ∷ (10, isr 10, 0x08, 0x8E)
    ∷ (11, isr 11, 0x08, 0x8E)
    ∷ (12, isr 12, 0x08, 0x8E)
    ∷ (13, isr 13, 0x08, 0x8E)
    ∷ (14, isr 14, 0x08, 0x8E)
    ∷ (15, isr 15, 0x08, 0x8E)
    ∷ (16, isr 16, 0x08, 0x8E)
    ∷ (17, isr 17, 0x08, 0x8E)
    ∷ (18, isr 18, 0x08, 0x8E)
    ∷ (19, isr 19, 0x08, 0x8E)
    ∷ (20, isr 20, 0x08, 0x8E)
    ∷ (21, isr 21, 0x08, 0x8E)
    ∷ (22, isr 22, 0x08, 0x8E)
    ∷ (23, isr 23, 0x08, 0x8E)
    ∷ (24, isr 24, 0x08, 0x8E)
    ∷ (25, isr 25, 0x08, 0x8E)
    ∷ (26, isr 26, 0x08, 0x8E)
    ∷ (27, isr 27, 0x08, 0x8E)
    ∷ (28, isr 28, 0x08, 0x8E)
    ∷ (29, isr 29, 0x08, 0x8E)
    ∷ (30, isr 30, 0x08, 0x8E)
    ∷ (31, isr 31, 0x08, 0x8E)
    ∷ (32, irq 0, 0x08, 0x8E)
    ∷ (33, irq 1, 0x08, 0x8E)
    ∷ (34, irq 2, 0x08, 0x8E)
    ∷ (35, irq 3, 0x08, 0x8E)
    ∷ (36, irq 4, 0x08, 0x8E)
    ∷ (37, irq 5, 0x08, 0x8E)
    ∷ (38, irq 6, 0x08, 0x8E)
    ∷ (39, irq 7, 0x08, 0x8E)
    ∷ (40, irq 8, 0x08, 0x8E)
    ∷ (41, irq 9, 0x08, 0x8E)
    ∷ (42, irq 10, 0x08, 0x8E)
    ∷ (43, irq 11, 0x08, 0x8E)
    ∷ (44, irq 12, 0x08, 0x8E)
    ∷ (45, irq 13, 0x08, 0x8E)
    ∷ (46, irq 14, 0x08, 0x8E)
    ∷ (47, irq 15, 0x08, 0x8E)
    ∷ (0x80, isr 128, 0x08, 0xEE)
    ∷ []

unfoldable pub set_items : (Stub → ℕ) → List (ℕ × Stub × ℕ × ℕ) → List Gate → List Gate
unfolding idt_set_item
set_items address [] idt = idt
set_items address ((vector, stub, selector, type) ∷ rest) idt =
    set_items address rest (idt_set_item idt vector (address stub) selector type)

unfoldable pub idt_set_items : (Stub → ℕ) → List Gate → List Gate
unfolding set_items
idt_set_items address idt = set_items address items idt

-- A gate has 16 bytes.
unfoldable pub idt_init : (Stub → ℕ) → ℕ → List Gate → List Gate × Idtr
unfolding idt_set_items
idt_init address idt_address idt =
    (idt_set_items address idt, record { limit = 16 * 256 - 1; base = idt_address })
