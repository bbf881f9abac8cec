-- ===== src/Interrupt/Pic.antt =====
-- kernel/interrupts/pic.c: the set-up of the two interrupt controllers and their masks. What `inb` reads
-- is a function of the port; `outb` is a write of a byte to a port.
use doomkernel.Prelude.{ℕ, ◌+◌, ◌-◌, ◌/◌, ◌%◌, ◌^◌, Bool, List, [], ◌∷◌, ltb, ◌==◌, if◌then◌else◌}

-- bit `i` of `v`, and `v | (1 << i)` and `v & ~(1 << i)`
abbrev pub has_bit : ℕ → ℕ → Bool
has_bit v i = v / 2 ^ i % 2 == 1

abbrev pub with_bit : ℕ → ℕ → ℕ
with_bit v i = if has_bit v i then v else v + 2 ^ i

abbrev pub without_bit : ℕ → ℕ → ℕ
without_bit v i = if has_bit v i then v - 2 ^ i else v

unfoldable pub data_port : ℕ → ℕ
data_port irq = if ltb irq 8 then 0x21 else 0xA1

unfoldable pub irq_line : ℕ → ℕ
irq_line irq = if ltb irq 8 then irq else irq - 8

unfoldable pub pic_set_mask : (ℕ → ℕ) → ℕ → ℕ × ℕ
pic_set_mask inb irq = (data_port irq, with_bit (inb (data_port irq)) (irq_line irq) % 256)

unfoldable pub pic_clear_mask : (ℕ → ℕ) → ℕ → ℕ × ℕ
pic_clear_mask inb irq = (data_port irq, without_bit (inb (data_port irq)) (irq_line irq) % 256)

unfoldable pub pic_remap : (ℕ → ℕ) → ℕ → ℕ → List (ℕ × ℕ)
pic_remap inb offset1 offset2 =
    (0x20, 0x11)
    ∷ (0x80, 0)
    ∷ (0xA0, 0x11)
    ∷ (0x80, 0)
    ∷ (0x21, offset1 % 256)
    ∷ (0x80, 0)
    ∷ (0xA1, offset2 % 256)
    ∷ (0x80, 0)
    ∷ (0x21, 4)
    ∷ (0x80, 0)
    ∷ (0xA1, 2)
    ∷ (0x80, 0)
    ∷ (0x21, 1)
    ∷ (0x80, 0)
    ∷ (0xA1, 1)
    ∷ (0x80, 0)
    ∷ (0x21, inb 0x21)
    ∷ (0xA1, inb 0xA1)
    ∷ []
