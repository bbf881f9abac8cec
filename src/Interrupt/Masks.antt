-- ===== src/Interrupt/Masks.antt =====
-- The masks of the interrupt lines.
use doomkernel.Prelude.{
  ℕ, ◌-◌, ◌%◌, ◌^◌, ◌<◌, ◌≡◌, refl, sym, Bool, true, false, not, ◌==◌, if◌then◌else◌, arith, [],
  ◌∷◌, all_below, all_below_lem, dec_lt,
}
use doomkernel.Interrupt.Pic.{
  has_bit, with_bit, without_bit, data_port, irq_line, pic_set_mask, pic_clear_mask, pic_remap,
}
use doomkernel.Interrupt.Tick.{sent_to}

abbrev same : Bool → Bool → Bool
same true b = b
same false b = not b

same_eq : (a b : Bool) → same a b ≡ true → a ≡ b
same_eq true b e = sym e
same_eq false true e = absurd (cc)
same_eq false false e = refl

-- a property of two bit positions of a byte
abbrev Check : Type 0
Check = ℕ → ℕ → ℕ → Bool

every :
    (p : Check) (v i j : ℕ)
    → all_below 256 (λ v. all_below 8 (λ i. all_below 8 (p v i))) ≡ true
    → v < 256
    → i < 8
    → j < 8
    → p v i j ≡ true
every p v i j e hv hi hj =
    all_below_lem 8 (p v i) j
      (all_below_lem 8 (λ i. all_below 8 (p v i)) i
        (all_below_lem 256 (λ v. all_below 8 (λ i. all_below 8 (p v i))) v e hv) hi)
      hj

bit_set :
    (v i j : ℕ)
    → v < 256
    → i < 8
    → j < 8
    → has_bit (with_bit v i % 256) j ≡ (if j == i then true else has_bit v j)
bit_set v i j hv hi hj =
    same_eq (has_bit (with_bit v i % 256) j) (if j == i then true else has_bit v j) (
      every (λ v i j. same (has_bit (with_bit v i % 256) j) (if j == i then true else has_bit v j))
        v i j refl hv hi hj)

bit_cleared :
    (v i j : ℕ)
    → v < 256
    → i < 8
    → j < 8
    → has_bit (without_bit v i % 256) j ≡ (if j == i then false else has_bit v j)
bit_cleared v i j hv hi hj =
    same_eq (has_bit (without_bit v i % 256) j) (if j == i then false else has_bit v j) (
      every
        (λ v i j. same (has_bit (without_bit v i % 256) j) (if j == i then false else has_bit v j))
        v i j refl hv hi hj)

-- what the ports read after a write: a data port reads back the mask that was written to it
abbrev pub written : (ℕ → ℕ) → ℕ × ℕ → ℕ → ℕ
written inb w port = if port == w.0 then w.1 else inb port

abbrev pub is_masked : (ℕ → ℕ) → ℕ → Bool
is_masked inb irq = has_bit (inb (data_port irq)) (irq_line irq)

module _ (inb : ℕ → ℕ) (irq j : ℕ) (bytes : (port : ℕ) → inb port < 256) (hi : irq < 16)
    (hj : j < 16) where
  -- `pic_set_mask` masks the line it is given and leaves the other fifteen as they were.
  pub pic_set_mask_lem :
      is_masked (written inb (pic_set_mask inb irq)) j
      ≡ (if j == irq then true else is_masked inb j)
  unfolding pic_set_mask data_port irq_line
  pic_set_mask_lem = elim (dec_lt irq 8) [
    | yes a ↦ elim (dec_lt j 8) [
      | yes b ↦ ground (arith, bit_set (inb 0x21) irq j (bytes 0x21) a b)
      | no b ↦ ground arith
    ]
    | no a ↦ elim (dec_lt j 8) [
      | yes b ↦ ground arith
      | no b ↦
          ground
            (arith, bit_set (inb 0xA1) (irq - 8) (j - 8) (bytes 0xA1) (omega arith) (omega arith))
    ]
  ]

  -- `pic_clear_mask` unmasks the line it is given and leaves the other fifteen as they were.
  pub pic_clear_mask_lem :
      is_masked (written inb (pic_clear_mask inb irq)) j
      ≡ (if j == irq then false else is_masked inb j)
  unfolding pic_clear_mask data_port irq_line
  pic_clear_mask_lem = elim (dec_lt irq 8) [
    | yes a ↦ elim (dec_lt j 8) [
      | yes b ↦ ground (arith, bit_cleared (inb 0x21) irq j (bytes 0x21) a b)
      | no b ↦ ground arith
    ]
    | no a ↦ elim (dec_lt j 8) [
      | yes b ↦ ground arith
      | no b ↦
          ground (
            arith,
            bit_cleared (inb 0xA1) (irq - 8) (j - 8) (bytes 0xA1) (omega arith) (omega arith),
          )
    ]
  ]

-- `pic_remap` sends the four initialisation words to each controller in their order, its offset as
-- the second, the wiring of the second controller to line 2 as the third, and 8086 mode as the
-- fourth; and after them it sends to each data port the mask that it read there.
pub pic_remap_lem :
    (inb : ℕ → ℕ) (offset1 offset2 : ℕ)
    → let ws = pic_remap inb offset1 offset2 in
      (sent_to 0x20 ws ≡ 0x11 ∷ [])
      × (sent_to 0x21 ws ≡ offset1 % 256 ∷ 2 ^ 2 ∷ 1 ∷ inb 0x21 ∷ [])
      × (sent_to 0xA0 ws ≡ 0x11 ∷ [])
      × (sent_to 0xA1 ws ≡ offset2 % 256 ∷ 2 ∷ 1 ∷ inb 0xA1 ∷ [])
unfolding pic_remap
pic_remap_lem inb offset1 offset2 = (refl, refl, refl, refl)
