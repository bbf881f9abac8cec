-- ===== src/Str/Copy.antt =====
-- libc/string/memcpy.c and memmove.c
use doomkernel.Prelude.{
  ℕ, zero, suc, ◌+◌, ◌≤◌, ◌<◌, ◌≡◌, ◌⊎◌, refl, ◌∙◌, inl, inr, arith, Bool-cases, ltb, ℕ_discrete,
}
use doomkernel.Memory.{Memory, load8, store8}
use doomkernel.Memory.Laws.{load8_same, load8-store8, store8_ne}
use doomkernel.Str.{copy_up, copy_down, memcpy, memmove}

copy_up_outside :
    (n i : ℕ) (m : Memory) (dest src b : ℕ)
    → (b < dest + i) ⊎ (dest + i + n ≤ b)
    → copy_up n i m dest src b ≡ m b
unfolding copy_up
copy_up_outside zero i m dest src b h = refl
copy_up_outside (suc n) i m dest src b h =
    copy_up_outside n (i + 1) (store8 m (dest + i) (load8 m (src + i))) dest src b (omega arith)
    ∙ store8_ne m (dest + i) (load8 m (src + i)) b (omega arith)

copy_down_outside :
    (n : ℕ) (m : Memory) (dest src b : ℕ)
    → (b < dest) ⊎ (dest + n ≤ b)
    → copy_down n m dest src b ≡ m b
unfolding copy_down
copy_down_outside zero m dest src b h = refl
copy_down_outside (suc i) m dest src b h =
    copy_down_outside i (store8 m (dest + i) (load8 m (src + i))) dest src b (omega arith)
    ∙ store8_ne m (dest + i) (load8 m (src + i)) b (omega arith)

-- A byte that one round writes is the byte that it read.
copied_byte :
    (m : Memory) (dest src i : ℕ)
    → load8 (store8 m (dest + i) (load8 m (src + i))) (dest + i) ≡ load8 m (src + i)
unfolding load8
copied_byte m dest src i = load8-store8 m (dest + i) (load8 m (src + i)) ∙ omega arith

-- Counting up is right where no source byte is overwritten before it is read.
copy_up_lem :
    (n i : ℕ) (m : Memory) (dest src j : ℕ)
    → (dest ≤ src) ⊎ (src + i + n ≤ dest + i)
    → i ≤ j
    → j < i + n
    → load8 (copy_up n i m dest src) (dest + j) ≡ load8 m (src + j)
unfolding copy_up
copy_up_lem zero i m dest src j h p q = absurd (omega arith)
copy_up_lem (suc n) i m dest src j h p q =
    let m' = store8 m (dest + i) (load8 m (src + i)) in
    elim (ℕ_discrete i j) [
      | yes e ↦ rw (← e) (
          load8_same m' (copy_up n (i + 1) m' dest src) (dest + i)
            (copy_up_outside n (i + 1) m' dest src (dest + i) (omega arith))
          ∙ copied_byte m dest src i)
      | no ne ↦
          copy_up_lem n (i + 1) m' dest src j (omega arith) (omega arith) (omega arith)
          ∙ load8_same m m' (src + j)
              (store8_ne m (dest + i) (load8 m (src + i)) (src + j) (omega arith))
    ]

-- Counting down is right where the destination does not start below the source.
copy_down_lem :
    (n : ℕ) (m : Memory) (dest src j : ℕ)
    → src ≤ dest
    → j < n
    → load8 (copy_down n m dest src) (dest + j) ≡ load8 m (src + j)
unfolding copy_down
copy_down_lem zero m dest src j h p = absurd (omega arith)
copy_down_lem (suc i) m dest src j h p =
    let m' = store8 m (dest + i) (load8 m (src + i)) in
    elim (ℕ_discrete i j) [
      | yes e ↦ rw (← e) (
          load8_same m' (copy_down i m' dest src) (dest + i)
            (copy_down_outside i m' dest src (dest + i) (omega arith))
          ∙ copied_byte m dest src i)
      | no ne ↦
          copy_down_lem i m' dest src j h (omega arith)
          ∙ load8_same m m' (src + j)
              (store8_ne m (dest + i) (load8 m (src + i)) (src + j) (omega arith))
    ]

-- `memcpy` of `size` bytes from `src`, where the two areas do not overlap or `dest` is not above
-- `src`: the destination then holds the bytes that the source held.
pub memcpy_lem :
    (m : Memory) (dest src size j : ℕ)
    → (dest ≤ src) ⊎ (src + size ≤ dest)
    → j < size
    → load8 (memcpy m dest src size) (dest + j) ≡ load8 m (src + j)
unfolding memcpy
memcpy_lem m dest src size j h p =
    copy_up_lem size 0 m dest src j (omega arith) (omega arith) (omega arith)

pub memcpy_outside :
    (m : Memory) (dest src size b : ℕ)
    → (b < dest) ⊎ (dest + size ≤ b)
    → memcpy m dest src size b ≡ m b
unfolding memcpy
memcpy_outside m dest src size b h = copy_up_outside size 0 m dest src b (omega arith)

-- `memmove`, whatever the overlap of the two areas: after it the destination holds the `size`
-- bytes that the source held before, and every address outside the destination is as it was.
pub memmove_lem :
    (m : Memory) (dest src size : ℕ)
    → ((j : ℕ) → j < size → load8 (memmove m dest src size) (dest + j) ≡ load8 m (src + j))
      × ((b : ℕ) → (b < dest) ⊎ (dest + size ≤ b) → memmove m dest src size b ≡ m b)
unfolding memmove
memmove_lem m dest src size = elim (Bool-cases (ltb dest src)) [
  | inl up ↦ rw up (
    λ j p. copy_up_lem size 0 m dest src j (inl (ground arith)) (omega arith) (omega arith),
    λ b h. copy_up_outside size 0 m dest src b (omega arith),
  )
  | inr down ↦ rw down (
    λ j p. copy_down_lem size m dest src j (ground arith) p,
    λ b h. copy_down_outside size m dest src b h,
  )
]
