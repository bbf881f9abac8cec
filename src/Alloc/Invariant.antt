-- ===== src/Alloc/Invariant.antt =====
-- The invariant of the heap: which blocks its memory holds, and what its globals say of them.
use mathlib.Core.List.{Perm, perm_middle, append-nil}
use mathlib.Core.List.Perm
use doomkernel.Prelude.{
  ℕ, ◌+◌, ◌%◌, ◌^◌, ◌≤◌, ◌<◌, ◌≡◌, ◌⊎◌, ap, inl, inr, true, Bool-cases, some, List, [], ◌∷◌, ◌++◌,
  arith,
}
use doomkernel.Memory.{Memory}
use doomkernel.Alloc.{Heap, align_up}
use doomkernel.Alloc.Block.{Block, block, total, used_bytes, used_spans, first_fit}
use doomkernel.Alloc.Header.{Chain}

-- The heap consists of the blocks of the list.
pub record IsHeap (h : Heap) (bs : List Block) : Type 0 where
  pub chain : Chain h.mem h.heap_beginning bs
  pub end : h.last_alloc ≡ h.heap_beginning + total bs
  pub start_pos : 0 < h.heap_beginning
  pub start_aligned : h.heap_beginning % 16 ≡ 0
  pub small : h.last_alloc < 2 ^ 62
  pub limit_small : h.heap_end < 2 ^ 62
  pub inside : (bs ≡ []) ⊎ (h.last_alloc < h.heap_end)
  pub used : h.memory_used ≡ used_bytes bs

pub used_bytes-le : (bs : List Block) → used_bytes bs ≤ total bs
used_bytes-le [] = omega arith
used_bytes-le (b ∷ bs) = ground (arith, used_bytes-le bs)

pub total-aligned : (m : Memory) (a : ℕ) (bs : List Block) → Chain m a bs → total bs % 16 ≡ 0
total-aligned m a [] c = omega arith
total-aligned m a (b ∷ bs) (h, c) =
    omega (arith, h.size_aligned, total-aligned m (a + 16 + b.size) bs c)

pub first_fit-aligned :
    (m : Memory) (n a loc : ℕ) (bs : List Block)
    → Chain m a bs
    → a % 16 ≡ 0
    → first_fit n a bs ≡ some loc
    → loc % 16 ≡ 0
first_fit-aligned m n a loc [] c al e = cc
first_fit-aligned m n a loc (b ∷ bs) (h, c) al e =
    ground (arith, first_fit-aligned m n (a + 16 + b.size) loc bs c (omega (arith, h.size_aligned)))

-- ALIGN_UP gives the least multiple of 16 that is not below its argument.
pub align_up_lem :
    (x : ℕ) → x + 15 < 2 ^ 64 → (align_up x % 16 ≡ 0) × (x ≤ align_up x) × (align_up x < x + 16)
unfolding align_up
align_up_lem x h = omega arith

pub align_up_self : (x : ℕ) → x + 15 < 2 ^ 64 → x % 16 ≡ 0 → align_up x ≡ x
unfolding align_up
align_up_self x h al = omega arith

pub used_spans-append :
    (a : ℕ) (xs ys : List Block)
    → used_spans a (xs ++ ys) ≡ used_spans a xs ++ used_spans (a + total xs) ys
used_spans-append a [] ys = ap (λ (t : ℕ). used_spans t ys) (omega arith)
used_spans-append a (x ∷ xs) ys =
    let e : a + 16 + x.size + total xs ≡ a + (16 + x.size + total xs) = omega arith in
    elim (Bool-cases x.used) [
      | inl u ↦ rw (u, used_spans-append (a + 16 + x.size) xs ys, e)
      | inr u ↦ rw (u, used_spans-append (a + 16 + x.size) xs ys, e)
    ]

-- One more used block at the end of the list is one more span.
pub used_spans-appended :
    (a n : ℕ) (bs : List Block)
    → Perm (used_spans a (bs ++ block true n ∷ [])) ((a + total bs + 16, n) ∷ used_spans a bs)
used_spans-appended a n bs =
    rw (used_spans-append a bs (block true n ∷ []))
      (Perm.trans (perm_middle (used_spans a bs) []) (rw append-nil (Perm.refl _)))
