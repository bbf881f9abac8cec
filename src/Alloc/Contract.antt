-- ===== src/Alloc/Contract.antt =====
-- `malloc` and `calloc`: the theorems that a caller relies on.
use mathlib.Core.Path.{subst}
use doomkernel.Prelude.{
  ℕ, zero, suc, ◌-◌, ◌%◌, ◌^◌, ◌≤◌, ◌<◌, ◌≡◌, ◌⊎◌, refl, sym, inl, inr, dec_le, some, List, arith,
}
use doomkernel.Alloc.{Heap, size, mark, align_up, int_max, reuse, malloc}
use doomkernel.Alloc.Block.{
  Block, Allocation, again, appended, refused, decide_allocation, pointer, blocks_after,
}
use doomkernel.Alloc.Malloc.{Granted}
use doomkernel.Alloc.Outcome.{reuse_lem, After, search-After}
use doomkernel.Alloc.Invariant.{IsHeap, align_up_lem}

-- what `After` says of the list of blocks
After-IsHeap :
    (k : ℕ → ℕ) {h : Heap} {bs : List Block} (n : ℕ) {g : Heap} (d : Allocation)
    → IsHeap h bs
    → After k h bs n g d
    → IsHeap g (blocks_after n bs d)
After-IsHeap k n (again loc) v (r, le, e) = r.valid
After-IsHeap k n appended v (r, e) = r.valid
After-IsHeap k {bs} n refused v r = subst (λ (x : Heap). IsHeap x bs) (sym r) v

module _ {h : Heap} {bs : List Block} (v : IsHeap h bs) (n : ℕ) (pos : 0 < n)
    (fits : n ≤ int_max - 15) where
  pub aligned_size :
      (0 < align_up n) × (align_up n % 16 ≡ 0) × (align_up n < 2 ^ 62) × (n ≤ align_up n)
  aligned_size = let e = align_up_lem n (omega arith) in omega (arith, e)

  malloc-After :
      let a = align_up n in
      let d = decide_allocation h.heap_end a h.heap_beginning bs in
      (g : Heap) × (malloc h n ≡ some (pointer h.heap_beginning bs d, g))
      × After (λ loc. size (mark h.mem loc a) loc) h bs a g d
  unfolding malloc
  malloc-After =
      let a = align_up n in
      let (g, e, r) =
        search-After v a aligned_size.0 aligned_size.1 aligned_size.2 reuse
          (λ loc. size (mark h.mem loc a) loc) (λ loc. reuse_lem h loc a) (λ loc q. omega arith) in
      (g, ground (arith, e, v.start_pos), r)

-- On a heap of the blocks `bs`, `malloc` of 1 to INT_MAX - 15 bytes ends; it returns the pointer and
-- leaves the list of blocks that first fit over `bs` gives for the size rounded up to 16: the first
-- free block that is large enough, cut if what is over holds a header and a byte; else a new block
-- at the end, if the end of the heap stays behind it; else the null pointer.
pub malloc_refines :
    {h : Heap} {bs : List Block}
    → IsHeap h bs
    → (n : ℕ) → 0 < n
    → n ≤ int_max - 15
    → let d = decide_allocation h.heap_end (align_up n) h.heap_beginning bs in
      (g : Heap) × (malloc h n ≡ some (pointer h.heap_beginning bs d, g))
      × IsHeap g (blocks_after (align_up n) bs d)
malloc_refines {h} {bs} v n pos fits =
    let a = align_up n in
    let d = decide_allocation h.heap_end a h.heap_beginning bs in
    let (g, e, r) = malloc-After v n pos fits in
    (g, e, After-IsHeap (λ loc. size (mark h.mem loc a) loc) a d v r)

malloc-zero : (h : Heap) → malloc h 0 ≡ some (0, h)
unfolding malloc
malloc-zero h = refl

malloc-large : (h : Heap) (n : ℕ) → int_max - 15 < n → malloc h n ≡ some (0, h)
unfolding malloc
malloc-large h n large = ground arith

-- `malloc` returned the null pointer and left the heap as it was, or it granted a payload of at
-- least `n` bytes at `p`, all of it cleared.
abbrev pub Answer : Heap → List Block → ℕ → ℕ → Heap → Type 0
Answer h bs n p g =
    ((p ≡ 0) × (g ≡ h))
    ⊎ ((cs : List Block) × (c : ℕ) × (r : Granted h bs c p g cs) × (n ≤ r.size) × (c ≡ r.size))

malloc-Answer :
    {h : Heap} {bs : List Block} (n a : ℕ) {g : Heap} (d : Allocation)
    → n ≤ a
    → After (λ loc. size (mark h.mem loc a) loc) h bs a g d
    → Answer h bs n (pointer h.heap_beginning bs d) g
malloc-Answer {h} {bs} n a (again loc) le (r, more, e) =
    inr (blocks_after a bs (again loc), size (mark h.mem loc a) loc, r, omega arith, sym e)
malloc-Answer {h} {bs} n a appended le (r, e) =
    inr (blocks_after a bs appended, a, r, omega arith, sym e)
malloc-Answer n a refused le r = inl (refl, r)

-- Whatever the size asked of it, `malloc` ends on a heap. Either it returns the null pointer and
-- leaves the heap as it was; or it returns a pointer that is a multiple of 16, at which a payload of
-- at least the size asked, within the heap and cleared from its first byte to its last, is now in
-- use beside the payloads that were, and these hold the bytes that they held.
pub malloc_contract :
    {h : Heap} {bs : List Block}
    → IsHeap h bs
    → (n : ℕ) → (p : ℕ) × (g : Heap) × (malloc h n ≡ some (p, g)) × Answer h bs n p g
malloc_contract {h} {bs} v zero = (0, h, malloc-zero h, inl (refl, refl))
malloc_contract {h} {bs} v (suc n) = elim (dec_le (suc n) (int_max - 15)) [
  | yes fits ↦
      let a = align_up (suc n) in
      let d = decide_allocation h.heap_end a h.heap_beginning bs in
      let (g, e, r) = malloc-After v (suc n) (omega arith) fits in
      (
        pointer h.heap_beginning bs d,
        g,
        e,
        malloc-Answer (suc n) a d (aligned_size v (suc n) (omega arith) fits).3 r,
      )
  | no large ↦ (0, h, malloc-large h (suc n) (omega arith), inl (refl, refl))
]
