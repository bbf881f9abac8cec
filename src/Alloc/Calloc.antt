-- ===== src/Alloc/Calloc.antt =====
-- `calloc`: the guard against an overflow of the product, and the block that it grants.
use native.Mathlib.Nat.{le-div_iff_mul-le, div-lt_iff_lt-mul}
use doomkernel.Prelude.{
  ℕ, zero, suc, ◌-◌, ◌*◌, ◌/◌, ◌%◌, ◌^◌, ◌≤◌, ◌<◌, ◌≡◌, ◌⊎◌, refl, ◌∙◌, inl, inr, true, false,
  dec_le, ℕ_discrete, some, List, arith, ltb,
}
use doomkernel.Alloc.{
  Heap, align_up, int_max, alloc_align, reuse_calloc, search_and_take, calloc, size_max,
}
use doomkernel.Alloc.Block.{
  Block, Allocation, again, appended, refused, decide_allocation, pointer, blocks_after,
}
use doomkernel.Alloc.Malloc.{Granted}
use doomkernel.Alloc.Reserve.{first_fit-Reserved}
use doomkernel.Alloc.Outcome.{reuse_calloc_lem, After, search-After}
use doomkernel.Alloc.Invariant.{IsHeap}
use doomkernel.Alloc.Contract.{aligned_size}

-- A product past INT_MAX - 15 is refused, also where it does not fit 64 bits.
calloc-large :
    (h : Heap) (amount n : ℕ) → int_max - 15 < amount * n → calloc h amount n ≡ some (0, h)
unfolding calloc
calloc-large h zero n large = absurd (omega arith)
calloc-large h (suc m) n large = elim (dec_le (n * suc m) size_max) [
  | yes word ↦
      let e : suc m * n % 2 ^ 64 ≡ suc m * n = omega arith in
      let test : ltb (int_max - (alloc_align - 1)) (suc m * n % 2 ^ 64) ≡ true = ground arith in
      rw test (ground arith)
  | no wraps ↦
      let past : size_max / suc m < n =
        (div-lt_iff_lt-mul {k = suc m} {x = size_max} {y = n} (omega arith)).1 (omega arith) in
      ground (arith, past)
]

calloc-search :
    (h : Heap)
    → 0 < h.heap_beginning
    → (amount n : ℕ) → 0 < amount * n
    → amount * n ≤ int_max - 15
    → calloc h amount n ≡ search_and_take reuse_calloc h (align_up (amount * n))
unfolding calloc
calloc-search h started zero n pos fits = absurd (omega arith)
calloc-search h started (suc m) zero pos fits = absurd (omega arith)
calloc-search h started (suc m) (suc n) pos fits =
    let e : suc m * suc n % 2 ^ 64 ≡ suc m * suc n = omega arith in
    let within : suc n ≤ size_max / suc m =
      (le-div_iff_mul-le {k = suc m} {x = suc n} {y = size_max} (omega arith)).1 (omega arith) in
    let room : ltb (int_max - (alloc_align - 1)) (suc m * suc n) ≡ false = ground arith in
    rw (e, room) (ground (arith, within))

-- `calloc` returned the null pointer and left the heap as it was, or it granted a payload of at
-- least `n` bytes at `p`, of which at least the first `n` are cleared.
abbrev pub Answer : Heap → List Block → ℕ → ℕ → Heap → Type 0
Answer h bs n p g =
    ((p ≡ 0) × (g ≡ h))
    ⊎ ((cs : List Block) × (c : ℕ) × (r : Granted h bs c p g cs) × (n ≤ r.size) × (n ≤ c))

calloc-Answer :
    {h : Heap} {bs : List Block} (n a : ℕ) {g : Heap} (d : Allocation)
    → n ≤ a
    → After (λ loc. a) h bs a g d
    → Answer h bs n (pointer h.heap_beginning bs d) g
calloc-Answer {h} {bs} n a (again loc) le (r, more, e) =
    inr (blocks_after a bs (again loc), a, r, omega arith, le)
calloc-Answer {h} {bs} n a appended le (r, e) =
    inr (blocks_after a bs appended, a, r, omega arith, le)
calloc-Answer n a refused le r = inl (refl, r)

calloc-After :
    {h : Heap} {bs : List Block}
    → IsHeap h bs
    → (amount n : ℕ) → 0 < amount * n
    → amount * n ≤ int_max - 15
    → (p : ℕ) × (g : Heap) × (calloc h amount n ≡ some (p, g)) × Answer h bs (amount * n) p g
calloc-After {h} {bs} v amount n pos fits =
    let a = align_up (amount * n) in
    let s = aligned_size v (amount * n) pos fits in
    let d = decide_allocation h.heap_end a h.heap_beginning bs in
    let (g, e, r) =
      search-After v a s.0 s.1 s.2 reuse_calloc (λ loc. a) (λ loc. reuse_calloc_lem h loc a)
        (λ loc q.
          (first_fit-Reserved h.mem a 0 h.heap_beginning loc bs v.chain
            (omega (arith, v.end, v.small)) s.0 s.1 q (omega arith)).enough) in
    (
      pointer h.heap_beginning bs d,
      g,
      calloc-search h v.start_pos amount n pos fits ∙ e,
      calloc-Answer (amount * n) a d s.3 r,
    )

calloc-zero : (h : Heap) (amount n : ℕ) → amount * n ≡ 0 → calloc h amount n ≡ some (0, h)
unfolding calloc
calloc-zero h zero n e = ground arith
calloc-zero h (suc m) zero e = refl
calloc-zero h (suc m) (suc n) e = absurd (omega arith)

-- Whatever is asked of it, `calloc` ends on a heap. Either it returns the null pointer and leaves the
-- heap as it was; or it returns a pointer that is a multiple of 16, at which a payload of at least
-- `amount * n` bytes (the true product), within the heap and cleared over that length, is now in use
-- beside the payloads that were, and these hold the bytes that they held. A product past
-- INT_MAX - 15 is always refused, also where it does not fit 64 bits.
pub calloc_contract :
    {h : Heap} {bs : List Block}
    → IsHeap h bs
    → (amount n : ℕ)
    → ((p : ℕ) × (g : Heap) × (calloc h amount n ≡ some (p, g)) × Answer h bs (amount * n) p g)
      × (int_max - 15 < amount * n → calloc h amount n ≡ some (0, h))
calloc_contract {h} {bs} v amount n = (answer, calloc-large h amount n)
  where
    answer : (p : ℕ) × (g : Heap) × (calloc h amount n ≡ some (p, g)) × Answer h bs (amount * n) p g
    answer = elim (dec_le (amount * n) (int_max - 15)) [
      | no large ↦ (0, h, calloc-large h amount n (omega arith), inl (refl, refl))
      | yes fits ↦ elim (ℕ_discrete (amount * n) 0) [
        | yes none_asked ↦ (0, h, calloc-zero h amount n none_asked, inl (refl, refl))
        | no some_asked ↦ calloc-After v amount n (omega arith) fits
      ]
    ]
