-- ===== src/Kernel/Heap/Region.antt =====
-- The region that `memory_init` places the heap at, and what `memory_kernel` reports it with.
use mathlib.Core.Path.{subst}
use doomkernel.Prelude.{
  ℕ, zero, suc, ◌+◌, ◌^◌, ◌≤◌, ◌<◌, ◌≡◌, ◌≢◌, ◌⊎◌, refl, sym, ap, ◌∙◌, Bool-cases, inl, inr, List,
  [], ◌∷◌, ◌++◌, ltb, leb, ◌==◌, ==_iff, if◌then◌else◌, arith,
}
use doomkernel.Memory.{Memory, add64, sub64}
use doomkernel.Alloc.{Heap, align_up}
use doomkernel.Alloc.Mmap.{
  Best, MmapEntry, mapped_limit, heap_min, entry_at, consider, clip, init_step, init_loop,
  first_beginning, place_heap,
}
use doomkernel.Kernel.Heap.{found, found_lengths}

-- the largest of the numbers and `n`
abbrev pub largest : ℕ → List ℕ → ℕ
largest n [] = n
largest n (x ∷ xs) = largest (if ltb n x then x else n) xs

largest-append : (n : ℕ) (xs ys : List ℕ) → largest n (xs ++ ys) ≡ largest (largest n xs) ys
largest-append n [] ys = refl
largest-append n (x ∷ xs) ys = largest-append (if ltb n x then x else n) xs ys

-- An entry makes the best length the larger of it and what the entry is reported with.
init_step-len :
    (first : ℕ) (best : Best) (entry : MmapEntry)
    → (init_step first best entry).len ≡ largest best.len (found first entry)
unfolding init_step clip consider found
init_step-len first best entry = ground arith

pub init_loop-len :
    (n i : ℕ) (m : Memory) (mmap first : ℕ) (best : Best)
    → (init_loop n i m mmap first best).len ≡ largest best.len (found_lengths n i m mmap first)
unfolding init_loop found_lengths
init_loop-len zero i m mmap first best = refl
init_loop-len (suc n) i m mmap first best =
    let entry = entry_at m mmap i in
    init_loop-len n (i + 1) m mmap first (init_step first best entry)
    ∙ ap (λ (k : ℕ). largest k (found_lengths n (i + 1) m mmap first))
        (init_step-len first best entry)
    ∙ sym (largest-append best.len (found first entry) (found_lengths n (i + 1) m mmap first))

-- where the part of an entry above `first` starts
abbrev pub start_of : ℕ → MmapEntry → ℕ
start_of first entry = if ltb entry.base_addr first then first else entry.base_addr

-- The best region is unchanged by an entry, or it is what the entry is reported with.
init_step-found :
    (first : ℕ) (best : Best) (entry : MmapEntry)
    → (init_step first best entry ≡ best)
      ⊎ ((found first entry ≡ (init_step first best entry).len ∷ [])
          × ((init_step first best entry).base ≡ start_of first entry))
unfolding init_step clip consider found
init_step-found first best entry =
    let entry_end = add64 entry.base_addr entry.length in
    let end = if ltb mapped_limit entry_end then mapped_limit else entry_end in
    let length = sub64 end (start_of first entry) in
    elim (Bool-cases (entry.type == 1)) [
      | inr other ↦ rw other (inl refl)
      | inl usable ↦ elim (Bool-cases (leb mapped_limit entry.base_addr)) [
        | inl above ↦ rw (usable, above) (inl refl)
        | inr below ↦ elim (Bool-cases (leb end first)) [
          | inl low ↦ rw (usable, below, low) (inl refl)
          | inr high ↦ elim (Bool-cases (ltb best.len length)) [
            | inl more ↦ rw (usable, below, high, more) (inr (refl, refl))
            | inr less ↦ rw (usable, below, high, less) (inl refl)
          ]
        ]
      ]
    ]

-- The region is that of an entry that was passed, or it is the one before.
abbrev FoundAt : Memory → ℕ → ℕ → ℕ → ℕ → Best → Type 0
FoundAt m mmap first lo hi best =
    (j : ℕ) × (lo ≤ j)
    × (j < hi)
    × (found first (entry_at m mmap j) ≡ best.len ∷ [])
    × (best.base ≡ start_of first (entry_at m mmap j))

init_loop-FoundAt :
    (n i : ℕ) (m : Memory) (mmap first : ℕ) (best : Best)
    → let last = init_loop n i m mmap first best in
      (last ≡ best) ⊎ FoundAt m mmap first i (i + n) last
unfolding init_loop
init_loop-FoundAt zero i m mmap first best = inl refl
init_loop-FoundAt (suc n) i m mmap first best =
    let next = init_step first best (entry_at m mmap i) in
    elim (init_loop-FoundAt n (i + 1) m mmap first next) [
      | inr (j, lo, hi, lengths, base) ↦ inr (j, omega arith, omega arith, lengths, base)
      | inl same ↦ elim (init_step-found first best (entry_at m mmap i)) [
        | inl kept ↦ inl (same ∙ kept)
        | inr (lengths, base) ↦ inr (
          i,
          omega arith,
          omega arith,
          lengths ∙ ap (λ (b : Best). b.len ∷ []) (sym same),
          ap (λ (b : Best). b.base) same ∙ base,
        )
      ]
    ]

pub first_beginning-word : (kernel_end : ℕ) → first_beginning kernel_end < 2 ^ 64
unfolding first_beginning align_up
first_beginning-word kernel_end =
    elim (Bool-cases (ltb (align_up (add64 kernel_end 0x1000)) heap_min)) [
      | inl low ↦ rw low (omega arith)
      | inr high ↦ rw high (omega arith)
    ]

align_up-word : (x : ℕ) → align_up x < 2 ^ 64
unfolding align_up
align_up-word x = omega arith

capped : (x : ℕ) → (if ltb mapped_limit x then mapped_limit else x) ≤ mapped_limit
capped x = ground arith

-- The heap is placed at the largest length found, or behind the kernel where none was found.
pub place_heap-largest :
    (m : Memory) (first n : ℕ) (best : Best)
    → best.len ≡ n
    → first < 2 ^ 64
    → let h = place_heap m first best in
      (h.heap_beginning < 2 ^ 64)
      × (h.heap_end ≤ mapped_limit)
      × (n ≢ 0
          → (h.heap_beginning ≡ align_up best.base)
            × (h.heap_end ≡ (
                if ltb mapped_limit (add64 best.base n) then mapped_limit else add64 best.base n)))
unfolding place_heap
place_heap-largest m first n best e w = elim (Bool-cases (best.len == 0)) [
  | inl nothing ↦
      let zero_len : best.len ≡ 0 = (==_iff best.len 0).0 nothing in
      rw nothing (w, capped (add64 first 0x100000), (λ ne. absurd (ne (sym e ∙ zero_len))))
  | inr some_len ↦ rw some_len (
    align_up-word best.base,
    capped (add64 best.base best.len),
    (λ ne. (
      refl,
      ap
          (λ (k : ℕ).
            if ltb mapped_limit (add64 best.base k) then mapped_limit else add64 best.base k)
          e,
    )),
  )
]

-- where a heap at the region of `n` bytes at `base` starts and ends
abbrev pub Placed : ℕ → ℕ → Heap → Type 0
Placed base n h =
    (h.heap_beginning ≡ align_up base)
    × (h.heap_end ≡ (if ltb mapped_limit (add64 base n) then mapped_limit else add64 base n))

-- The region that the heap is placed at is that of an entry.
pub region_lem :
    (m : Memory) (mmap first count n : ℕ) (h : Heap)
    → let best = init_loop count 0 m mmap first (record { base = 0; len = 0 }) in
      best.len ≡ n
      → n ≢ 0
      → (n ≢ 0 → Placed best.base n h)
      → (j : ℕ) × (j < count)
        × (found first (entry_at m mmap j) ≡ n ∷ [])
        × Placed (start_of first (entry_at m mmap j)) n h
region_lem m mmap first count n h e ne placed =
    elim (init_loop-FoundAt count 0 m mmap first (record { base = 0; len = 0 })) [
      | inl same ↦ absurd (ne (sym e ∙ ap (λ (b : Best). b.len) same))
      | inr (j, lo, hi, lengths, base) ↦ (
        j,
        omega arith,
        lengths ∙ ap (λ (k : ℕ). k ∷ []) e,
        subst (λ (b : ℕ). Placed b n h) base (placed ne),
      )
    ]
