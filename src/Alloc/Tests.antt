-- ===== src/Alloc/Tests.antt =====
-- Runs of the functions of libc/stdlib on small heaps, and the theorems at them.
use mathlib.Core.List.{Perm}
use doomkernel.Prelude.{
  ℕ, zero, suc, ◌+◌, ◌-◌, ◌*◌, ◌^◌, ◌≤◌, ◌<◌, ◌≡◌, ◌⊎◌, refl, inl, inr, Bool, true, false, Option,
  some, none, List, [], ◌∷◌, ◌++◌, arith,
}
use doomkernel.Memory.{Memory, load8, load_le, store8, store_le}
use doomkernel.Memory.Laws.{SameOn}
use doomkernel.Alloc.{
  Heap, align_up, int_max, status, size, set_status, set_size, next_block, walk, mark, extend,
  reuse, resume, search_and_take, malloc, calloc, realloc, free,
}
use doomkernel.Alloc.Block.{
  Block, block, total, used_spans, decide_allocation, pointer, blocks_after, carve,
}
use doomkernel.Alloc.Header.{flag}
use doomkernel.Alloc.Invariant.{IsHeap}
use doomkernel.Alloc.Contract
use doomkernel.Alloc.Contract.{malloc_refines, malloc_contract}
use doomkernel.Alloc.Calloc
use doomkernel.Alloc.Calloc.{calloc_contract}
use doomkernel.Alloc.Joined.{freed}
use doomkernel.Alloc.Reserve.{UsedSame}
use doomkernel.Alloc.Free.{Returned, free_refines, free_contract}
use doomkernel.Alloc.Realloc.{Moved, realloc_grows}
use doomkernel.Alloc.Shrink.{realloc_shrinks}
use doomkernel.Alloc.Mmap.{entry_at, memory_init}
use doomkernel.Alloc.Init.{IsPlaced, memory_init_lem}

abbrev blank : Memory
blank = λ x. 0

-- 1 MiB from HEAP_MIN, no block yet
abbrev empty : Heap
empty = record {
  mem = blank;
  heap_beginning = 0x800000;
  heap_end = 0x900000;
  last_alloc = 0x800000;
  memory_used = 0;
}

empty-IsHeap : IsHeap empty []
empty-IsHeap = record {
  chain = tt;
  end = omega arith;
  start_pos = omega arith;
  start_aligned = omega arith;
  small = omega arith;
  limit_small = omega arith;
  inside = inl refl;
  used = refl;
}

abbrev header : Memory → ℕ → Bool → ℕ → Memory
header m a u n = set_size (set_status m a (flag u)) a n

-- a used block of 32 bytes, a free one of 64, a used one of 16
abbrev blocks : List Block
blocks = block true 32 ∷ block false 64 ∷ block true 16 ∷ []

abbrev three : Heap
three = record {
  mem = header (header (header blank 0x800000 true 32) 0x800030 false 64) 0x800080 true 16;
  heap_beginning = 0x800000;
  heap_end = 0x900000;
  last_alloc = 0x8000a0;
  memory_used = 80;
}

three-IsHeap : IsHeap three blocks
unfolding status size set_status set_size load8 store8 load_le store_le
three-IsHeap = record {
  chain = (
    record { status_is = refl; size_is = refl; size_pos = omega arith; size_aligned = omega arith },
    (
      record {
        status_is = refl;
        size_is = refl;
        size_pos = omega arith;
        size_aligned = omega arith;
      },
      (
        record {
          status_is = refl;
          size_is = refl;
          size_pos = omega arith;
          size_aligned = omega arith;
        },
        tt,
      ),
    ),
  );
  end = omega arith;
  start_pos = omega arith;
  start_aligned = omega arith;
  small = omega arith;
  limit_small = omega arith;
  inside = inr (omega arith);
  used = omega arith;
}

abbrev pointer_of : Option (ℕ × Heap) → ℕ
pointer_of none = 0
pointer_of (some (p, h)) = p

-- The free block is too small for 65 bytes, and large enough for 40.
malloc_runs : (pointer_of (malloc three 40) ≡ 0x800040) × (pointer_of (malloc three 65) ≡ 0x8000b0)
unfolding malloc search_and_take walk next_block reuse extend resume mark align_up status size
    set_status set_size load8 store8 load_le store_le
malloc_runs = (refl, refl)

malloc_refines_example :
    let d = decide_allocation 0x900000 (align_up 40) 0x800000 blocks in
    (g : Heap) × (malloc three 40 ≡ some (pointer 0x800000 blocks d, g))
    × IsHeap g (blocks_after (align_up 40) blocks d)
malloc_refines_example = malloc_refines three-IsHeap 40 (omega arith) (omega arith)

malloc_contract_example :
    (p : ℕ) × (g : Heap) × (malloc three 40 ≡ some (p, g)) × Contract.Answer three blocks 40 p g
malloc_contract_example = malloc_contract three-IsHeap 40

calloc_contract_example :
    ((p : ℕ) × (g : Heap) × (calloc three 5 8 ≡ some (p, g))
      × Calloc.Answer three blocks (5 * 8) p g)
    × (int_max - 15 < 5 * 8 → calloc three 5 8 ≡ some (0, three))
calloc_contract_example = calloc_contract three-IsHeap 5 8

free_contract_example :
    (g : Heap) × (free three 0x800090 ≡ some g) × Returned three blocks 0x800090 16 g
free_contract_example =
    free_contract 0x800090 16 three-IsHeap (inr (inr (inl (refl, omega arith, refl))))

free_refines_example :
    let p = 0x800000 + total (block true 32 ∷ block false 64 ∷ []) + 16 in
    let cs = freed (block true 32 ∷ block false 64 ∷ []) (block true 16) [] in
    (g : Heap) × (free three p ≡ some g)
    × IsHeap g cs
    × Perm (used_spans 0x800000 blocks) ((p, 16) ∷ used_spans 0x800000 cs)
    × ((x : ℕ) → p ≤ x → x < p + 16 → g.mem x ≡ 0)
    × UsedSame 0x800000 cs three.mem g.mem
    × (g.heap_beginning ≡ 0x800000)
free_refines_example =
    free_refines (block true 32 ∷ block false 64 ∷ []) (block true 16) [] three-IsHeap refl

realloc_grows_example :
    (q : ℕ) × (f : Heap) × (realloc three 0x800010 60 ≡ some (q, f))
    × (((q ≡ 0) × (f ≡ three)) ⊎ Moved three blocks 0x800010 32 60 q f)
unfolding align_up
realloc_grows_example =
    realloc_grows 0x800010 32 60 three-IsHeap (inl (refl, omega arith, refl)) (omega arith)
      (omega arith) (omega arith)

realloc_shrinks_example :
    let p : ℕ = 0x800000 + 0 + 16 in
    (g : Heap) × (realloc three p 8 ≡ some (p, g))
    × IsHeap g (carve (align_up 8) (block true 32) ++ block false 64 ∷ block true 16 ∷ [])
    × SameOn p (p + align_up 8) three.mem g.mem
    × ((x : ℕ) → (x + 16 < p) ⊎ (p + 32 ≤ x) → g.mem x ≡ three.mem x)
unfolding align_up
realloc_shrinks_example =
    realloc_shrinks [] (block true 32) (block false 64 ∷ block true 16 ∷ []) 8 three-IsHeap refl
      (omega arith) (omega arith) (omega arith)

-- one usable entry, 16 MiB from address 0
abbrev one_entry : Memory
one_entry = store_le 4 (store_le 8 (store_le 8 blank 0x5000 0) 0x5008 0x1000000) 0x5010 1

memory_init_lem_example :
    IsHeap (memory_init one_entry 0x20000 0x5000 1) []
    × IsPlaced one_entry 0x20000 0x5000 1 (memory_init one_entry 0x20000 0x5000 1)
unfolding entry_at load8 store8 load_le store_le
memory_init_lem_example =
    memory_init_lem one_entry 0x20000 0x5000 1 (omega arith) (omega arith) words
  where
    words :
        (i : ℕ)
        → i < 1
        → (entry_at one_entry 0x5000 i).base_addr + (entry_at one_entry 0x5000 i).length < 2 ^ 64
    words zero lt = omega arith
    words (suc i) lt = absurd (omega arith)
