-- ===== src/Alloc/Mmap.antt =====
-- `memory_init` of libc/stdlib/malloc.c: the heap is placed in the largest usable region of the BIOS
-- memory map that lies above the kernel and below the mapped limit. The map is read from memory,
-- as packed entries of 24 bytes. The messages that it prints are in Kernel/Heap.
use doomkernel.Prelude.{ℕ, zero, suc, ◌+◌, ◌*◌, ◌%◌, ◌^◌, ltb, leb, ◌==◌, if◌then◌else◌, not}
use doomkernel.Memory.{Memory, add64, sub64, load_le}
use doomkernel.Alloc.{Heap, align_up}

abbrev pub mapped_limit : ℕ
mapped_limit = 0x40000000

abbrev pub heap_min : ℕ
heap_min = 0x800000

-- `mmap_entry_t`; `type` is 1 (MMAP_USABLE) for usable memory
pub record MmapEntry : Type 0 where
  pub base_addr : ℕ
  pub length : ℕ
  pub type : ℕ

-- mmap[i]
unfoldable pub entry_at : Memory → ℕ → ℕ → MmapEntry
entry_at m mmap i = record {
  base_addr = load_le 8 m (mmap + 24 * i);
  length = load_le 8 m (mmap + 24 * i + 8);
  type = load_le 4 m (mmap + 24 * i + 16);
}

pub record Best : Type 0 where
  pub base : ℕ
  pub len : ℕ

-- the body of the loop once the region has been clipped to `entry_start` and `entry_end`
unfoldable pub consider : Best → ℕ → ℕ → Best
consider best entry_start entry_end =
    let new_length = sub64 entry_end entry_start in
    if ltb best.len new_length then record { base = entry_start; len = new_length } else best

unfoldable pub clip : ℕ → Best → ℕ → ℕ → Best
clip heap_beginning best entry_start entry_end =
    let end = if ltb mapped_limit entry_end then mapped_limit else entry_end in
    if leb mapped_limit entry_start
    then best
    else if leb end heap_beginning
    then best
    else consider best (if ltb entry_start heap_beginning then heap_beginning else entry_start) end

unfoldable pub init_step : ℕ → Best → MmapEntry → Best
init_step heap_beginning best entry =
    if not (entry.type == 1)
    then best
    else clip heap_beginning best entry.base_addr (add64 entry.base_addr entry.length)

unfoldable pub init_loop : ℕ → ℕ → Memory → ℕ → ℕ → Best → Best
init_loop zero i m mmap heap_beginning best = best
init_loop (suc n) i m mmap heap_beginning best =
    init_loop n (i + 1) m mmap heap_beginning (init_step heap_beginning best (entry_at m mmap i))

unfoldable pub first_beginning : ℕ → ℕ
first_beginning kernel_end =
    let padded = align_up (add64 kernel_end 0x1000) in
    if ltb padded heap_min then heap_min else padded

unfoldable pub place_heap : Memory → ℕ → Best → Heap
place_heap m first best =
    let beginning = if best.len == 0 then first else align_up best.base in
    let end = if best.len == 0 then add64 first 0x100000 else add64 best.base best.len in
    record {
      mem = m;
      heap_beginning = beginning;
      heap_end = if ltb mapped_limit end then mapped_limit else end;
      last_alloc = beginning;
      memory_used = 0;
    }

-- `mmap_count` is a `uint16_t`.
unfoldable pub memory_init : Memory → ℕ → ℕ → ℕ → Heap
memory_init m kernel_end mmap mmap_count =
    let first = first_beginning kernel_end in
    place_heap m first
      (init_loop (mmap_count % 2 ^ 16) 0 m mmap first (record { base = 0; len = 0 }))
