-- ===== src/Kernel/Heap.antt =====
-- kernel/kernel/kernel.c, `memory_kernel`, with the messages of `memory_init` (libc/stdlib/malloc.c).
pub mod Region
pub mod Report
mod Tests
use doomkernel.Prelude.{
  ℕ, zero, suc, ◌+◌, ◌%◌, ◌^◌, Option, some, List, [], ◌∷◌, ◌++◌, ltb, leb, ◌==◌, if◌then◌else◌,
  not, codes, ◌>>=◌,
}
use doomkernel.Memory.{Memory, add64, sub64}
use doomkernel.Terminal.{Terminal}
use doomkernel.Printf.{word}
use doomkernel.Alloc.{Heap}
use doomkernel.Alloc.Mmap.{MmapEntry, mapped_limit, entry_at, first_beginning, memory_init}
use doomkernel.Panic.{Call, say_all}

-- the lengths that an entry is reported with, which are none or one
unfoldable pub found : ℕ → MmapEntry → List ℕ
found heap_beginning entry =
    let entry_end = add64 entry.base_addr entry.length in
    let end = if ltb mapped_limit entry_end then mapped_limit else entry_end in
    let start = if ltb entry.base_addr heap_beginning then heap_beginning else entry.base_addr in
    if not (entry.type == 1)
    then []
    else if leb mapped_limit entry.base_addr
    then []
    else if leb end heap_beginning
    then []
    else sub64 end start ∷ []

-- those of the next `n` entries
unfoldable pub found_lengths : ℕ → ℕ → Memory → ℕ → ℕ → List ℕ
unfolding found
found_lengths zero i m mmap heap_beginning = []
found_lengths (suc n) i m mmap heap_beginning =
    found heap_beginning (entry_at m mmap i) ++ found_lengths n (i + 1) m mmap heap_beginning

abbrev pub found_calls : List ℕ → List Call
found_calls [] = []
found_calls (n ∷ ns) =
    (codes "[memory] found usable region with length %x\n", word n ∷ []) ∷ found_calls ns

abbrev pub first_calls : ℕ → ℕ → List Call
first_calls kernel_end heap_beginning =
    (codes "[memory] kernel end at %x\n", word kernel_end ∷ [])
    ∷ (codes "[memory] heap beginning padded to %x\n", word heap_beginning ∷ [])
    ∷ []

abbrev pub last_calls : Heap → List Call
last_calls h =
    (
      codes "[memory] heap set to beginning=%x and end=%x\n",
      word h.heap_beginning ∷ word h.heap_end ∷ [],
    )
    ∷ []

-- what `memory_init` prints
unfoldable pub init_calls : Memory → ℕ → ℕ → ℕ → List Call
unfolding found_lengths
init_calls m kernel_end mmap mmap_count =
    let first = first_beginning kernel_end in
    first_calls kernel_end first
    ++ (found_calls (found_lengths (mmap_count % 2 ^ 16) 0 m mmap first)
        ++ last_calls (memory_init m kernel_end mmap mmap_count))

unfoldable pub memory_kernel : Memory → ℕ → ℕ → ℕ → Terminal → Option (Heap × Terminal)
unfolding init_calls
memory_kernel m kernel_end mmap_addr mmap_count t =
    say_all t (
      (codes "******MEMORY******\n", [])
      ∷ (codes "[memory] BIOS reported %d usable memory map entries\n", word mmap_count ∷ [])
      ∷ init_calls m kernel_end mmap_addr mmap_count)
    >>= λ t1. say_all t1 ((codes "[memory] heap beginning and end was set\n", []) ∷ []) >>= λ t2.
        some (memory_init m kernel_end mmap_addr mmap_count, t2)
