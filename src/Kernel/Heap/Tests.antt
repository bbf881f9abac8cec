-- ===== src/Kernel/Heap/Tests.antt =====
-- A memory map with no usable entry, and one with a region above the kernel.
use doomkernel.Prelude.{ℕ, ◌≡◌, ◌≢◌, ◌<◌, refl, some, [], ◌∷◌, ◌++◌, replicate, arith}
use doomkernel.Memory.{Memory, load8, load_le, store8, store_le}
use doomkernel.Terminal.{Terminal}
use doomkernel.Printf.Rounds.{shown}
use doomkernel.Alloc.{align_up}
use doomkernel.Alloc.Mmap.{entry_at, first_beginning, memory_init}
use doomkernel.Panic.Report.{joined}
use doomkernel.Kernel.Heap.{found, found_lengths, memory_kernel}
use doomkernel.Kernel.Heap.Region.{largest, start_of, Placed}
use doomkernel.Kernel.Heap.Report.{report, done_line, memory_kernel_lem}

abbrev screen : Terminal
screen = record {
  cursor_x = 0;
  cursor_y = 0;
  terminal_color = 15;
  terminal_buffer = replicate 2000 0;
}

-- one usable entry at 0x5000, from 0x100000 to 0x8100000
abbrev map_memory : Memory
map_memory = store_le 4 (store_le 8 (store_le 8 (λ a. 0) 0x5000 0x100000) 0x5008 0x8000000) 0x5010 1

region : found_lengths 1 0 map_memory 0x5000 (first_beginning 0x20000) ≡ 0x7900000 ∷ []
unfolding found_lengths found first_beginning align_up entry_at load8 store8 load_le store_le
region = refl

memory_kernel_lem_example :
    let lengths = found_lengths 1 0 map_memory 0x5000 (first_beginning 0x20000) in
    let h = memory_init map_memory 0x20000 0x5000 1 in
    let n = largest 0 lengths in
    (memory_kernel map_memory 0x20000 0x5000 1 screen
      ≡ some (h, shown screen (joined (report 0x20000 1 lengths h) ++ done_line)))
    × (n ≢ 0
        → (j : ℕ) × (j < 1)
          × (found (first_beginning 0x20000) (entry_at map_memory 0x5000 j) ≡ n ∷ [])
          × Placed (start_of (first_beginning 0x20000) (entry_at map_memory 0x5000 j)) n h)
memory_kernel_lem_example =
    memory_kernel_lem map_memory 0x20000 0x5000 1 screen (omega arith) (omega arith)
