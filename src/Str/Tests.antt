-- ===== src/Str/Tests.antt =====
-- Runs of the functions of libc/string, and the theorems at concrete memories.
use doomkernel.Prelude.{
  ℕ, ◌+◌, ◌≤◌, ◌<◌, ◌≡◌, ◌⊎◌, ◌↔◌, refl, some, arith, ◌&&◌, leb, ltb, if◌then◌else◌,
}
use doomkernel.Prelude.Int.{pos}
use doomkernel.Memory.{Memory, load8, store8}
use doomkernel.Str.{memmove, memcmp, memcmp_loop, strlen, strlen_loop, copy_up, copy_down}
use doomkernel.Str.Copy.{memmove_lem}
use doomkernel.Str.Compare.{memcmp-zero_iff}
use doomkernel.Str.Length.{IsString}

-- every byte holds the low byte of its address
abbrev counting : Memory
counting = λ a. a

-- "abc" at 16
abbrev text : Memory
text = λ a. if leb 16 a && ltb a 19 then a + 81 else 0

text-IsString : IsString text 16 3
unfolding load8
text-IsString = record { body = λ j p. ground arith; end = ground arith }

abbrev overlap : Memory
overlap = memmove counting 5 3 4

overlap_bytes : load8 overlap 8 ≡ 6
unfolding load8 memmove copy_up copy_down store8
overlap_bytes = refl

length_runs : strlen 8 text 16 ≡ some 3
unfolding load8 strlen strlen_loop
length_runs = refl

compare_runs : memcmp counting 5 3 4 ≡ pos 1
unfolding load8 memcmp memcmp_loop
compare_runs = refl

memmove_lem_example :
    ((j : ℕ) → j < 4 → load8 (memmove counting 5 3 4) (5 + j) ≡ load8 counting (3 + j))
    × ((b : ℕ) → (b < 5) ⊎ (5 + 4 ≤ b) → memmove counting 5 3 4 b ≡ counting b)
memmove_lem_example = memmove_lem counting 5 3 4

memcmp-zero_iff_example :
    (memcmp counting 5 261 4 ≡ pos 0)
    ↔ ((j : ℕ) → j < 4 → load8 counting (5 + j) ≡ load8 counting (261 + j))
memcmp-zero_iff_example = memcmp-zero_iff counting 5 261 4
