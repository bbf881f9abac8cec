-- ===== src/Str.antt =====
-- libc/string: memset, memcpy, memmove, memcmp and strlen over the flat memory. A loop that counts
-- up recurs on the rounds left; `strlen`, which has no bound of its own, takes fuel.
pub mod Fill
pub mod Copy
pub mod Compare
pub mod Length
mod Tests
use doomkernel.Prelude.{ℕ, zero, suc, ◌+◌, Option, none, some, ltb, ◌==◌, if◌then◌else◌}
use doomkernel.Prelude.Int.{ℤ, pos, negsuc}
use doomkernel.Memory.{Memory, load8, store8}

memset_loop : ℕ → ℕ → Memory → ℕ → ℕ → Memory
memset_loop zero i m dest value = m
memset_loop (suc n) i m dest value = memset_loop n (i + 1) (store8 m (dest + i) value) dest value

unfoldable pub memset : Memory → ℕ → ℕ → ℕ → Memory
unfolding memset_loop
memset m dest value size = memset_loop size 0 m dest value

-- for (i = 0; i < size; i++) dest[i] = src[i];
copy_up : ℕ → ℕ → Memory → ℕ → ℕ → Memory
copy_up zero i m dest src = m
copy_up (suc n) i m dest src = copy_up n (i + 1) (store8 m (dest + i) (load8 m (src + i))) dest src

-- for (i = size; i != 0; i--) dest[i-1] = src[i-1];
copy_down : ℕ → Memory → ℕ → ℕ → Memory
copy_down zero m dest src = m
copy_down (suc i) m dest src = copy_down i (store8 m (dest + i) (load8 m (src + i))) dest src

unfoldable pub memcpy : Memory → ℕ → ℕ → ℕ → Memory
unfolding copy_up
memcpy m dest src size = copy_up size 0 m dest src

unfoldable pub memmove : Memory → ℕ → ℕ → ℕ → Memory
unfolding copy_up copy_down
memmove m dest src size =
    if ltb dest src then copy_up size 0 m dest src else copy_down size m dest src

memcmp_loop : ℕ → ℕ → Memory → ℕ → ℕ → ℤ
memcmp_loop zero i m s1 s2 = pos 0
memcmp_loop (suc n) i m s1 s2 =
    let rest = memcmp_loop n (i + 1) m s1 s2 in
    if ltb (load8 m (s2 + i)) (load8 m (s1 + i))
    then pos 1
    else if ltb (load8 m (s1 + i)) (load8 m (s2 + i))
    then negsuc 0
    else rest

unfoldable pub memcmp : Memory → ℕ → ℕ → ℕ → ℤ
unfolding memcmp_loop
memcmp m s1 s2 s1_len = memcmp_loop s1_len 0 m s1 s2

-- `none` means that the fuel ran out before a NUL was met.
strlen_loop : ℕ → ℕ → Memory → ℕ → Option ℕ
strlen_loop zero len m str = none
strlen_loop (suc fuel) len m str =
    let rest = strlen_loop fuel (len + 1) m str in
    if load8 m (str + len) == 0 then some len else rest

unfoldable pub strlen : ℕ → Memory → ℕ → Option ℕ
unfolding strlen_loop
strlen fuel m str = strlen_loop fuel 0 m str
