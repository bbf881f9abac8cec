-- ===== src/Str/Fill.antt =====
-- libc/string/memset.c
use doomkernel.Prelude.{
  ℕ, zero, suc, ◌+◌, ◌%◌, ◌≤◌, ◌<◌, ◌≡◌, ◌⊎◌, arith, ◌&&◌, leb, ltb, if◌then◌else◌,
}
use doomkernel.Memory.{Memory, store8}
use doomkernel.Str.{memset_loop, memset}

memset_loop_lem :
    (n i : ℕ) (m : Memory) (dest value b : ℕ)
    → memset_loop n i m dest value b
      ≡ (if leb (dest + i) b && ltb b (dest + i + n) then value % 256 else m b)
unfolding memset_loop store8
memset_loop_lem zero i m dest value b = ground arith
memset_loop_lem (suc n) i m dest value b =
    ground (arith, memset_loop_lem n (i + 1) (store8 m (dest + i) value) dest value b)

-- `memset` fills exactly the bytes from `dest` up to `dest + size`, with the low byte of `value`.
pub memset_lem :
    (m : Memory) (dest value size b : ℕ)
    → memset m dest value size b ≡ (if leb dest b && ltb b (dest + size) then value % 256 else m b)
unfolding memset
memset_lem m dest value size b = ground (arith, memset_loop_lem size 0 m dest value b)

pub memset_outside :
    (m : Memory) (dest value size b : ℕ)
    → (b < dest) ⊎ (dest + size ≤ b)
    → memset m dest value size b ≡ m b
memset_outside m dest value size b h = ground (arith, memset_lem m dest value size b)

pub memset_inside :
    (m : Memory) (dest value size b : ℕ)
    → dest ≤ b
    → b < dest + size
    → memset m dest value size b ≡ value % 256
memset_inside m dest value size b p q = ground (arith, memset_lem m dest value size b)
