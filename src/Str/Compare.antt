-- ===== src/Str/Compare.antt =====
-- libc/string/memcmp.c
use doomkernel.Prelude.{ℕ, zero, suc, ◌+◌, ◌≤◌, ◌<◌, ◌≡◌, ◌↔◌, refl, arith, ℕ_discrete}
use doomkernel.Prelude.Int.{pos, neg}
use doomkernel.Memory.{Memory, load8}
use doomkernel.Str.{memcmp_loop, memcmp}

-- the bytes at `s1` and `s2` agree from index `i` up to `i + n`
abbrev SameBytes : Memory → ℕ → ℕ → ℕ → ℕ → Type 0
SameBytes m s1 s2 i n = (j : ℕ) → i ≤ j → j < i + n → load8 m (s1 + j) ≡ load8 m (s2 + j)

memcmp_loop-zero :
    (n i : ℕ) (m : Memory) (s1 s2 : ℕ) → SameBytes m s1 s2 i n → memcmp_loop n i m s1 s2 ≡ pos 0
unfolding memcmp_loop
memcmp_loop-zero zero i m s1 s2 h = refl
memcmp_loop-zero (suc n) i m s1 s2 h = ground (
  arith,
  h i (omega arith) (omega arith),
  memcmp_loop-zero n (i + 1) m s1 s2 (λ j p q. h j (omega arith) (omega arith)),
)

memcmp_loop-same :
    (n i : ℕ) (m : Memory) (s1 s2 : ℕ) → memcmp_loop n i m s1 s2 ≡ pos 0 → SameBytes m s1 s2 i n
unfolding memcmp_loop
memcmp_loop-same zero i m s1 s2 h = λ j p q. absurd (omega arith)
memcmp_loop-same (suc n) i m s1 s2 h = λ j p q. elim (ℕ_discrete i j) [
  | yes e ↦ rw (← e) (ground arith)
  | no ne ↦ memcmp_loop-same n (i + 1) m s1 s2 (ground arith) j (omega arith) (omega arith)
]

memcmp_loop-neg :
    (n i : ℕ) (m : Memory) (s1 s2 : ℕ) → memcmp_loop n i m s2 s1 ≡ neg (memcmp_loop n i m s1 s2)
unfolding memcmp_loop
memcmp_loop-neg zero i m s1 s2 = refl
memcmp_loop-neg (suc n) i m s1 s2 = ground (arith, memcmp_loop-neg n (i + 1) m s1 s2)

-- `memcmp` returns 0 exactly when the two areas hold the same `n` bytes.
pub memcmp-zero_iff :
    (m : Memory) (s1 s2 n : ℕ)
    → (memcmp m s1 s2 n ≡ pos 0) ↔ ((j : ℕ) → j < n → load8 m (s1 + j) ≡ load8 m (s2 + j))
unfolding memcmp
memcmp-zero_iff m s1 s2 n = (
  λ e j p. memcmp_loop-same n 0 m s1 s2 e j (omega arith) (omega arith),
  λ h. memcmp_loop-zero n 0 m s1 s2 (λ j p q. h j (omega arith)),
)

-- Exchanging the two areas negates the result of `memcmp`.
pub memcmp-neg : (m : Memory) (s1 s2 n : ℕ) → memcmp m s2 s1 n ≡ neg (memcmp m s1 s2 n)
unfolding memcmp
memcmp-neg m s1 s2 n = memcmp_loop-neg n 0 m s1 s2
