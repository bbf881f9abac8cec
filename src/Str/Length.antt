-- ===== src/Str/Length.antt =====
-- libc/string/strlen.c
use doomkernel.Prelude.{ℕ, zero, suc, ◌+◌, ◌≤◌, ◌<◌, ◌≡◌, ◌≢◌, some, arith, ℕ_discrete}
use doomkernel.Memory.{Memory, load8}
use doomkernel.Str.{strlen_loop, strlen}

-- a C string of `n` bytes stands at `str`: none of them is NUL, and a NUL follows
pub record IsString (m : Memory) (str n : ℕ) : Type 0 where
  pub body : (j : ℕ) → j < n → load8 m (str + j) ≢ 0
  pub end : load8 m (str + n) ≡ 0

strlen_loop_lem :
    (fuel i : ℕ) {n : ℕ} (m : Memory) (str : ℕ)
    → IsString m str n
    → i ≤ n
    → n < fuel + i
    → strlen_loop fuel i m str ≡ some n
unfolding strlen_loop
strlen_loop_lem zero i m str s p q = absurd (omega arith)
strlen_loop_lem (suc fuel) i {n} m str s p q = elim (ℕ_discrete i n) [
  | yes e ↦ ground (arith, s.end)
  | no ne ↦
      ground (arith, s.body i, strlen_loop_lem fuel (i + 1) m str s (omega arith) (omega arith))
]

-- On a C string of `n` bytes, with more rounds than its length, `strlen` ends and returns `n`.
pub strlen_lem :
    (fuel : ℕ) (m : Memory) (str n : ℕ) → IsString m str n → n < fuel → strlen fuel m str ≡ some n
unfolding strlen
strlen_lem fuel m str n s h = strlen_loop_lem fuel 0 m str s (omega arith) (omega arith)
