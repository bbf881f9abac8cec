-- ===== src/Memory.antt =====
-- The flat byte-addressed memory that the C code of the kernel reads and writes, with the
-- little-endian loads and stores of the machine (x86-64). The `uint64_t` operations wrap.
pub mod Laws
use doomkernel.Prelude.{ℕ, zero, suc, ◌+◌, ◌-◌, ◌*◌, ◌/◌, ◌%◌, ◌^◌, ◌==◌, if◌then◌else◌}

abbrev pub Memory : Type 0
Memory = ℕ → ℕ

-- `uint64_t` addition and subtraction
abbrev pub add64 : ℕ → ℕ → ℕ
add64 a b = (a + b) % 2 ^ 64

abbrev pub sub64 : ℕ → ℕ → ℕ
sub64 a b = (a + 2 ^ 64 - b) % 2 ^ 64

-- a read and a write through an `unsigned char *`
unfoldable pub load8 : Memory → ℕ → ℕ
load8 m a = m a % 256

unfoldable pub store8 : Memory → ℕ → ℕ → Memory
store8 m a v b = if b == a then v % 256 else m b

-- a read and a write of `n` bytes, the low byte first
unfoldable pub load_le : ℕ → Memory → ℕ → ℕ
load_le zero m a = 0
load_le (suc n) m a = load8 m a + 256 * load_le n m (a + 1)

unfoldable pub store_le : ℕ → Memory → ℕ → ℕ → Memory
store_le zero m a v = m
store_le (suc n) m a v = store_le n (store8 m a v) (a + 1) (v / 256)
